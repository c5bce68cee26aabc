-- ===== src/Server/Config.antt =====
-- crates/server/src/config.rs: `ServerConfig`, read from the environment.
pub mod Reads
use sponsor.Common.{ℕ, Option, none, some, String}
use sponsor.Common.Result.{Result, ok, err, ◌>>=◌, ◌>>◌}
use sponsor.Common.Text.{Text, lit}
use sponsor.Common.Text.Number.{parse_u64}
use sponsor.Crates.{Crates}
use sponsor.Server.Money.{MicroUsdc}
use sponsor.Server.Issuer.{Issuer, new_issuer}
use sponsor.Server.Release.{ReleasePin, new_pin}

-- `std::env::var`, where a variable that is not set and one that is no Unicode are alike.
abbrev pub Env : Type 0
Env = String → Option Text

-- `env`
unfoldable pub env_var : Env → String → Result Text
env_var e k = elim (e k) [ none ↦ err "missing env" | some v ↦ ok v ]

-- `env_u64`
unfoldable pub env_u64 : Env → String → ℕ → Result ℕ
env_u64 e k default = elim (e k) [ none ↦ ok default | some v ↦ parse_u64 v ]

-- `std::env::var(k).unwrap_or_else(…)`
unfoldable pub env_or : Env → String → String → Text
env_or e k default = elim (e k) [ none ↦ lit default | some v ↦ v ]

abbrev pub relabel : Result ReleasePin → Result ReleasePin
relabel (ok p) = ok p
relabel (err m) = err "release variables"

-- ReleasePin::from_env
unfoldable pub pin_from_env : Env → String → String → Result ReleasePin
unfolding env_var
pin_from_env e tag_var sums_var = do
  tag ← env_var e tag_var
  sums ← env_var e sums_var
  relabel (new_pin tag sums)

module _ (crates : Crates) where
  open crates use {
    Address, B256, PrivateKey, SocketAddr, parse_address, parse_b256, parse_socket_addr,
    voucher_domain,
  }

  pub record ServerConfig : Type 0 where
    pub bind : SocketAddr
    pub public_url : Text
    pub rpc_url : Text
    pub chain_id : ℕ
    pub payment_pool : Address
    pub pool_id : B256
    pub capacity_bond : Address
    pub treasury_keystore : Text
    pub capability_cap : MicroUsdc
    pub capability_ttl_secs : ℕ
    pub pool_low_water : MicroUsdc
    pub pool_refill : MicroUsdc
    pub pool_watch_interval_secs : ℕ
    pub turnstile_secret : Text
    pub turnstile_sitekey : Text
    pub data_dir : Text
    pub decdn_release : ReleasePin
    pub wrapper_release : ReleasePin

  -- ServerConfig::from_env
  unfoldable pub from_env : Env → Result ServerConfig
  from_env e = do
    bind ← parse_socket_addr (env_or e "SPONSOR_BIND" "127.0.0.1:8080")
    let public_url = env_or e "SPONSOR_PUBLIC_URL" "https://up.decdn.org"
    rpc_url ← env_var e "SPONSOR_RPC_URL"
    chain_id ← env_u64 e "SPONSOR_CHAIN_ID" 421_614
    pool_text ← env_var e "SPONSOR_PAYMENT_POOL_ADDR"
    payment_pool ← parse_address pool_text
    id_text ← env_var e "SPONSOR_POOL_ID"
    pool_id ← parse_b256 id_text
    bond_text ← env_var e "SPONSOR_CAPACITY_BOND_ADDR"
    capacity_bond ← parse_address bond_text
    treasury_keystore ← env_var e "SPONSOR_TREASURY_KEYSTORE"
    spending ← env_u64 e "SPONSOR_CAPABILITY_CAP_MICRO_USDC" 5_000_000
    ttl ← env_u64 e "SPONSOR_CAPABILITY_TTL_SECS" 172_800
    low_water ← env_u64 e "SPONSOR_POOL_LOW_WATER_MICRO_USDC" 20_000_000
    refill ← env_u64 e "SPONSOR_POOL_REFILL_MICRO_USDC" 100_000_000
    interval ← env_u64 e "SPONSOR_POOL_WATCH_INTERVAL_SECS" 3600
    turnstile_secret ← env_var e "SPONSOR_TURNSTILE_SECRET"
    turnstile_sitekey ← env_var e "SPONSOR_TURNSTILE_SITEKEY"
    let data_dir = env_or e "SPONSOR_DATA_DIR" "./data"
    decdn_release ← pin_from_env e "SPONSOR_DECDN_RELEASE" "SPONSOR_DECDN_SUMS_SHA256"
    wrapper_release ← pin_from_env e "SPONSOR_WRAPPER_RELEASE" "SPONSOR_WRAPPER_SUMS_SHA256"
    ok (record {
      bind = bind;
      public_url = public_url;
      rpc_url = rpc_url;
      chain_id = chain_id;
      payment_pool = payment_pool;
      pool_id = pool_id;
      capacity_bond = capacity_bond;
      treasury_keystore = treasury_keystore;
      capability_cap = record { micros = spending };
      capability_ttl_secs = ttl;
      pool_low_water = record { micros = low_water };
      pool_refill = record { micros = refill };
      pool_watch_interval_secs = interval;
      turnstile_secret = turnstile_secret;
      turnstile_sitekey = turnstile_sitekey;
      data_dir = data_dir;
      decdn_release = decdn_release;
      wrapper_release = wrapper_release;
    })

  -- ServerConfig::load_treasury_signer, over decdn_incentive's `eth_identity::load_signer`
  unfoldable pub load_treasury_signer :
      (Text → Text → Result PrivateKey) → Env → ServerConfig → Result PrivateKey
  unfolding env_var
  load_treasury_signer load_signer e cfg = do
    password ← env_var e "SPONSOR_TREASURY_PASSWORD"
    load_signer cfg.treasury_keystore password

  -- ServerConfig::build_issuer
  unfoldable pub build_issuer : ServerConfig → PrivateKey → Issuer crates
  unfolding new_issuer
  build_issuer cfg signer =
      new_issuer crates signer (voucher_domain cfg.chain_id cfg.payment_pool) cfg.pool_id
        cfg.capability_cap.micros cfg.capability_ttl_secs
