-- ===== src/Server/Treasury.antt =====
-- crates/server/src/treasury.rs: the trait `Treasury`, and `DecdnTreasury` over the contract.
pub mod Contract
pub mod Laws
use sponsor.Common.{ℕ, ◌+◌, ◌-◌, ◌≤◌, ◌≡◌, Option, none, some, ltb, if◌then◌else◌, String}
use sponsor.Common.Result.{Result, ok, err}
use sponsor.Common.Action.{Action, resume, ◌>>=◌, ◌>>◌, pure, lift}
use sponsor.Common.Words.{IsU64, saturating_sub, u64_max}
use sponsor.Common.Text.{Text}
use sponsor.Crates.{Crates}
use sponsor.Server.Money.{MicroUsdc}

-- `u64::try_from(n).unwrap_or(u64::MAX)`
unfoldable pub u64_or_max : ℕ → ℕ
u64_or_max n = if ltb u64_max n then u64_max else n

module _ (crates : Crates) where
  open crates use {Address, B256, PrivateKey, key_address}

  -- The trait `Treasury`, over the state `Chain` of whatever stands behind it.
  pub record Treasury (Chain : Type 0) : Type 0 where
    pub owner_address : Address
    pub remaining : B256 → Action Chain MicroUsdc
    pub top_up : B256 → MicroUsdc → Action Chain MicroUsdc
    pub pool_owner : B256 → Action Chain Address

  pub record TreasuryConfig : Type 0 where
    pub rpc_url : Text
    pub payment_pool : Address
    pub chain_id : ℕ
    pub signer : PrivateKey

  -- What `getPool` returns, as far as the program reads it.
  pub record Pool : Type 0 where
    pub owner : Address
    pub deposit : ℕ
    pub total_redeemed : ℕ

  -- The calls into decdn_client and the contract. Amounts that a transaction credits are u256.
  pub record Client (Chain Provider : Type 0) : Type 0 where
    pub build_provider : Text → PrivateKey → Result Provider
    pub usdc : Address → Provider → Action Chain Address
    pub get_pool : Address → Provider → B256 → Action Chain Pool
    pub ensure_allowance :
        Provider → Address → Address → Address → Option ℕ → Action Chain (Unit {0})
    pub top_up : Address → Provider → B256 → ℕ → Action Chain ℕ

  pub record DecdnTreasury (Provider : Type 0) : Type 0 where
    pub provider : Provider
    pub self_address : Address
    pub token : Address
    pub payment_pool : Address

  module _ {Chain Provider : Type 0} (client : Client Chain Provider) where
    open client use {build_provider, usdc, get_pool, ensure_allowance}

    -- DecdnTreasury::remaining
    unfoldable pub remaining : DecdnTreasury Provider → B256 → Action Chain MicroUsdc
    remaining t pool_id = do
      pool ← get_pool t.payment_pool t.provider pool_id
      pure (record { micros = saturating_sub pool.deposit pool.total_redeemed })

    -- DecdnTreasury::top_up
    unfoldable pub top_up : DecdnTreasury Provider → B256 → MicroUsdc → Action Chain MicroUsdc
    unfolding u64_or_max
    top_up t pool_id additional = do
      let amount = additional.micros
      ensure_allowance t.provider t.token t.self_address t.payment_pool (some amount)
      credited ← client.top_up t.payment_pool t.provider pool_id amount
      pure (record { micros = u64_or_max credited })

    -- DecdnTreasury::pool_owner
    unfoldable pub pool_owner : DecdnTreasury Provider → B256 → Action Chain Address
    pool_owner t pool_id = do pool ← get_pool t.payment_pool t.provider pool_id; pure pool.owner

    -- `impl Treasury for DecdnTreasury`
    abbrev pub as_treasury : DecdnTreasury Provider → Treasury Chain
    as_treasury t = record {
      owner_address = t.self_address;
      remaining = remaining t;
      top_up = top_up t;
      pool_owner = pool_owner t;
    }

    -- connect
    unfoldable pub connect : TreasuryConfig → Action Chain (DecdnTreasury Provider)
    connect cfg = do
      let self_address = key_address cfg.signer
      provider ← lift (build_provider cfg.rpc_url cfg.signer)
      token ← usdc cfg.payment_pool provider
      pure (record {
        provider = provider;
        self_address = self_address;
        token = token;
        payment_pool = cfg.payment_pool;
      })
