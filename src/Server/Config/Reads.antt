-- ===== src/Server/Config/Reads.antt =====
-- What a configuration that was read says of the environment.
use sponsor.Common.{
  ℕ, ◌≡◌, ◌⊎◌, inl, inr, refl, none, some, String, Option-cases, arith, subst, sym,
}
use sponsor.Common.Result.{Result, ok, err, bind-eq-ok, ok-injective}
use sponsor.Common.Words.{IsU64}
use sponsor.Common.Text.{Text, lit}
use sponsor.Common.Text.Number.{parse_u64, parse_u64-IsU64}
use sponsor.Crates.{Crates}
use sponsor.Server.Release.{ReleasePin, new_pin}
use sponsor.Server.Config.{
  Env, env_var, env_u64, env_or, pin_from_env, relabel, ServerConfig, from_env,
}

-- The variable's own value, or the default where it is not set.
abbrev pub ReadsOr : Env → String → Text → Text → Type 0
ReadsOr e k default v = ((e k ≡ none) × (v ≡ default)) ⊎ (e k ≡ some v)

-- So for a number, which fits 64 bits.
abbrev pub ReadsU64 : Env → String → ℕ → ℕ → Type 0
ReadsU64 e k default n =
    ((e k ≡ none) × (n ≡ default)) ⊎ ((v : Text) × (e k ≡ some v) × (parse_u64 v ≡ ok n) × IsU64 n)

pub ReadsU64-IsU64 :
    (e : Env) (k : String) (default n : ℕ) → IsU64 default → ReadsU64 e k default n → IsU64 n
ReadsU64-IsU64 e k default n h (inl (missing, same)) = subst IsU64 (sym same) h
ReadsU64-IsU64 e k default n h (inr (v, set, parses, small)) = small

abbrev pub ReadsPin : Env → String → String → ReleasePin → Type 0
ReadsPin e tag_var sums_var pin =
    (tag : Text) × (sums : Text) × (e tag_var ≡ some tag)
    × (e sums_var ≡ some sums)
    × (new_pin tag sums ≡ ok pin)

env_or-ReadsOr : (e : Env) (k default : String) → ReadsOr e k (lit default) (env_or e k default)
unfolding env_or
env_or-ReadsOr e k default = elim (Option-cases (e k)) [
  | inl unset ↦ rw (unset, env_or) (inl (refl, refl))
  | inr (v, set) ↦ rw (set, env_or) (inr refl)
]

env_var-eq-ok : (e : Env) (k : String) (v : Text) → env_var e k ≡ ok v → e k ≡ some v
unfolding env_var
env_var-eq-ok e k v h = ground arith

env_u64-ReadsU64 :
    (e : Env) (k : String) (default n : ℕ) → env_u64 e k default ≡ ok n → ReadsU64 e k default n
unfolding env_u64
env_u64-ReadsU64 e k default n h = elim (Option-cases (e k)) [
  | inl unset ↦ inl (unset, ground arith)
  | inr (v, set) ↦
      let r : parse_u64 v ≡ ok n = ground arith in inr (v, set, r, parse_u64-IsU64 v n r)
]

relabel-eq-ok : (r : Result ReleasePin) (p : ReleasePin) → relabel r ≡ ok p → r ≡ ok p
relabel-eq-ok (ok q) p h = h
relabel-eq-ok (err m) p h = cc

pin_from_env-ReadsPin :
    (e : Env) (tag_var sums_var : String) (pin : ReleasePin)
    → pin_from_env e tag_var sums_var ≡ ok pin
    → ReadsPin e tag_var sums_var pin
unfolding pin_from_env
pin_from_env-ReadsPin e tag_var sums_var pin h =
    let (tag, htag, h₁) = bind-eq-ok (env_var e tag_var) _ h in
    let (sums, hsums, h₂) = bind-eq-ok (env_var e sums_var) _ h₁ in
    (
      tag,
      sums,
      env_var-eq-ok e tag_var tag htag,
      env_var-eq-ok e sums_var sums hsums,
      relabel-eq-ok _ pin h₂,
    )

module _ (crates : Crates) where
  open crates use {parse_address, parse_b256, parse_socket_addr}

  pub record Reads (e : Env) (cfg : ServerConfig crates) : Type 0 where
    pub bind : parse_socket_addr (env_or e "SPONSOR_BIND" "127.0.0.1:8080") ≡ ok cfg.bind
    pub public_url : ReadsOr e "SPONSOR_PUBLIC_URL" (lit "https://up.decdn.org") cfg.public_url
    pub rpc_url : e "SPONSOR_RPC_URL" ≡ some cfg.rpc_url
    pub chain_id : ReadsU64 e "SPONSOR_CHAIN_ID" 421_614 cfg.chain_id
    pub payment_pool :
        (t : Text) × (e "SPONSOR_PAYMENT_POOL_ADDR" ≡ some t)
        × (parse_address t ≡ ok cfg.payment_pool)
    pub pool_id : (t : Text) × (e "SPONSOR_POOL_ID" ≡ some t) × (parse_b256 t ≡ ok cfg.pool_id)
    pub capacity_bond :
        (t : Text) × (e "SPONSOR_CAPACITY_BOND_ADDR" ≡ some t)
        × (parse_address t ≡ ok cfg.capacity_bond)
    pub treasury_keystore : e "SPONSOR_TREASURY_KEYSTORE" ≡ some cfg.treasury_keystore
    pub capability_cap :
        ReadsU64 e "SPONSOR_CAPABILITY_CAP_MICRO_USDC" 5_000_000 cfg.capability_cap.micros
    pub capability_ttl_secs :
        ReadsU64 e "SPONSOR_CAPABILITY_TTL_SECS" 172_800 cfg.capability_ttl_secs
    pub pool_low_water :
        ReadsU64 e "SPONSOR_POOL_LOW_WATER_MICRO_USDC" 20_000_000 cfg.pool_low_water.micros
    pub pool_refill : ReadsU64 e "SPONSOR_POOL_REFILL_MICRO_USDC" 100_000_000 cfg.pool_refill.micros
    pub pool_watch_interval_secs :
        ReadsU64 e "SPONSOR_POOL_WATCH_INTERVAL_SECS" 3600 cfg.pool_watch_interval_secs
    pub turnstile_secret : e "SPONSOR_TURNSTILE_SECRET" ≡ some cfg.turnstile_secret
    pub turnstile_sitekey : e "SPONSOR_TURNSTILE_SITEKEY" ≡ some cfg.turnstile_sitekey
    pub data_dir : ReadsOr e "SPONSOR_DATA_DIR" (lit "./data") cfg.data_dir
    pub decdn_release :
        ReadsPin e "SPONSOR_DECDN_RELEASE" "SPONSOR_DECDN_SUMS_SHA256" cfg.decdn_release
    pub wrapper_release :
        ReadsPin e "SPONSOR_WRAPPER_RELEASE" "SPONSOR_WRAPPER_SUMS_SHA256" cfg.wrapper_release

  -- In a configuration that `from_env` returns every field is the value of its own variable,
  -- parsed, or its default where the variable is missing and has one; numbers fit 64 bits and both
  -- releases are pins.
  pub from_env-Reads :
      (e : Env) (cfg : ServerConfig crates) → from_env crates e ≡ ok cfg → Reads e cfg
  unfolding from_env
  from_env-Reads e cfg h =
      let (bind, h1, g1) =
        bind-eq-ok (parse_socket_addr (env_or e "SPONSOR_BIND" "127.0.0.1:8080")) _ h in
      let (rpc, h2, g2) = bind-eq-ok (env_var e "SPONSOR_RPC_URL") _ g1 in
      let (chain, h3, g3) = bind-eq-ok (env_u64 e "SPONSOR_CHAIN_ID" 421_614) _ g2 in
      let (pool_t, h4, g4) = bind-eq-ok (env_var e "SPONSOR_PAYMENT_POOL_ADDR") _ g3 in
      let (pool, h5, g5) = bind-eq-ok (parse_address pool_t) _ g4 in
      let (id_t, h6, g6) = bind-eq-ok (env_var e "SPONSOR_POOL_ID") _ g5 in
      let (id, h7, g7) = bind-eq-ok (parse_b256 id_t) _ g6 in
      let (bond_t, h8, g8) = bind-eq-ok (env_var e "SPONSOR_CAPACITY_BOND_ADDR") _ g7 in
      let (bond, h9, g9) = bind-eq-ok (parse_address bond_t) _ g8 in
      let (keystore, h10, g10) = bind-eq-ok (env_var e "SPONSOR_TREASURY_KEYSTORE") _ g9 in
      let (spending, h11, g11) =
        bind-eq-ok (env_u64 e "SPONSOR_CAPABILITY_CAP_MICRO_USDC" 5_000_000) _ g10 in
      let (ttl, h12, g12) = bind-eq-ok (env_u64 e "SPONSOR_CAPABILITY_TTL_SECS" 172_800) _ g11 in
      let (low, h13, g13) =
        bind-eq-ok (env_u64 e "SPONSOR_POOL_LOW_WATER_MICRO_USDC" 20_000_000) _ g12 in
      let (refill, h14, g14) =
        bind-eq-ok (env_u64 e "SPONSOR_POOL_REFILL_MICRO_USDC" 100_000_000) _ g13 in
      let (interval, h15, g15) =
        bind-eq-ok (env_u64 e "SPONSOR_POOL_WATCH_INTERVAL_SECS" 3600) _ g14 in
      let (secret, h16, g16) = bind-eq-ok (env_var e "SPONSOR_TURNSTILE_SECRET") _ g15 in
      let (sitekey, h17, g17) = bind-eq-ok (env_var e "SPONSOR_TURNSTILE_SITEKEY") _ g16 in
      let (decdn, h18, g18) =
        bind-eq-ok (pin_from_env e "SPONSOR_DECDN_RELEASE" "SPONSOR_DECDN_SUMS_SHA256") _ g17 in
      let (wrapper, h19, g19) =
        bind-eq-ok (pin_from_env e "SPONSOR_WRAPPER_RELEASE" "SPONSOR_WRAPPER_SUMS_SHA256") _ g18 in
      subst (Reads e) (ok-injective g19) (record {
        bind = h1;
        public_url = env_or-ReadsOr e "SPONSOR_PUBLIC_URL" "https://up.decdn.org";
        rpc_url = env_var-eq-ok e _ rpc h2;
        chain_id = env_u64-ReadsU64 e _ _ chain h3;
        payment_pool = (pool_t, env_var-eq-ok e _ pool_t h4, h5);
        pool_id = (id_t, env_var-eq-ok e _ id_t h6, h7);
        capacity_bond = (bond_t, env_var-eq-ok e _ bond_t h8, h9);
        treasury_keystore = env_var-eq-ok e _ keystore h10;
        capability_cap = env_u64-ReadsU64 e _ _ spending h11;
        capability_ttl_secs = env_u64-ReadsU64 e _ _ ttl h12;
        pool_low_water = env_u64-ReadsU64 e _ _ low h13;
        pool_refill = env_u64-ReadsU64 e _ _ refill h14;
        pool_watch_interval_secs = env_u64-ReadsU64 e _ _ interval h15;
        turnstile_secret = env_var-eq-ok e _ secret h16;
        turnstile_sitekey = env_var-eq-ok e _ sitekey h17;
        data_dir = env_or-ReadsOr e "SPONSOR_DATA_DIR" "./data";
        decdn_release = pin_from_env-ReadsPin e _ _ decdn h18;
        wrapper_release = pin_from_env-ReadsPin e _ _ wrapper h19;
      })
