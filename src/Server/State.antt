-- ===== src/Server/State.antt =====
-- crates/server/src/state.rs: `AppState`, and its assembly at boot.
pub mod Boot
pub mod Ready
use sponsor.Common.{ℕ, Bool, true, false, Option, none, some, ◌≡◌, String}
use sponsor.Common.Result.{Result, ok, err, ensure}
use sponsor.Common.Action.{Action, resume, ◌>>=◌, ◌>>◌, pure, lift}
use sponsor.Common.Text.{Text, lit}
use sponsor.Crates.{Crates}
use sponsor.Server.Issuer.{Issuer, owner_address}
use sponsor.Server.Captcha.{CaptchaVerifier, Post, new_turnstile, as_verifier}
use sponsor.Server.Config.{ServerConfig, Env, load_treasury_signer, build_issuer}
use sponsor.Server.Treasury.{Treasury, TreasuryConfig, Client, connect, as_treasury, pool_owner}
use sponsor.Server.Store.Redb.{Redb}
use sponsor.Server.Store.Table.{open_store}

-- A decision as a Boolean test.
abbrev pub holds {ℓ} : {P : Type ℓ} → Dec P → Bool
holds (yes p) = true
holds (no q) = false

module _ (crates : Crates) where
  open crates use {Address, B256, PrivateKey, address_discrete}

  -- Shared by every handler. The store's contents are the state that the handlers pass on.
  pub record AppState (Chain : Type 0) : Type 0 where
    pub treasury : Treasury crates Chain
    pub issuer : Issuer crates
    pub turnstile : CaptchaVerifier
    pub cfg : ServerConfig crates

  -- What `build` works on: the disk and the chain.
  pub record Host (Disk Chain : Type 0) : Type 0 where
    pub disk : Disk
    pub chain : Chain

  module _ {Disk Chain A : Type 0} where
    abbrev pub on_disk : Action Disk A → Action (Host Disk Chain) A
    on_disk m h = let (r, disk') = m h.disk in (r, record h { disk = disk' })

    abbrev pub on_chain : Action Chain A → Action (Host Disk Chain) A
    on_chain m h = let (r, chain') = m h.chain in (r, record h { chain = chain' })

  module _ (redb : Redb Address address_discrete) {Chain Provider : Type 0}
      (client : Client crates Chain Provider) (load_signer : Text → Text → Result PrivateKey)
      (http : Post) where
    -- ServerConfig::build_treasury
    unfoldable pub build_treasury :
        ServerConfig crates → PrivateKey → Action Chain (Treasury crates Chain)
    build_treasury cfg signer = do
      t ← connect crates client (record {
        rpc_url = cfg.rpc_url;
        payment_pool = cfg.payment_pool;
        chain_id = cfg.chain_id;
        signer = signer;
      })
      pure (as_treasury crates client t)

    -- build
    unfoldable pub build :
        Env → ServerConfig crates → Action (Host redb.Disk Chain) (AppState Chain × redb.Db)
    build e cfg = do
      store ← on_disk (open_store crates redb cfg.data_dir)
      let turnstile = as_verifier (new_turnstile cfg.turnstile_secret http)
      signer ← lift (load_treasury_signer crates load_signer e cfg)
      let issuer = build_issuer crates cfg signer
      treasury ← on_chain (build_treasury cfg signer)
      owner ← on_chain (treasury.pool_owner cfg.pool_id)
      lift (
          ensure (holds (address_discrete owner (owner_address crates issuer)))
            "pool not owned by the signing wallet")
      pure
          (record { treasury = treasury; issuer = issuer; turnstile = turnstile; cfg = cfg }, store)
