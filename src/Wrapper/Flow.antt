-- ===== src/Wrapper/Flow.antt =====
-- crates/wrapper/src/flow.rs, `run_pull` of runner.rs, and `main`: a download from the hash to the
-- end of `decdn`.
pub mod Lift
pub mod Gateway
pub mod Paired
pub mod Finished
pub mod Stale
pub mod Resume
pub mod Complete
use sponsor.Common.{ℕ, Bool, true, false, Option, none, some, leb, List}
use sponsor.Common.Result.{Result, ok, err}
use sponsor.Common.Action.{Action, ◌>>=◌, ◌>>◌, lift, pure, fail}
use sponsor.Common.Words.{saturating_add}
use sponsor.Common.Text.{Text, lit}
use sponsor.Crates.{Crates}
use sponsor.Server.Http.{SystemTime, before_epoch, since_epoch}
use sponsor.Wrapper.Files.{Disk}
use sponsor.Wrapper.Session.{normalize_hash}
use sponsor.Wrapper.Session.Identity.{Identity}
use sponsor.Wrapper.Session.State.{
  Session, password_path, capability_path, keystore_path, open_session, capability, discard,
  ensure_key, save_capability,
}
use sponsor.Wrapper.Runner.{PullArgs, to_args}
use sponsor.Wrapper.Api.{Net, CapabilityInfo, get_capability, poll_capability, fund_url}
use sponsor.Wrapper.Browser.{prompt}
use sponsor.Wrapper.Config.{WrapperConfig}

-- `SystemTime::now().duration_since(UNIX_EPOCH)?.as_secs()`
abbrev pub unix_seconds : SystemTime → Result ℕ
unix_seconds before_epoch = err "second time provided was later than self"
unix_seconds (since_epoch seconds nanos) = ok seconds

-- EXPIRY_MARGIN_SECS
abbrev pub expiry_margin_secs : ℕ
expiry_margin_secs = 300

-- CAPABILITY_POLL_TIMEOUT, in nanoseconds
abbrev pub capability_poll_timeout : ℕ
capability_poll_timeout = 600_000_000_000

-- The disk, and the rest of what a pull acts on: the gateway, the clock and the chain.
pub record Machine (World : Type 0) : Type 0 where
  pub disk : Disk
  pub world : World

module _ {World A : Type 0} where
  abbrev pub on_disk : Action Disk A → Action (Machine World) A
  on_disk act m = let (r, d) = act m.disk in (r, record { disk = d; world = m.world })

  abbrev pub on_world : Action World A → Action (Machine World) A
  on_world act m = let (r, w) = act m.world in (r, record { disk = m.disk; world = w })

  -- A loop on fuel that ended; the fuel of poll_capability does not run out.
  abbrev pub settled : Option (Result A) × World → Result A × World
  settled (some r, w) = (r, w)
  settled (none, w) = (err "out of fuel", w)

module _ (crates : Crates) (identity : Identity crates) where
  open crates use {Address, Grant, grants, show_address}

  -- `is_some_and(|grant| grant.expiry <= now.saturating_add(EXPIRY_MARGIN_SECS))`
  abbrev pub lapsed : ℕ → Option Grant → Bool
  lapsed now none = false
  lapsed now (some g) = leb (grants g).expiry (saturating_add now expiry_margin_secs)

  abbrev pub renewed : Text → Text → Session → Bool → Action Disk Session
  renewed root hash session false = pure session
  renewed root hash session true = do discard session; open_session root hash

  -- From `Session::open` to the expiry check.
  unfoldable pub live_session : Text → Text → SystemTime → Action Disk Session
  live_session root hash time = do
    session ← open_session root hash
    now ← lift (unix_seconds time)
    held ← capability crates identity session
    renewed root hash session (lapsed now held)

  module _ {World : Type 0} (net : Net World) (cfg : WrapperConfig crates) where
    abbrev pub prompted : Address → World → World
    prompted client = prompt net.console (fund_url crates net cfg.gateway_base client)

    abbrev pub or_poll : Address → Option CapabilityInfo → Action World CapabilityInfo
    or_poll client (some info) = pure info
    or_poll client none = λ w. settled (
        poll_capability crates net cfg.gateway_base client capability_poll_timeout
          (prompted client w))

    -- The capability that the gateway has, or has once the captcha is solved.
    unfoldable pub obtain : Address → Action World CapabilityInfo
    obtain client = do
      found ← get_capability crates net cfg.gateway_base client
      or_poll client found

    abbrev pub fetch_if_none : Session → Address → Option Grant → Action (Machine World) (Unit {0})
    fetch_if_none session client (some g) = pure tt
    fetch_if_none session client none = do
      info ← on_world (obtain client)
      on_disk (save_capability session info.token)

    -- The key, and a capability for it.
    unfoldable pub acquire : Result (List ℕ) → Session → Action (Machine World) Address
    acquire filled session = do
      client ← on_disk (ensure_key crates identity filled session)
      held ← on_disk (capability crates identity session)
      fetch_if_none session client held
      pure client

    -- `Option::map(|a| a.to_string())`
    abbrev pub shown : Option Address → Option Text
    shown none = none
    shown (some a) = some (show_address a)

    unfoldable pub pull_args : Text → Text → Session → PullArgs
    pull_args hash output session = record {
      hash = hash;
      output = output;
      capability_file = capability_path session;
      keystore = keystore_path crates identity session;
      password_file = password_path session;
      data_dir = session.dir;
      rpc_url = cfg.rpc_url;
      payment_pool_address = show_address cfg.payment_pool;
      capacity_bond_address = shown cfg.capacity_bond;
      slash_judge_address = shown cfg.slash_judge;
      chain_id = cfg.chain_id;
    }

    -- `spawn` runs a program, without the variable DECDN_KEYSTORE_PASSWORD, to its end, and says
    -- whether its status is success.
    module _ (spawn : Text → List Text → Action (Machine World) Bool) where
      -- runner::run_pull
      unfoldable pub run_pull : Text → PullArgs → Action (Machine World) Bool
      run_pull decdn_bin args = spawn decdn_bin (to_args args)

      abbrev pub finish : Session → Bool → Action (Machine World) (Unit {0})
      finish session true = on_disk (discard session)
      finish session false = fail "download did not finish"

      -- From the arguments on.
      unfoldable pub launch : Text → Text → Session → Action (Machine World) (Unit {0})
      unfolding pull_args run_pull
      launch hash output session = do
        success ← run_pull cfg.decdn_bin (pull_args hash output session)
        finish session success

      -- flow::pull. `filled` is what `getrandom::fill` leaves, if a key has to be generated.
      unfoldable pub pull :
          Result (List ℕ) → SystemTime → Text → Text → Action (Machine World) (Unit {0})
      unfolding launch
      pull filled time hash output = do
        hex ← lift (normalize_hash hash)
        session ← on_disk (live_session cfg.data_dir hex time)
        client ← acquire filled session
        launch hex output session
