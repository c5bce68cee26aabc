-- ===== src/Wrapper/Flow/Complete.antt =====
-- A first pull with calls that work: it ends in success.
use sponsor.Common.{
  ℕ, [], ◌∷◌, Option, String, take, drop, some, ◌+◌, ◌++◌, ◌≡◌, refl, sym, subst, ◌∙◌, Bool, true,
  false, none, List,
}
use sponsor.Common.Result.{Result, ok, err}
use sponsor.Common.Action.{Action, ◌>>=◌, pure, Ends-then, Ends-map, Succeeds, Succeeds-and}
use sponsor.Common.Text.{Text, lit}
use sponsor.Crates.{Crates}
use sponsor.Server.Http.{since_epoch}
use sponsor.Wrapper.Files.{Disk}
use sponsor.Wrapper.Session.{normalize_hash}
use sponsor.Wrapper.Session.Identity.{Identity}
use sponsor.Wrapper.Session.State.{
  Session, password_path, capability_path, keystore_path, open_session, capability, discard,
  ensure_key, save_capability,
}
use sponsor.Wrapper.Session.Writes.{Others}
use sponsor.Wrapper.Session.Reads.{session_of, IsClear}
use sponsor.Wrapper.Session.Pairing.{IsPaired-of_none}
use sponsor.Wrapper.Session.Fresh.{
  Calm, Ready, IsEmpty, Generates, Unclaimed, open_session-Ready, discard-Succeeds,
  ensure_key-Unclaimed, capability-none, save_capability-Ready, dir-ne-password, dir-ne-capability,
}
use sponsor.Wrapper.Api.{Net, CapabilityInfo, fund_url}
use sponsor.Wrapper.Api.Found.{request, Waits, after, poll_capability-found}
use sponsor.Wrapper.Browser.{open_in_browser, prompt}
use sponsor.Wrapper.Config.{WrapperConfig}
use sponsor.Wrapper.Runner.{to_args}
use sponsor.Wrapper.Runner.Flags.{value_of, to_args-IsRead}
use sponsor.Common.Text.Number.{show_u64}
use sponsor.Wrapper.Main.{success, exit_code, main}
use sponsor.Wrapper.Flow.{
  Machine, on_disk, on_world, lapsed, renewed, live_session, obtain, fetch_if_none, acquire,
  pull_args, run_pull, finish, launch, pull,
}
use sponsor.Wrapper.Flow.Lift.{on_disk-Succeeds, on_world-Succeeds}
use sponsor.Wrapper.Flow.Gateway.{IsHonest}
use sponsor.Wrapper.Flow.Paired.{Holding, acquire-Holding}

module _ (crates : Crates) (identity : Identity crates) where
  open crates use {Address, Grant, show_address}

  -- No entry for the directory of the session, nor for a file of it.
  pub record IsAbsent (s : Session) (d : Disk) : Type 0 where
    pub calm : Calm d
    pub no_dir : d.entry s.dir ≡ none
    pub no_key : d.entry (keystore_path crates identity s) ≡ none
    pub no_password : d.entry (password_path s) ≡ none
    pub no_capability : d.entry (capability_path s) ≡ none

  live_session-IsEmpty :
      (root hex : Text) (seconds nanos : ℕ) (d : Disk)
      → IsAbsent (session_of root hex) d
      → Succeeds
          (λ s' d'. (s' ≡ session_of root hex) × IsEmpty crates identity (session_of root hex) d')
          (live_session crates identity root hex (since_epoch seconds nanos) d)
  unfolding live_session
  live_session-IsEmpty root hex seconds nanos d a =
      let s = session_of root hex in
      Ends-then (λ s' d1. (s' ≡ s) × Ready s.dir d1 × Others s.dir d d1) _ _ (open_session root hex)
        _ d (open_session-Ready root hex d a.calm a.no_dir)
        (λ s' d1 (same, ready, rest).
          let e : IsEmpty crates identity s d1 = record {
            ready = ready;
            no_key =
                rest (keystore_path crates identity s) (identity.keystore-ne-dir s.dir) ∙ a.no_key;
            no_password =
                rest (password_path s) (λ q. dir-ne-password crates identity s (sym q))
                ∙ a.no_password;
            no_capability =
                rest (capability_path s) (λ q. dir-ne-capability crates identity s (sym q))
                ∙ a.no_capability;
          } in
          subst
            (λ s''. Succeeds (λ s3 d'. (s3 ≡ s) × IsEmpty crates identity s d') (checked s'' d1))
            (sym same) (rw (capability-none crates identity s d1 e.no_capability) (refl, e)))
    where
      checked : Session → Action Disk Session
      checked s' = do
        held ← capability crates identity s'
        renewed crates identity root hex s' (lapsed crates identity seconds held)

  module _ {World : Type 0} (net : Net World) (cfg : WrapperConfig crates) (s : Session) where
    -- The link, printed for the client, and handed to the browser.
    abbrev pub shown_link : Address → World → World
    shown_link client w =
        let link = cfg.gateway_base ++ (lit "/fund?client=" ++ show_address client) in
        open_in_browser net.console link
          (net.console.println (lit "Solve the captcha to start the download:\n  " ++ link) w)

    -- The world after a request, when the link is shown.
    abbrev pub told : Address → World → World
    told client w = shown_link client (request crates net cfg.gateway_base client w).1

    -- The gateway has a capability for the client, or, once the link is shown, the first k requests
    -- still find none, in time, and the next one finds one.
    pub data Grants (client : Address) (w : World) : Type 0 where
      at_once :
          (info : CapabilityInfo)
          → (request crates net cfg.gateway_base client w).0 ≡ ok (some info)
          → Grants client w
      in_time :
          (k : ℕ) (info : CapabilityInfo)
          → (request crates net cfg.gateway_base client w).0 ≡ ok none
          → Waits crates net cfg.gateway_base client
              (net.instant (told client w) + 600_000_000_000)
              k
              (told client w)
          → (request crates net cfg.gateway_base client
              (after crates net cfg.gateway_base client k (told client w))).0
            ≡ ok (some info)
          → Grants client w

    abbrev pub Provides : World → Type 0
    Provides w = (client : Address) → Grants client w

    obtain-Succeeds :
        (client : Address) (w : World)
        → Grants client w
        → Succeeds
            (λ (info : CapabilityInfo) w'. Unit {0})
            (obtain crates identity net cfg client w)
    unfolding obtain prompt fund_url
    obtain-Succeeds client w (at_once info found) = rw found tt
    obtain-Succeeds client w (in_time k info none_yet waits found) = rw none_yet (
        rw
          (poll_capability-found crates net cfg.gateway_base client 600_000_000_000 k _ info waits
            found)
          tt)

    fetch-Ready :
        (client : Address) (m : Machine World)
        → Provides m.world
        → Unclaimed crates identity s m.disk
        → Succeeds
            (λ (u : Unit {0}) (m' : Machine World). Ready s.dir m'.disk)
            (fetch_if_none crates identity net cfg s client none m)
    fetch-Ready client m provides h =
        Ends-then (λ (info : CapabilityInfo) (m1 : Machine World). Unit {0} × (m1.disk ≡ m.disk)) _
          _ (on_world (obtain crates identity net cfg client))
          (λ info. on_disk (save_capability s info.token)) m
          (on_world-Succeeds _ (obtain crates identity net cfg client) m
            (obtain-Succeeds client m.world (provides client)))
          (λ info m1 (_, same).
            Ends-map _ _ _ _ (on_disk (save_capability s info.token) m1) (λ u m2 both. both.0)
              (λ m2 x. x)
              (on_disk-Succeeds _ (save_capability s info.token) m1 (
                save_capability-Ready crates identity s info.token m1.disk
                  (subst (Unclaimed crates identity s) (sym same) h))))

    pub acquire-Ready :
        (secret : List ℕ) (m : Machine World)
        → Generates crates identity s secret
        → Provides m.world
        → IsEmpty crates identity s m.disk
        → Succeeds
            (λ (client : Address) (m' : Machine World). Ready s.dir m'.disk)
            (acquire crates identity net cfg (ok secret) s m)
    unfolding acquire
    acquire-Ready secret m works provides e =
        Ends-then
          (λ (client : Address) (m1 : Machine World).
            Unclaimed crates identity s m1.disk × (m1.world ≡ m.world))
          _ _ (on_disk (ensure_key crates identity (ok secret) s)) _ m
          (on_disk-Succeeds _ (ensure_key crates identity (ok secret) s) m
            (ensure_key-Unclaimed crates identity s secret m.disk works e))
          (λ client m1 (h, still). rw (capability-none crates identity s m1.disk h.1) (
            Ends-then (λ (u : Unit {0}) (m2 : Machine World). Ready s.dir m2.disk) _ _
              (fetch_if_none crates identity net cfg s client none) (λ u. pure client) m1
              (fetch-Ready client m1 (subst Provides (sym still) provides) h) (λ u m2 r. r)))

  module _ {World : Type 0} (net : Net World) (cfg : WrapperConfig crates)
      (spawn : Text → List Text → Action (Machine World) Bool) where
    abbrev flag : String → List Text → Option Text
    flag name args = value_of (lit name) (drop 2 args)

    -- A command line that asks `decdn` for the bundle, with the files of the session.
    pub record IsAsked (hex output : Text) (args : List Text) : Type 0 where
      pub verb : take 2 args ≡ lit "bundle" ∷ lit "pull" ∷ []
      pub hash : flag "--hash" args ≡ some hex
      pub written_to : flag "-o" args ≡ some output
      pub capability_file :
          flag "--capability-file" args ≡ some (capability_path (session_of cfg.data_dir hex))
      pub keystore :
          flag "--keystore" args
          ≡ some (keystore_path crates identity (session_of cfg.data_dir hex))
      pub password_file :
          flag "--keystore-password-file" args ≡ some (password_path (session_of cfg.data_dir hex))
      pub data_dir : flag "--data-dir" args ≡ some (session_of cfg.data_dir hex).dir
      pub rpc_url : flag "--rpc-url" args ≡ some cfg.rpc_url
      pub payment_pool : flag "--payment-pool-address" args ≡ some (show_address cfg.payment_pool)
      pub chain_id : flag "--chain-id" args ≡ some (show_u64 cfg.chain_id)

    pull_args-IsAsked :
        (hex output : Text)
        → IsAsked hex output
            (to_args (pull_args crates identity net cfg hex output (session_of cfg.data_dir hex)))
    unfolding pull_args to_args
    pull_args-IsAsked hex output =
        let read =
          to_args-IsRead
            (pull_args crates identity net cfg hex output (session_of cfg.data_dir hex)) in
        record {
          verb = refl;
          hash = read.hash;
          written_to = read.output;
          capability_file = read.capability_file;
          keystore = read.keystore;
          password_file = read.password_file;
          data_dir = read.data_dir;
          rpc_url = read.rpc_url;
          payment_pool = read.payment_pool;
          chain_id = read.chain_id;
        }

    -- `decdn` succeeds where it is asked for the bundle with a key and a capability for it, and
    -- breaks nothing.
    abbrev pub Runs : Text → Text → Type 0
    Runs hex output =
        (client : Address) (start : Machine World) (args : List Text)
        → IsAsked hex output args
        → Holding crates identity net cfg (session_of cfg.data_dir hex) client start.disk
        → Ready (session_of cfg.data_dir hex).dir start.disk
        → Succeeds
            (λ b (m' : Machine World). (b ≡ true) × Ready (session_of cfg.data_dir hex).dir m'.disk)
            (spawn cfg.decdn_bin args start)

    abbrev Clear : Text → Unit {0} → Machine World → Type 0
    Clear hex u m' = IsClear (session_of cfg.data_dir hex).dir m'.disk

    finish-Clear :
        (hex : Text) (b : Bool) (m : Machine World)
        → b ≡ true
        → Ready (session_of cfg.data_dir hex).dir m.disk
        → Succeeds
            (Clear hex)
            (finish crates identity net cfg spawn (session_of cfg.data_dir hex) b m)
    finish-Clear hex false m e r = absurd (cc)
    finish-Clear hex true m e r =
        Ends-map _ _ _ _ (on_disk (discard (session_of cfg.data_dir hex)) m) (λ u m' both. both.0)
          (λ m' x. x)
          (on_disk-Succeeds _ (discard (session_of cfg.data_dir hex)) m
            (discard-Succeeds (session_of cfg.data_dir hex) m.disk r))

    launch-Clear :
        (hex output : Text) (client : Address) (m : Machine World)
        → Runs hex output
        → Holding crates identity net cfg (session_of cfg.data_dir hex) client m.disk
        → Ready (session_of cfg.data_dir hex).dir m.disk
        → Succeeds
            (Clear hex)
            (launch crates identity net cfg spawn hex output (session_of cfg.data_dir hex) m)
    unfolding launch run_pull
    launch-Clear hex output client m runs h r =
        Ends-then
          (λ b (m' : Machine World). (b ≡ true) × Ready (session_of cfg.data_dir hex).dir m'.disk) _
          _
          (run_pull crates identity net cfg spawn cfg.decdn_bin
            (pull_args crates identity net cfg hex output (session_of cfg.data_dir hex)))
          (finish crates identity net cfg spawn (session_of cfg.data_dir hex)) m
          (runs client m _ (pull_args-IsAsked hex output) h r)
          (λ b m' (done, ready). finish-Clear hex b m' done ready)

    pull-Clear :
        IsHonest crates identity net cfg
        → (secret : List ℕ) (seconds nanos : ℕ) (hash hex output : Text) (m : Machine World)
        → normalize_hash hash ≡ ok hex
        → IsAbsent (session_of cfg.data_dir hex) m.disk
        → Generates crates identity (session_of cfg.data_dir hex) secret
        → Provides net cfg (session_of cfg.data_dir hex) m.world
        → Runs hex output
        → Succeeds (Clear hex) (
            pull crates identity net cfg spawn
              (ok secret)
              (since_epoch seconds nanos)
              hash
              output
              m)
    unfolding pull
    pull-Clear honest secret seconds nanos hash hex output m normal absent works provides runs =
        let s = session_of cfg.data_dir hex in
        rw normal (
          Ends-then
            (λ s' (m1 : Machine World).
              ((s' ≡ s) × IsEmpty crates identity s m1.disk) × (m1.world ≡ m.world))
            _ _
            (on_disk (live_session crates identity cfg.data_dir hex (since_epoch seconds nanos))) _
            m
            (on_disk-Succeeds _
              (live_session crates identity cfg.data_dir hex (since_epoch seconds nanos)) m
              (live_session-IsEmpty cfg.data_dir hex seconds nanos m.disk absent))
            (λ s' m1 ((same, e), still).
              subst (λ s''. Succeeds (Clear hex) (rest_from s'' m1)) (sym same)
                (Ends-then
                  (λ client (m2 : Machine World).
                    Ready s.dir m2.disk × Holding crates identity net cfg s client m2.disk)
                  _ _ (acquire crates identity net cfg (ok secret) s)
                  (λ client. launch crates identity net cfg spawn hex output s) m1
                  (Succeeds-and _ _ _ (acquire crates identity net cfg (ok secret) s m1)
                    (acquire-Ready net cfg s secret m1 works
                      (subst (Provides net cfg s) (sym still) provides) e)
                    (acquire-Holding crates identity net cfg s honest (ok secret) m1
                      (IsPaired-of_none crates identity s {d = m1.disk} e.no_capability)))
                  (λ client m2 (r, h). launch-Clear hex output client m2 runs h r))))
      where
        rest_from : Session → Machine World → Result (Unit {0}) × Machine World
        rest_from s' m1 =
            (acquire crates identity net cfg (ok secret) s'
                >>= (λ client. launch crates identity net cfg spawn hex output s'))
              m1

    -- For a hash that `normalize_hash` accepts, on a disk that has no entry for its directory nor
    -- for the key, password and capability in it, where no file call breaks, a key can be
    -- generated, the gateway answers each client with a capability, or with none until, once the
    -- link for this client is shown, one of the requests that a time-out of 600 seconds and sleeps
    -- of 2 seconds leave room for finds one, its tokens are for the client only, and `decdn`
    -- succeeds where it is asked for the bundle, with the files of the session as arguments, and
    -- these hold a key and a capability for it, and breaks nothing, the wrapper exits with success
    -- and leaves nothing at or below the directory.
    pub main-success :
        IsHonest crates identity net cfg
        → (secret : List ℕ) (seconds nanos : ℕ) (hash hex output : Text) (m : Machine World)
        → normalize_hash hash ≡ ok hex
        → IsAbsent (session_of cfg.data_dir hex) m.disk
        → Generates crates identity (session_of cfg.data_dir hex) secret
        → Provides net cfg (session_of cfg.data_dir hex) m.world
        → Runs hex output
        → ((main
              (ok cfg)
              (λ h o (config : WrapperConfig crates).
                pull crates identity net config spawn (ok secret) (since_epoch seconds nanos) h o)
              hash
              output
              m).0
            ≡ success)
          × IsClear
              (session_of cfg.data_dir hex).dir
              (main
                (ok cfg)
                (λ h o (config : WrapperConfig crates).
                  pull crates identity net config spawn (ok secret) (since_epoch seconds nanos) h o)
                hash
                output
                m).1.disk
    unfolding main
    main-success honest secret seconds nanos hash hex output m normal absent works provides runs =
        exits _ _ (
          pull-Clear honest secret seconds nanos hash hex output m normal absent works provides
            runs)
      where
        exits :
            (r : Result (Unit {0})) (m' : Machine World)
            → Succeeds (Clear hex) (r, m')
            → (exit_code r ≡ success) × IsClear (session_of cfg.data_dir hex).dir m'.disk
        exits (ok u) m' h = (refl, h)
        exits (err e) m' h = absurd h
