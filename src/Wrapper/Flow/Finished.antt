-- ===== src/Wrapper/Flow/Finished.antt =====
-- A pull that succeeds: what `decdn` ran with, and that nothing of the session is left.
use sponsor.Common.{ℕ, ◌≡◌, ◌≢◌, refl, sym, ap, subst, Bool, true, false, List}
use sponsor.Common.Result.{Result, ok}
use sponsor.Common.Action.{Action, ◌>>=◌, lift, Ends, Ends-then, Ends-map, Ends-bind}
use sponsor.Common.Text.{Text, lit}
use sponsor.Common.Text.Split.{strip_prefix}
use sponsor.Crates.{Crates}
use sponsor.Server.Http.{SystemTime}
use sponsor.Wrapper.Keystore.{starts_with}
use sponsor.Wrapper.Files.{Disk}
use sponsor.Wrapper.Session.{normalize_hash}
use sponsor.Wrapper.Session.Identity.{Identity}
use sponsor.Wrapper.Session.State.{
  Session, keystore_path, capability_path, capability, discard, open_session,
}
use sponsor.Wrapper.Session.Writes.{Others}
use sponsor.Wrapper.Session.Reads.{
  IsClear, Found, session_of, capability-Ends, discard-Ends, open_session-Ends, below-capability,
  join-ne_dir,
}
use sponsor.Wrapper.Session.Pairing.{IsPaired, IsPaired-of_entry, IsPaired-of_none}
use sponsor.Wrapper.Api.{Net}
use sponsor.Wrapper.Config.{WrapperConfig}
use sponsor.Wrapper.Flow.{
  Machine, on_disk, lapsed, renewed, live_session, acquire, pull_args, run_pull, finish, launch,
  pull, unix_seconds,
}
use sponsor.Wrapper.Flow.Lift.{on_disk-Ends}
use sponsor.Wrapper.Flow.Gateway.{IsHonest}
use sponsor.Wrapper.Flow.Paired.{Holding, acquire-Holding}

module _ (crates : Crates) (identity : Identity crates) where
  module _ (root hash : Text) where
    abbrev s : Session
    s = session_of root hash

    abbrev dir : Text
    dir = s.dir

    capability-ne-dir : capability_path s ≢ dir
    unfolding starts_with strip_prefix
    capability-ne-dir = join-ne_dir dir (lit "capability") refl (λ e. cc)

    abbrev Opened : Session → Disk → Type 0
    Opened s' d = (s' ≡ s) × IsPaired crates identity s d

    opened-IsPaired :
        (d d' : Disk)
        → Others dir d d'
        → IsPaired crates identity s d
        → IsPaired crates identity s d'
    opened-IsPaired d d' rest p =
        IsPaired-of_entry crates identity s {d = d} {d' = d'}
          (rest (keystore_path crates identity s) (identity.keystore-ne-dir dir))
          (rest (capability_path s) capability-ne-dir) p

    renewed-IsPaired :
        (b : Bool) (d : Disk)
        → IsPaired crates identity s d
        → Ends Opened (λ d'. Unit {0}) (renewed crates identity root hash s b d)
    renewed-IsPaired false d p = (refl, p)
    renewed-IsPaired true d p =
        Ends-then (λ (u : Unit {0}) d1. IsClear dir d1) _ _ (discard s)
          (λ u. open_session root hash) d (discard-Ends s d)
          (λ u d1 clear.
            Ends-map _ _ _ _ (open_session root hash d1)
              (λ s' d2 (same, rest). (
                same,
                opened-IsPaired d1 d2 rest (
                    IsPaired-of_none crates identity s {d = d1}
                      (clear (capability_path s) (below-capability s))),
              ))
              (λ d2 h. tt) (open_session-Ends root hash d1))

    -- The check of the expiry, from the time on.
    abbrev checked : SystemTime → Session → Action Disk Session
    checked time s' = do
      now ← lift (unix_seconds time)
      held ← capability crates identity s'
      renewed crates identity root hash s' (lapsed crates identity now held)

    checked-IsPaired :
        (time : SystemTime) (d : Disk)
        → IsPaired crates identity s d
        → Ends Opened (λ d'. Unit {0}) (checked time s d)
    checked-IsPaired time d p =
        Ends-bind Opened (λ d'. Unit {0}) (lift (unix_seconds time)) _ d
          (λ now q.
            Ends-then (Found crates identity s d) Opened (λ d'. Unit {0})
              (capability crates identity s)
              (λ held. renewed crates identity root hash s (lapsed crates identity now held)) d
              (Ends-map _ _ _ _ (capability crates identity s d) (λ o d1 h. h) (λ d1 h. tt)
                (capability-Ends crates identity s d))
              (λ held d1 (same, rest).
                renewed-IsPaired (lapsed crates identity now held) d1
                  (opened-IsPaired d d1 (λ q n. ap (λ f. f q) same) p)))
          (λ e q. tt)

    pub live_session-IsPaired :
        (time : SystemTime) (d : Disk)
        → IsPaired crates identity s d
        → Ends Opened (λ d'. Unit {0}) (live_session crates identity root hash time d)
    unfolding live_session
    live_session-IsPaired time d p =
        Ends-then Opened Opened (λ d'. Unit {0}) (open_session root hash) _ d
          (Ends-map _ _ _ _ (open_session root hash d)
            (λ s' d1 (same, rest). (same, opened-IsPaired d d1 rest p)) (λ d1 h. tt)
            (open_session-Ends root hash d))
          (λ s' d1 (same, p1).
            subst (λ s''. Ends Opened (λ d'. Unit {0}) (checked time s'' d1)) (sym same)
              (checked-IsPaired time d1 p1))

  module _ {World : Type 0} (net : Net World) (cfg : WrapperConfig crates)
      (spawn : Text → List Text → Action (Machine World) Bool) where
    -- A successful end: `decdn` succeeded, started with the key and a capability for it, and
    -- then the session's directory was removed.
    pub record Finished (hash output : Text) (m' : Machine World) : Type 0 where
      pub hex : Text
      pub normal : normalize_hash hash ≡ ok hex
      pub client : crates.Address
      pub start : Machine World
      pub done : Machine World
      pub holding : Holding crates identity net cfg (session_of cfg.data_dir hex) client start.disk
      pub ran :
          run_pull crates identity net cfg spawn cfg.decdn_bin
            (pull_args crates identity net cfg hex output (session_of cfg.data_dir hex))
            start
          ≡ (ok true, done)
      pub clear : IsClear (session_of cfg.data_dir hex).dir m'.disk
      pub world_is : m'.world ≡ done.world

    finish-Finished :
        (hash output hex : Text) (normal : normalize_hash hash ≡ ok hex) (client : crates.Address)
        (start m1 : Machine World) (b : Bool)
        → Holding crates identity net cfg (session_of cfg.data_dir hex) client start.disk
        → run_pull crates identity net cfg spawn cfg.decdn_bin
            (pull_args crates identity net cfg hex output (session_of cfg.data_dir hex))
            start
          ≡ (ok b, m1)
        → Ends
            (λ (u : Unit {0}) m'. Finished hash output m')
            (λ (m' : Machine World). Unit {0})
            (finish crates identity net cfg spawn (session_of cfg.data_dir hex) b m1)
    finish-Finished hash output hex normal client start m1 false h ran = tt
    finish-Finished hash output hex normal client start m1 true h ran =
        Ends-map _ _ _ _ (on_disk (discard (session_of cfg.data_dir hex)) m1)
          (λ u m2 (clear, still). record {
            hex = hex;
            normal = normal;
            client = client;
            start = start;
            done = m1;
            holding = h;
            ran = ran;
            clear = clear;
            world_is = still;
          })
          (λ m2 h. tt)
          (on_disk-Ends _ _ (discard (session_of cfg.data_dir hex)) m1
            (discard-Ends (session_of cfg.data_dir hex) m1.disk))

    -- What follows the session's opening.
    abbrev rest_of : Result (List ℕ) → Text → Text → Session → Action (Machine World) (Unit {0})
    rest_of filled hex output s = do
      client ← acquire crates identity net cfg filled s
      launch crates identity net cfg spawn hex output s

    rest-Finished :
        IsHonest crates identity net cfg
        → (filled : Result (List ℕ)) (hash output hex : Text)
          (normal : normalize_hash hash ≡ ok hex) (m : Machine World)
        → IsPaired crates identity (session_of cfg.data_dir hex) m.disk
        → Ends
            (λ (u : Unit {0}) m'. Finished hash output m')
            (λ (m' : Machine World). Unit {0})
            (rest_of filled hex output (session_of cfg.data_dir hex) m)
    unfolding launch
    rest-Finished honest filled hash output hex normal m p =
        let s = session_of cfg.data_dir hex in
        Ends-then (λ client (m1 : Machine World). Holding crates identity net cfg s client m1.disk)
          _ _ (acquire crates identity net cfg filled s)
          (λ client. launch crates identity net cfg spawn hex output s) m
          (acquire-Holding crates identity net cfg s honest filled m p)
          (λ client m1 h.
            let x =
              run_pull crates identity net cfg spawn cfg.decdn_bin
                (pull_args crates identity net cfg hex output s) m1 in
            Ends-bind _ _
              (run_pull crates identity net cfg spawn cfg.decdn_bin
                (pull_args crates identity net cfg hex output s))
              _ m1
              (λ b q.
                finish-Finished hash output hex normal client m1 x.1 b h
                  (ap (λ (r : Result Bool). (r, x.1)) q))
              (λ e q. tt))

    -- When the gateway answers each client with tokens for that client only, and every capability
    -- saved in the directory of the download belongs to the key saved there, a pull that succeeds
    -- has run `decdn` to success, on the arguments for this directory, from a state that held a
    -- key and a capability for this key, and has then left nothing at or below the directory; this
    -- for every way in which file calls may fail.
    pub pull-Finished :
        IsHonest crates identity net cfg
        → (filled : Result (List ℕ)) (time : SystemTime) (hash output : Text) (m : Machine World)
        → ((hex : Text)
            → normalize_hash hash ≡ ok hex
            → IsPaired crates identity (session_of cfg.data_dir hex) m.disk)
        → Ends
            (λ (u : Unit {0}) m'. Finished hash output m')
            (λ (m' : Machine World). Unit {0})
            (pull crates identity net cfg spawn filled time hash output m)
    unfolding pull
    pull-Finished honest filled time hash output m p =
        Ends-bind _ _ (lift (normalize_hash hash)) _ m
          (λ hex normal.
            let s = session_of cfg.data_dir hex in
            Ends-then
              (λ s' (m1 : Machine World). Opened cfg.data_dir hex s' m1.disk × (m1.world ≡ m.world))
              _ _ (on_disk (live_session crates identity cfg.data_dir hex time)) _ m
              (on_disk-Ends _ _ (live_session crates identity cfg.data_dir hex time) m
                (live_session-IsPaired cfg.data_dir hex time m.disk (p hex normal)))
              (λ s' m1 ((same, paired), still).
                subst
                  (λ s''.
                    Ends (λ (u : Unit {0}) m'. Finished hash output m')
                      (λ (m' : Machine World). Unit {0}) (rest_of filled hex output s'' m1))
                  (sym same) (rest-Finished honest filled hash output hex normal m1 paired)))
          (λ e q. tt)
