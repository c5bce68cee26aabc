-- ===== src/Wrapper/Flow/Resume.antt =====
-- A run that finds a usable key and a live capability starts `decdn` at once.
use sponsor.Common.{ℕ, ◌≡◌, ◌≢◌, ◌<◌, refl, ap, ◌∙◌, Bool, true, false, some, List, [], leb, arith}
use sponsor.Common.Result.{Result, ok}
use sponsor.Common.Action.{Action, lift, bind-ok}
use sponsor.Common.Words.{saturating_add}
use sponsor.Common.Text.{Text, lit}
use sponsor.Common.Text.Split.{strip_prefix}
use sponsor.Crates.{Crates}
use sponsor.Server.Http.{since_epoch}
use sponsor.Wrapper.Keystore.{starts_with}
use sponsor.Wrapper.Files.{Disk, directory, Luck, works, first, later, spent, put, is_file}
use sponsor.Wrapper.Files.Laws.{put_other}
use sponsor.Wrapper.Session.{normalize_hash}
use sponsor.Wrapper.Session.Identity.{Identity}
use sponsor.Wrapper.Session.State.{
  Session, password_path, capability_path, ensure_key, capability, open_session,
}
use sponsor.Wrapper.Session.Reads.{session_of, join-ne_dir}
use sponsor.Wrapper.Session.Pairing.{HasKey, HasKey-of_entry, Carries, Carries-of_entry}
use sponsor.Wrapper.Session.Held.{capability_held, ensure_key_held, open_session_held}
use sponsor.Wrapper.Api.{Net}
use sponsor.Wrapper.Config.{WrapperConfig}
use sponsor.Wrapper.Flow.{
  Machine, on_disk, expiry_margin_secs, renewed, live_session, acquire, launch, pull,
}

leb_of_lt : (a b : ℕ) → b < a → leb a b ≡ false
leb_of_lt a b h = ground arith

module _ (crates : Crates) (identity : Identity crates) where
  open crates use {Address, Grant, grants}

  -- A session that an earlier run left: the key `a` with its password, and the capability `g`.
  pub record IsResumable (s : Session) (a : Address) (g : Grant) (d : Disk) : Type 0 where
    pub mode : ℕ
    pub there : d.entry s.dir ≡ some (directory mode)
    pub key_is : HasKey crates identity s d a
    pub usable : is_file (password_path s) d ≡ true
    pub carried : Carries crates identity s d g
    pub unbroken : d.lucks ≡ []

  module _ (root hex : Text) where
    abbrev s : Session
    s = session_of root hex

    -- The disk once the directory was opened again.
    abbrev tightened : Disk → Disk
    tightened d = put s.dir (some (directory 0o700)) (spent d)

    capability-ne-dir : capability_path s ≢ s.dir
    unfolding starts_with strip_prefix
    capability-ne-dir = join-ne_dir s.dir (lit "capability") refl (λ e. cc)

    password-ne-dir : password_path s ≢ s.dir
    unfolding starts_with strip_prefix
    password-ne-dir = join-ne_dir s.dir (lit "password") refl (λ e. cc)

    tightened_other : (d : Disk) (q : Text) → q ≢ s.dir → (tightened d).entry q ≡ d.entry q
    tightened_other d q n = put_other s.dir q (some (directory 0o700)) (spent d) n

    live_session_held :
        (now nanos : ℕ) (a : Address) (g : Grant) (d : Disk)
        → IsResumable s a g d
        → saturating_add now expiry_margin_secs < (grants g).expiry
        → live_session crates identity root hex (since_epoch now nanos) d
          ≡ (ok s, spent (tightened d))
    unfolding live_session
    live_session_held now nanos a g d r live =
        let c =
          Carries-of_entry crates identity s {d = d} {d' = tightened d}
            (tightened_other d _ capability-ne-dir) r.carried in
        let luck : first (tightened d).lucks ≡ works =
          ap (λ (l : List Luck). first (later (later l))) r.unbroken in
        bind-ok (open_session root hex) _ d (open_session_held root hex d r.mode r.unbroken r.there)
        ∙ bind-ok (capability crates identity s) _ (tightened d)
            (capability_held crates identity s (tightened d) g luck c)
        ∙ ap (λ b. renewed crates identity root hex s b (spent (tightened d))) (leb_of_lt _ _ live)

    is_file_other :
        (d d' : Disk) (path : Text)
        → d'.entry path ≡ d.entry path
        → is_file path d ≡ true
        → is_file path d' ≡ true
    unfolding is_file
    is_file_other d d' path same h = rw (same) h

  module _ (s : Session) {World : Type 0} (net : Net World) (cfg : WrapperConfig crates) where
    -- With no call that breaks, the saved key and capability are taken as they are.
    acquire_held :
        (filled : Result (List ℕ)) (m : Machine World) (a : Address) (g : Grant)
        → HasKey crates identity s m.disk a
        → is_file (password_path s) m.disk ≡ true
        → Carries crates identity s m.disk g
        → m.disk.lucks ≡ []
        → acquire crates identity net cfg filled s m
          ≡ (ok a, record { disk = spent (spent m.disk); world = m.world })
    unfolding acquire
    acquire_held filled m a g k usable c unbroken =
        bind-ok (on_disk (ensure_key crates identity filled s)) _ m (
          ap (λ x. (x.0, record { disk = x.1; world = m.world }))
            (ensure_key_held crates identity s filled m.disk a (ap first unbroken) k usable))
        ∙ bind-ok (on_disk (capability crates identity s)) _
            (record { disk = spent m.disk; world = m.world })
            (ap (λ x. (x.0, record { disk = x.1; world = m.world }))
              (capability_held crates identity s (spent m.disk) g
                (ap (λ (l : List Luck). first (later l)) unbroken)
                (Carries-of_entry crates identity s {d = m.disk} {d' = spent m.disk} refl c)))

  module _ {World : Type 0} (net : Net World) (cfg : WrapperConfig crates)
      (spawn : Text → List Text → Action (Machine World) Bool) where
    -- When the directory of the hash holds a key, its password file and a capability that lasts
    -- longer than the margin, and no file call fails, a pull goes on to run `decdn` with no
    -- request to the gateway and with every entry but the mode of the directory as it was.
    pub pull-launch :
        (filled : Result (List ℕ)) (now nanos : ℕ) (hash hex output : Text) (a : Address)
        (g : Grant) (m : Machine World)
        → normalize_hash hash ≡ ok hex
        → IsResumable (session_of cfg.data_dir hex) a g m.disk
        → saturating_add now expiry_margin_secs < (grants g).expiry
        → (start : Machine World) × (pull crates identity net cfg spawn filled
              (since_epoch now nanos)
              hash
              output
              m
            ≡ launch crates identity net cfg spawn hex output (session_of cfg.data_dir hex) start)
          × (start.world ≡ m.world)
          × ((q : Text)
              → q ≢ (session_of cfg.data_dir hex).dir
              → start.disk.entry q ≡ m.disk.entry q)
    unfolding pull
    pull-launch filled now nanos hash hex output a g m normal r live =
        let s = session_of cfg.data_dir hex in
        let d1 = spent (tightened cfg.data_dir hex m.disk) in
        let other = tightened_other cfg.data_dir hex m.disk in
        let m1 : Machine World = record { disk = d1; world = m.world } in
        (
          record { disk = spent (spent d1); world = m.world },
          bind-ok (lift (normalize_hash hash)) _ m (ap (λ x. (x, m)) normal)
              ∙ bind-ok
                  (on_disk (live_session crates identity cfg.data_dir hex (since_epoch now nanos)))
                  _ m
                  (ap (λ x. (x.0, record { disk = x.1; world = m.world }))
                    (live_session_held cfg.data_dir hex now nanos a g m.disk r live))
              ∙ bind-ok (acquire crates identity net cfg filled s) _ m1 (
                  acquire_held s net cfg filled m1 a g
                    (HasKey-of_entry crates identity s {d = m.disk} {d' = d1}
                      (other _ (identity.keystore-ne-dir s.dir)) r.key_is)
                    (is_file_other cfg.data_dir hex m.disk d1 _
                      (other _ (password-ne-dir cfg.data_dir hex)) r.usable)
                    (Carries-of_entry crates identity s {d = m.disk} {d' = d1}
                      (other _ (capability-ne-dir cfg.data_dir hex)) r.carried)
                    (ap (λ (l : List Luck). later (later (later l))) r.unbroken)),
          refl,
          other,
        )
