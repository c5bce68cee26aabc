-- ===== src/Wrapper/Session/Fresh.antt =====
-- A session of a directory that holds nothing yet, with file calls that work.
use sponsor.Common.{ℕ, ◌≡◌, ◌≢◌, refl, sym, ◌∙◌, false, none, some, List, []}
use sponsor.Common.Result.{ok}
use sponsor.Common.Action.{Ends-then, Ends-map, Succeeds, Succeeds-and}
use sponsor.Common.Text.{Text, lit, bytes}
use sponsor.Common.Text.Split.{strip_prefix}
use sponsor.Crates.{Crates}
use sponsor.Wrapper.Keystore.{starts_with}
use sponsor.Wrapper.Files.{
  Disk, file, directory, put, exists, create_dir, set_permissions, open_truncated, write_all,
  remove_dir_all,
}
use sponsor.Wrapper.Files.Laws.{put_self, put_other}
use sponsor.Wrapper.Session.Identity.{Identity}
use sponsor.Wrapper.Session.State.{
  Session, password_path, capability_path, keystore_path, open_session, create_private_dir,
  write_private, fresh_key, ensure_key, capability, save_capability, discard,
}
use sponsor.Wrapper.Session.Writes.{Others, write_private-Ends, join-ne}
use sponsor.Wrapper.Session.Reads.{session_of, join-ne_dir, IsClear, discard-Ends}

-- No file call breaks.
abbrev pub Calm : Disk → Type 0
Calm d = d.lucks ≡ []

pub write_private-Succeeds :
    (path : Text) (new : List ℕ) (d : Disk)
    → Calm d
    → d.entry path ≡ none
    → Succeeds (λ (u : Unit {0}) d'. Calm d') (write_private path new d)
unfolding write_private open_truncated write_all
write_private-Succeeds path new d calm gone =
    rw (gone, calm) (rw (put_self path (some (file 0o600 [])) d) refl)

-- The directory is there, and no file call breaks.
pub record Ready (dir : Text) (d : Disk) : Type 0 where
  pub calm : Calm d
  pub mode : ℕ
  pub there : d.entry dir ≡ some (directory mode)

Ready-of_Others :
    (dir path : Text) (d d' : Disk)
    → dir ≢ path
    → Calm d'
    → Others path d d'
    → Ready dir d
    → Ready dir d'
Ready-of_Others dir path d d' ne calm others r = record {
  calm = calm;
  mode = r.mode;
  there = others dir ne ∙ r.there;
}

pub open_session-Ready :
    (root hash : Text) (d : Disk)
    → Calm d
    → d.entry (session_of root hash).dir ≡ none
    → Succeeds
        (λ s' d'.
          (s' ≡ session_of root hash)
          × Ready (session_of root hash).dir d'
          × Others (session_of root hash).dir d d')
        (open_session root hash d)
unfolding open_session create_private_dir create_dir set_permissions
open_session-Ready root hash d calm gone =
    let dir = (session_of root hash).dir in
    rw (gone, calm)
      (rw (put_self dir (some (directory 0o700)) d) (
        refl,
        record {
          calm = refl;
          mode = 0o700;
          there = put_self dir (some (directory 0o700)) (put dir (some (directory 0o700)) d);
        },
        λ q n.
            put_other dir q (some (directory 0o700)) (put dir (some (directory 0o700)) d) n
            ∙ put_other dir q (some (directory 0o700)) d n,
      ))

pub discard-Succeeds :
    (s : Session) (d : Disk)
    → Ready s.dir d
    → Succeeds (λ (u : Unit {0}) d'. IsClear s.dir d') (discard s d)
discard-Succeeds s d r =
    Ends-map _ _ _ _ (discard s d) (λ u d' both. both.1) (λ d' h. h)
      (Succeeds-and (λ (u : Unit {0}) d'. Unit {0}) _ _ (discard s d) (removed r)
        (discard-Ends s d))
  where
    removed : Ready s.dir d → Succeeds (λ (u : Unit {0}) d'. Unit {0}) (discard s d)
    removed r = unfold discard remove_dir_all in rw (r.there, r.calm) tt

module _ (crates : Crates) (identity : Identity crates) (s : Session) where
  open crates use {Address}

  abbrev key : Text
  key = keystore_path crates identity s

  -- Generating a key works where the disk does and there is none.
  abbrev pub Generates : List ℕ → Type 0
  Generates secret =
      (d : Disk)
      → Calm d
      → d.entry key ≡ none
      → Succeeds (λ (a : Address) d'. Calm d')
          (identity.generate_and_persist s.dir (identity.hex_encode secret) false d)

  -- The directory, with none of the files of a session.
  pub record IsEmpty (d : Disk) : Type 0 where
    pub ready : Ready s.dir d
    pub no_key : d.entry key ≡ none
    pub no_password : d.entry (password_path s) ≡ none
    pub no_capability : d.entry (capability_path s) ≡ none

  -- Nothing of a capability yet.
  abbrev pub Unclaimed : Disk → Type 0
  Unclaimed d = Ready s.dir d × (d.entry (capability_path s) ≡ none)

  dir-ne-key : s.dir ≢ key
  dir-ne-key e = identity.keystore-ne-dir s.dir (sym e)

  pub dir-ne-password : s.dir ≢ password_path s
  unfolding starts_with strip_prefix
  dir-ne-password e = join-ne_dir s.dir (lit "password") refl (λ e. cc) (sym e)

  pub dir-ne-capability : s.dir ≢ capability_path s
  unfolding starts_with strip_prefix
  dir-ne-capability e = join-ne_dir s.dir (lit "capability") refl (λ e. cc) (sym e)

  capability-ne-password : capability_path s ≢ password_path s
  unfolding starts_with strip_prefix
  capability-ne-password = join-ne s.dir (lit "capability") (lit "password") refl refl (λ e. cc)

  generate-Unclaimed :
      (secret : List ℕ) (d : Disk)
      → Generates secret
      → d.entry key ≡ none
      → Unclaimed d
      → Succeeds
          (λ (a : Address) d'. Unclaimed d')
          (identity.generate_and_persist s.dir (identity.hex_encode secret) false d)
  generate-Unclaimed secret d works no_key (r, none_yet) =
      Ends-map _ _ _ _ (identity.generate_and_persist s.dir (identity.hex_encode secret) false d)
        (λ a d' (calm, (rest, mode, content, held, states)). (
          Ready-of_Others s.dir key d d' dir-ne-key calm rest r,
          rest (capability_path s) (λ e. identity.keystore-ne-capability s.dir (sym e)) ∙ none_yet,
        ))
        (λ d' h. h)
        (Succeeds-and _ _ _
          (identity.generate_and_persist s.dir (identity.hex_encode secret) false d)
          (works d r.calm no_key)
          (identity.generate-Ends s.dir (identity.hex_encode secret) false d))

  pub ensure_key-Unclaimed :
      (secret : List ℕ) (d : Disk)
      → Generates secret
      → IsEmpty d
      → Succeeds (λ (a : Address) d'. Unclaimed d') (ensure_key crates identity (ok secret) s d)
  unfolding ensure_key exists fresh_key
  ensure_key-Unclaimed secret d works e =
      let new = bytes (identity.hex_encode secret) in
      rw e.no_key (
        Ends-then (λ (u : Unit {0}) d1. (d1.entry key ≡ none) × Unclaimed d1) _ _
          (write_private (password_path s) new)
          (λ u. identity.generate_and_persist s.dir (identity.hex_encode secret) false) d
          (Ends-map _ _ _ _ (write_private (password_path s) new d)
            (λ u d1 (calm, (held, rest)). (
              rest key (identity.keystore-ne-password s.dir) ∙ e.no_key,
              (
                Ready-of_Others s.dir (password_path s) d d1 dir-ne-password calm rest e.ready,
                rest (capability_path s) capability-ne-password ∙ e.no_capability,
              ),
            ))
            (λ d1 h. h)
            (Succeeds-and _ _ _ (write_private (password_path s) new d)
              (write_private-Succeeds (password_path s) new d e.ready.calm e.no_password)
              (write_private-Ends (password_path s) new d)))
          (λ u d1 (no_key, h). generate-Unclaimed secret d1 works no_key h))

  pub capability-none :
      (d : Disk)
      → d.entry (capability_path s) ≡ none
      → capability crates identity s d ≡ (ok none, d)
  unfolding capability exists
  capability-none d gone = rw gone refl

  pub save_capability-Ready :
      (token : Text) (d : Disk)
      → Unclaimed d
      → Succeeds (λ (u : Unit {0}) d'. Ready s.dir d') (save_capability s token d)
  unfolding save_capability
  save_capability-Ready token d (r, none_yet) =
      Ends-map _ _ _ _ (write_private (capability_path s) (bytes token) d)
        (λ u d' (calm, (held, rest)).
          Ready-of_Others s.dir (capability_path s) d d' dir-ne-capability calm rest r)
        (λ d' h. h)
        (Succeeds-and _ _ _ (write_private (capability_path s) (bytes token) d)
          (write_private-Succeeds (capability_path s) (bytes token) d r.calm none_yet)
          (write_private-Ends (capability_path s) (bytes token) d))
