-- ===== src/Wrapper/Session/Reads.antt =====
-- Reading the capability changes nothing; discarding removes all; opening keeps the files.
use sponsor.Common.{
  ℕ, ◌≡◌, ◌≢◌, refl, sym, ap, ◌∙◌, Bool, true, false, Option, none, some, [], ◌++◌, Bool-cases, inl,
  inr, ◌||◌,
}
use mathlib.Core.List.{append-nil, append_assoc, append_cancel_left}
use sponsor.Common.Result.{Result, ok, err, ok_or, to_option, ok_or-eq-ok}
use sponsor.Common.Action.{lift, pure, Ends, Ends-then, Ends-map, Ends-cases}
use sponsor.Common.Text.{Text, lit, from_utf8, text_eq}
use sponsor.Common.Text.Split.{strip_prefix, strip_prefix-append}
use sponsor.Common.Text.Trim.{trim}
use sponsor.Crates.{Crates}
use sponsor.Wrapper.Config.{join, ends_in_slash}
use sponsor.Wrapper.Keystore.{starts_with}
use sponsor.Wrapper.Files.{
  Disk, Entry, file, directory, Luck, works, breaks, first, spent, created, permitted, cleared,
  exists, read, content_of, create_dir, set_permissions, remove_dir_all, below,
}
use sponsor.Wrapper.Files.Laws.{put_other}
use sponsor.Wrapper.Session.Identity.{Identity}
use sponsor.Wrapper.Session.State.{
  Session, capability_path, capability, read_capability, discard, open_session, create_private_dir,
}
use sponsor.Wrapper.Session.Writes.{Others}
use sponsor.Wrapper.Session.Pairing.{Carries}

module _ (crates : Crates) (identity : Identity crates) (s : Session) where
  open crates use {Grant, from_token}

  to_option-eq-some : (r : Result Grant) (g : Grant) → to_option r ≡ some g → r ≡ ok g
  to_option-eq-some (ok x) g h = cc
  to_option-eq-some (err e) g h = cc

  abbrev Same : Disk → Disk → Type 0
  Same d d' = d'.entry ≡ d.entry

  read-Ends :
      (d : Disk) (l : Luck) (e : Option Entry)
      → d.entry (capability_path s) ≡ e
      → Ends
          (λ raw d'. Same d d' × (mode : ℕ) × (d.entry (capability_path s) ≡ some (file mode raw)))
          (Same d)
          (content_of l e, spent d)
  read-Ends d works none h = refl
  read-Ends d works (some (file m c)) h = (refl, m, h)
  read-Ends d works (some (directory m)) h = refl
  read-Ends d (breaks n left) none h = refl
  read-Ends d (breaks n left) (some e) h = refl

  -- What `capability` finds is what the file holds.
  abbrev pub Found : Disk → Option Grant → Disk → Type 0
  Found d o d' = Same d d' × ((g : Grant) → o ≡ some g → Carries crates identity s d g)

  read_capability-Ends : (d : Disk) → Ends (Found d) (Same d) (read_capability crates identity s d)
  unfolding read_capability read
  read_capability-Ends d =
      Ends-then
        (λ raw d1. Same d d1 × (mode : ℕ) × (d.entry (capability_path s) ≡ some (file mode raw)))
        (Found d) (Same d) (read (capability_path s)) _ d
        (read-Ends d (first d.lucks) (d.entry (capability_path s)) refl)
        (λ raw d1 (same, mode, held).
          Ends-then (λ token d2. Same d d2 × (from_utf8 raw ≡ some token)) (Found d) (Same d)
            (lift (ok_or (from_utf8 raw) "stream did not contain valid UTF-8")) _ d1
            (Ends-cases (λ token d2. Same d d2 × (from_utf8 raw ≡ some token)) (Same d)
              (ok_or (from_utf8 raw) "stream did not contain valid UTF-8") d1
              (λ token q. (same, ok_or-eq-ok (from_utf8 raw) _ q)) (λ e q. same))
            (λ token d2 (same2, text). (
              same2,
              λ g q. record {
                mode = mode;
                raw = raw;
                token = token;
                held = held;
                text = text;
                says = to_option-eq-some (from_token (trim token)) g q;
              },
            )))

  pub capability-Ends : (d : Disk) → Ends (Found d) (Same d) (capability crates identity s d)
  unfolding capability
  capability-Ends d = elim (Bool-cases (exists (capability_path s) d)) [
    | inl there ↦ rw (there) (read_capability-Ends d)
    | inr absent ↦ rw (absent) (refl, λ g e. cc)
  ]

-- Everything at or below the directory is gone.
abbrev pub IsClear : Text → Disk → Type 0
IsClear dir d = (q : Text) → below dir q ≡ true → d.entry q ≡ none

cleared-Ends :
    (dir : Text) (d : Disk) (l : Luck) (e : Option Entry)
    → Ends (λ (u : Unit {0}) d'. IsClear dir d') (λ d'. Unit {0}) (cleared dir l e d)
cleared-Ends dir d works none = tt
cleared-Ends dir d works (some (file m c)) = tt
cleared-Ends dir d works (some (directory m)) = λ q h. rw (h) refl
cleared-Ends dir d (breaks n left) none = tt
cleared-Ends dir d (breaks n left) (some (file m c)) = tt
cleared-Ends dir d (breaks n left) (some (directory m)) = tt

pub discard-Ends :
    (s : Session) (d : Disk)
    → Ends (λ (u : Unit {0}) d'. IsClear s.dir d') (λ d'. Unit {0}) (discard s d)
unfolding discard remove_dir_all
discard-Ends s d = cleared-Ends s.dir d (first d.lucks) (d.entry s.dir)

starts_with-append : (p t : Text) → starts_with (p ++ t) p ≡ true
unfolding starts_with
starts_with-append p t = rw (strip_prefix-append p t, starts_with) refl

or_true : (a b : Bool) → b ≡ true → (a || b) ≡ true
or_true true b h = refl
or_true false b h = h

starts_with_of_append : (s p t : Text) → s ≡ p ++ t → starts_with s p ≡ true
starts_with_of_append s p t e = rw (e) (starts_with-append p t)

below_of_join : (dir a : Text) → starts_with a (lit "/") ≡ false → below dir (join dir a) ≡ true
unfolding below join starts_with strip_prefix
below_of_join dir a h = elim (Bool-cases (text_eq dir [] || ends_in_slash dir)) [
  | inl bare ↦
      rw (h, bare)
        (or_true _ _ (
          starts_with_of_append (dir ++ a) (dir ++ []) a (ap (λ t. t ++ a) (sym (append-nil dir)))))
  | inr behind ↦
      rw (h, behind)
        (or_true _ _ (
          starts_with_of_append (dir ++ (lit "/" ++ a)) (dir ++ (lit "/" ++ [])) a
            (sym (append_assoc dir (lit "/") a))))
]

pub below-capability : (s : Session) → below s.dir (capability_path s) ≡ true
unfolding starts_with strip_prefix
below-capability s = below_of_join s.dir (lit "capability") refl

pub join-ne_dir : (dir a : Text) → starts_with a (lit "/") ≡ false → a ≢ [] → join dir a ≢ dir
unfolding join
join-ne_dir dir a h ne same = elim (Bool-cases (text_eq dir [] || ends_in_slash dir)) [
  | inl bare ↦ ne (append_cancel_left dir a [] ((rw (h, bare) at same) ∙ sym (append-nil dir)))
  | inr behind ↦
      let e : lit "/" ++ a ≡ [] =
        append_cancel_left dir (lit "/" ++ a) []
          ((rw (h, behind) at same) ∙ sym (append-nil dir)) in
      cc
]

opened_dir-Ends :
    (dir : Text) (d : Disk) (l : Luck) (e : Option Entry)
    → Ends (λ (u : Unit {0}) d'. Others dir d d') (Others dir d) (created dir 0o700 l e d)
opened_dir-Ends dir d works none = λ q n. put_other dir q _ d n
opened_dir-Ends dir d works (some (file m c)) = λ q n. refl
opened_dir-Ends dir d works (some (directory m)) = λ q n. refl
opened_dir-Ends dir d (breaks n left) none = λ q n. refl
opened_dir-Ends dir d (breaks n left) (some e) = λ q n. refl

permitted-Ends :
    (dir : Text) (d : Disk) (l : Luck) (e : Option Entry)
    → Ends (λ (u : Unit {0}) d'. Others dir d d') (Others dir d) (permitted dir 0o700 l e d)
permitted-Ends dir d works none = λ q n. refl
permitted-Ends dir d works (some e) = λ q n. put_other dir q _ d n
permitted-Ends dir d (breaks n left) none = λ q n. refl
permitted-Ends dir d (breaks n left) (some e) = λ q n. refl

pub create_private_dir-Ends :
    (dir : Text) (d : Disk)
    → Ends (λ (u : Unit {0}) d'. Others dir d d') (Others dir d) (create_private_dir dir d)
unfolding create_private_dir create_dir set_permissions
create_private_dir-Ends dir d =
    Ends-then (λ (u : Unit {0}) d1. Others dir d d1) _ _ (create_dir dir 0o700)
      (λ u. set_permissions dir 0o700) d (opened_dir-Ends dir d (first d.lucks) (d.entry dir))
      (λ u d1 same.
        Ends-map _ _ _ _ (set_permissions dir 0o700 d1) (λ v d2 rest q n. rest q n ∙ same q n)
          (λ d2 rest q n. rest q n ∙ same q n)
          (permitted-Ends dir d1 (first d1.lucks) (d1.entry dir)))

abbrev pub session_of : Text → Text → Session
session_of root hash = record { dir = join (join root (lit "downloads")) hash }

pub open_session-Ends :
    (root hash : Text) (d : Disk)
    → Ends
        (λ s d'. (s ≡ session_of root hash) × Others (session_of root hash).dir d d')
        (Others (session_of root hash).dir d)
        (open_session root hash d)
unfolding open_session
open_session-Ends root hash d =
    Ends-then (λ (u : Unit {0}) d1. Others (session_of root hash).dir d d1) _ _
      (create_private_dir (session_of root hash).dir) (λ u. pure (session_of root hash)) d
      (create_private_dir-Ends (session_of root hash).dir d) (λ u d1 same. (refl, same))
