-- ===== src/Wrapper/Session/Writes.antt =====
-- What removing and writing one file of a session leaves.
use sponsor.Common.{
  ℕ, ◌≡◌, ◌≢◌, refl, ◌∙◌, false, Option, none, some, List, [], Bool-cases, inl, inr, ◌||◌,
}
use mathlib.Core.List.{append_cancel_left}
use sponsor.Common.Action.{Ends, Ends-then, Ends-map}
use sponsor.Common.Text.{Text, lit, text_eq}
use sponsor.Wrapper.Config.{join, ends_in_slash}
use sponsor.Wrapper.Keystore.{starts_with}
use sponsor.Wrapper.Files.{
  Disk, Entry, file, directory, Luck, works, breaks, first, removal, opened, written, remove_file,
  open_truncated, write_all,
}
use sponsor.Wrapper.Files.Laws.{put_self, put_other}
use sponsor.Wrapper.Session.State.{remove_if_present, write_private, unless_refused}

-- Every entry but that of one path is as it was.
abbrev pub Others : Text → Disk → Disk → Type 0
Others path d d' = (q : Text) → q ≢ path → d'.entry q ≡ d.entry q

module _ (path : Text) where
  abbrev Gone : Disk → Unit {0} → Disk → Type 0
  Gone d u d' = (d'.entry path ≡ none) × Others path d d'

  removal-Ends :
      (d : Disk) (l : Luck) (e : Option Entry)
      → d.entry path ≡ e
      → Ends (Gone d) (λ d'. d'.entry ≡ d.entry) (unless_refused (removal path l e d))
  removal-Ends d works none h = (h, λ q n. refl)
  removal-Ends d works (some (file m c)) h =
      (put_self path none d, λ q n. put_other path q none d n)
  removal-Ends d works (some (directory m)) h = refl
  removal-Ends d (breaks n left) none h = refl
  removal-Ends d (breaks n left) (some e) h = refl

  pub remove_if_present-Ends :
      (d : Disk) → Ends (Gone d) (λ d'. d'.entry ≡ d.entry) (remove_if_present path d)
  unfolding remove_if_present remove_file
  remove_if_present-Ends d = removal-Ends d (first d.lucks) (d.entry path) refl

  opened-Ends :
      (mode : ℕ) (d : Disk) (l : Luck) (e : Option Entry)
      → d.entry path ≡ e
      → Ends (λ (u : Unit {0}) d'. Others path d d') (Others path d) (opened path mode l e d)
  opened-Ends mode d works none h = λ q n. put_other path q _ d n
  opened-Ends mode d works (some (file m c)) h = λ q n. put_other path q _ d n
  opened-Ends mode d works (some (directory m)) h = λ q n. refl
  opened-Ends mode d (breaks k left) none h = λ q n. refl
  opened-Ends mode d (breaks k left) (some e) h = λ q n. refl

  abbrev pub Holds : List ℕ → Disk → Type 0
  Holds new d = (mode : ℕ) × (d.entry path ≡ some (file mode new))

  written-Ends :
      (new : List ℕ) (d : Disk) (l : Luck) (e : Option Entry)
      → Ends
          (λ (u : Unit {0}) d'. Holds new d' × Others path d d')
          (Others path d)
          (written path new l e d)
  written-Ends new d works none = λ q n. refl
  written-Ends new d works (some (file m c)) =
      ((m, put_self path _ d), λ q n. put_other path q _ d n)
  written-Ends new d works (some (directory m)) = λ q n. refl
  written-Ends new d (breaks k left) none = λ q n. refl
  written-Ends new d (breaks k left) (some (file m c)) = λ q n. put_other path q _ d n
  written-Ends new d (breaks k left) (some (directory m)) = λ q n. refl

  pub write_private-Ends :
      (new : List ℕ) (d : Disk)
      → Ends
          (λ (u : Unit {0}) d'. Holds new d' × Others path d d')
          (Others path d)
          (write_private path new d)
  unfolding write_private open_truncated write_all
  write_private-Ends new d =
      Ends-then (λ (u : Unit {0}) d'. Others path d d') _ _ (open_truncated path 0o600)
        (λ u. write_all path new) d (opened-Ends 0o600 d (first d.lucks) (d.entry path) refl)
        (λ u d1 same.
          Ends-map _ _ _ _ (write_all path new d1)
            (λ v d2 (held, rest). (held, λ q n. rest q n ∙ same q n))
            (λ d2 rest q n. rest q n ∙ same q n)
            (written-Ends new d1 (first d1.lucks) (d1.entry path)))

-- Two names in one directory are two paths.
pub join-ne :
    (dir a b : Text)
    → starts_with a (lit "/") ≡ false
    → starts_with b (lit "/") ≡ false
    → a ≢ b
    → join dir a ≢ join dir b
unfolding join
join-ne dir a b ha hb ne same = elim (Bool-cases (text_eq dir [] || ends_in_slash dir)) [
  | inl bare ↦ ne (append_cancel_left dir a b (rw (ha, hb, bare) at same))
  | inr behind ↦
      ne (
        append_cancel_left (lit "/") a b (append_cancel_left dir _ _ (rw (ha, hb, behind) at same)))
]
