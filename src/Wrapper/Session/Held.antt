-- ===== src/Wrapper/Session/Held.antt =====
-- Calls that succeed: with a key, its password and a capability in the directory.
use sponsor.Common.{ℕ, ◌≡◌, refl, sym, ap, ◌∙◌, true, some, List, []}
use sponsor.Common.Result.{Result, ok, ok-injective}
use sponsor.Common.Action.{Ends}
use sponsor.Common.Text.{Text, from_utf8}
use sponsor.Common.Text.Trim.{trim}
use sponsor.Crates.{Crates}
use sponsor.Wrapper.Files.{
  Disk, file, directory, Luck, works, breaks, first, spent, put, exists, is_file, read, create_dir,
  set_permissions,
}
use sponsor.Wrapper.Session.Identity.{Identity}
use sponsor.Wrapper.Session.State.{
  Session, password_path, capability, read_capability, ensure_key, address_at, open_session,
  create_private_dir,
}
use sponsor.Wrapper.Session.Reads.{session_of}
use sponsor.Wrapper.Session.Pairing.{HasKey, Carries}

module _ (crates : Crates) (identity : Identity crates) (s : Session) where
  open crates use {Address, Grant, from_token}

  pub capability_held :
      (d : Disk) (g : Grant)
      → first d.lucks ≡ works
      → Carries crates identity s d g
      → capability crates identity s d ≡ (ok (some g), spent d)
  unfolding capability read_capability read exists
  capability_held d g luck c = rw (c.held, luck) (rw (c.text) (rw (c.says) refl))

  pub ensure_key_held :
      (filled : Result (List ℕ)) (d : Disk) (a : Address)
      → first d.lucks ≡ works
      → HasKey crates identity s d a
      → is_file (password_path s) d ≡ true
      → ensure_key crates identity filled s d ≡ (ok a, spent d)
  unfolding ensure_key exists address_at read
  ensure_key_held filled d a luck k usable = rw (k.held, usable, luck) (rw (k.states) refl)

  pub Carries-unique :
      (d : Disk) (g g' : Grant)
      → Carries crates identity s d g
      → Carries crates identity s d g'
      → g ≡ g'
  Carries-unique d g g' c c' =
      let same : some (file c.mode c.raw) ≡ some (file c'.mode c'.raw) = sym c.held ∙ c'.held in
      let raws : c.raw ≡ c'.raw = cc in
      let texts : some c.token ≡ some c'.token = sym c.text ∙ ap from_utf8 raws ∙ c'.text in
      let tokens : c.token ≡ c'.token = cc in
      ok-injective (sym c.says ∙ ap (λ t. from_token (trim t)) tokens ∙ c'.says)

  capability_of_luck :
      (d : Disk) (g : Grant) (l : Luck)
      → first d.lucks ≡ l
      → Carries crates identity s d g
      → Ends
          (λ o d'. (o ≡ some g) × (d'.entry ≡ d.entry))
          (λ d'. Unit {0})
          (capability crates identity s d)
  unfolding capability read_capability read exists
  capability_of_luck d g works luck c = rw (capability_held d g luck c) (refl, refl)
  capability_of_luck d g (breaks n left) luck c = rw (c.held, luck) tt

  pub capability_of_Carries :
      (d : Disk) (g : Grant)
      → Carries crates identity s d g
      → Ends
          (λ o d'. (o ≡ some g) × (d'.entry ≡ d.entry))
          (λ d'. Unit {0})
          (capability crates identity s d)
  capability_of_Carries d g c = capability_of_luck d g (first d.lucks) refl c

pub open_session_held :
    (root hash : Text) (d : Disk) (mode : ℕ)
    → d.lucks ≡ []
    → d.entry (session_of root hash).dir ≡ some (directory mode)
    → open_session root hash d ≡ (
      ok (session_of root hash),
      put (session_of root hash).dir (some (directory 0o700)) (spent d),
    )
unfolding open_session create_private_dir create_dir set_permissions
open_session_held root hash d mode luck held = rw (held, luck) (rw (held, set_permissions) refl)
