-- ===== src/Wrapper/Session/Stale.antt =====
-- A capability that outlives its key: what a removal that fails between the two files leaves, and
-- what the next run makes of it.
use sponsor.Common.{ℕ, ◌≡◌, refl, sym, ap, ◌∙◌, Bool, false, none, some, List}
use sponsor.Common.Result.{Result, ok, err}
use sponsor.Common.Action.{bind-ok, bind-err}
use sponsor.Common.Text.{Text}
use sponsor.Crates.{Crates}
use sponsor.Wrapper.Files.{
  Disk, file, works, breaks, first, later, spent, put, exists, is_file, remove_file,
}
use sponsor.Wrapper.Files.Laws.{put_self, put_other}
use sponsor.Wrapper.Session.Identity.{Identity}
use sponsor.Wrapper.Session.State.{
  Session, password_path, capability_path, keystore_path, ensure_key, replace_key,
  remove_if_present,
}
use sponsor.Wrapper.Session.Pairing.{Carries, Carries-of_entry}

module _ (crates : Crates) (identity : Identity crates) (s : Session) where
  open crates use {Address, Grant}

  -- The state of a directory whose key was removed and whose capability was not.
  pub record IsStale (d : Disk) (g : Grant) : Type 0 where
    pub no_key : d.entry (keystore_path crates identity s) ≡ none
    pub carried : Carries crates identity s d g

  removed_file :
      (path : Text) (d : Disk) (mode : ℕ) (content : List ℕ)
      → d.entry path ≡ some (file mode content)
      → first d.lucks ≡ works
      → remove_if_present path d ≡ (ok tt, put path none d)
  unfolding remove_if_present remove_file
  removed_file path d mode content held luck = rw (held, luck) refl

  refused_file :
      (path : Text) (d : Disk) (n : ℕ) (left : Text → Bool)
      → first d.lucks ≡ breaks n left
      → remove_if_present path d ≡ (err "remove", spent d)
  unfolding remove_if_present remove_file
  refused_file path d n left luck = rw (luck) refl

  -- The key is removed, and the removal of the capability fails.
  ensure_key-broken :
      (filled : Result (List ℕ)) (d : Disk) (mode : ℕ) (content : List ℕ) (n : ℕ)
      (left : Text → Bool)
      → d.entry (keystore_path crates identity s) ≡ some (file mode content)
      → is_file (password_path s) d ≡ false
      → first d.lucks ≡ works
      → first (later d.lucks) ≡ breaks n left
      → ensure_key crates identity filled s d
        ≡ (err "remove", spent (put (keystore_path crates identity s) none d))
  unfolding ensure_key exists replace_key
  ensure_key-broken filled d mode content n left held no_password luck luck' =
      let key = keystore_path crates identity s in
      rw (held, no_password)
        (bind-ok (remove_if_present key) _ d (removed_file key d mode content held luck)
          ∙ bind-err (remove_if_present (capability_path s)) _ (put key none d)
              (refused_file (capability_path s) (put key none d) n left luck'))

  -- The entries that are left, whatever luck the next calls have.
  broken-IsStale :
      (d d' : Disk) (g : Grant)
      → Carries crates identity s d g
      → d'.entry ≡ (put (keystore_path crates identity s) none d).entry
      → IsStale d' g
  broken-IsStale d d' g c same =
      let key = keystore_path crates identity s in
      record {
        no_key = ap (λ f. f key) same ∙ put_self key none d;
        carried =
            Carries-of_entry crates identity s {d = d} {d' = d'}
              (ap (λ f. f (capability_path s)) same
                ∙ put_other key (capability_path s) none d
                    (λ e. identity.keystore-ne-capability s.dir (sym e)))
              c;
      }

  pub ensure_key-IsStale :
      (filled : Result (List ℕ)) (d : Disk) (mode : ℕ) (content : List ℕ) (g : Grant) (n : ℕ)
      (left : Text → Bool)
      → d.entry (keystore_path crates identity s) ≡ some (file mode content)
      → is_file (password_path s) d ≡ false
      → Carries crates identity s d g
      → first d.lucks ≡ works
      → first (later d.lucks) ≡ breaks n left
      → ((ensure_key crates identity filled s d).0 ≡ err "remove")
        × IsStale (ensure_key crates identity filled s d).1 g
  ensure_key-IsStale filled d mode content g n left held no_password c luck luck' =
      let e = ensure_key-broken filled d mode content n left held no_password luck luck' in
      (ap (λ x. x.0) e, broken-IsStale d _ g c (ap (λ x. x.1.entry) e))
