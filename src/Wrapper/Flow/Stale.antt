-- ===== src/Wrapper/Flow/Stale.antt =====
-- The run after a key was removed without its capability.
use sponsor.Common.{ℕ, ◌≡◌, ◌⊎◌, inl, inr, ap, ◌∙◌, Bool, false, some, List}
use sponsor.Common.Result.{Result, err}
use sponsor.Common.Action.{Ends, Ends-then, Ends-map}
use sponsor.Common.Text.{Text}
use sponsor.Crates.{Crates}
use sponsor.Wrapper.Files.{Disk, file, works, breaks, exists, is_file, first, later}
use sponsor.Wrapper.Session.Identity.{Identity}
use sponsor.Wrapper.Session.State.{
  Session, keystore_path, password_path, capability_path, ensure_key, fresh_key, capability,
}
use sponsor.Wrapper.Session.Pairing.{
  HasKey, HasKey-of_entry, HasKey-unique, Carries, Carries-of_entry, IsPaired, fresh_key-Ends,
}
use sponsor.Wrapper.Session.Held.{capability_of_Carries}
use sponsor.Wrapper.Session.Stale.{IsStale, ensure_key-IsStale}
use sponsor.Wrapper.Api.{Net}
use sponsor.Wrapper.Config.{WrapperConfig}
use sponsor.Wrapper.Flow.{Machine, on_disk, acquire}
use sponsor.Wrapper.Flow.Lift.{on_disk-Ends}

module _ (crates : Crates) (identity : Identity crates) (s : Session) where
  open crates use {Address, Grant, grants, address_discrete}

  abbrev key : Text
  key = keystore_path crates identity s

  -- A key is generated, and the capability stays.
  ensure_key-Stale :
      (filled : Result (List ℕ)) (d : Disk) (g : Grant)
      → IsStale crates identity s d g
      → Ends
          (λ a d'. HasKey crates identity s d' a × Carries crates identity s d' g)
          (λ d'. Unit {0})
          (ensure_key crates identity filled s d)
  unfolding ensure_key exists
  ensure_key-Stale filled d g stale = rw (stale.no_key) (
      Ends-map _ _ _ _ (fresh_key crates identity filled s d)
        (λ a d' (k, same).
          (k, Carries-of_entry crates identity s {d = d} {d' = d'} same stale.carried))
        (λ d' same. tt) (fresh_key-Ends crates identity s filled d))

  module _ {World : Type 0} (net : Net World) (cfg : WrapperConfig crates) where
    -- What such a run hands to `decdn`: its own key, and the old capability, with no request made.
    pub record Mismatched (g : Grant) (w : World) (client : Address) (m' : Machine World)
        : Type 0 where
      pub key_is : HasKey crates identity s m'.disk client
      pub carried : Carries crates identity s m'.disk g
      pub unasked : m'.world ≡ w
      pub unpaired : ((grants g).signer ≡ client) ⊎ (¬ IsPaired crates identity s m'.disk)

    pub acquire-Mismatched :
        (filled : Result (List ℕ)) (m : Machine World) (g : Grant)
        → IsStale crates identity s m.disk g
        → Ends
            (Mismatched g m.world)
            (λ (m' : Machine World). Unit {0})
            (acquire crates identity net cfg filled s m)
    unfolding acquire
    acquire-Mismatched filled m g stale =
        Ends-then
          (λ client (m1 : Machine World).
            (HasKey crates identity s m1.disk client × Carries crates identity s m1.disk g)
            × (m1.world ≡ m.world))
          _ _ (on_disk (ensure_key crates identity filled s)) _ m
          (on_disk-Ends _ _ (ensure_key crates identity filled s) m
            (ensure_key-Stale filled m.disk g stale))
          (λ client m1 ((k, c), still).
            Ends-then
              (λ o (m2 : Machine World).
                ((o ≡ some g) × (m2.disk.entry ≡ m1.disk.entry)) × (m2.world ≡ m1.world))
              _ _ (on_disk (capability crates identity s)) _ m1
              (on_disk-Ends _ _ (capability crates identity s) m1
                (capability_of_Carries crates identity s m1.disk g c))
              (λ o m2 ((is, same), still').
                let k' =
                  HasKey-of_entry crates identity s {d = m1.disk} {d' = m2.disk}
                    (ap (λ f. f key) same) k in
                let c' =
                  Carries-of_entry crates identity s {d = m1.disk} {d' = m2.disk}
                    (ap (λ f. f (capability_path s)) same) c in
                rw (is) (record {
                  key_is = k';
                  carried = c';
                  unasked = still' ∙ still;
                  unpaired = elim (address_discrete (grants g).signer client) [
                    | yes same ↦ inl same
                    | no other ↦ inr (λ p.
                        other (HasKey-unique crates identity s {d = m2.disk} (p.pair g c') k'))
                  ];
                })))

    -- Where a key has no password file and has a capability, and its removal succeeds but that of
    -- the capability fails, `ensure_key` fails; the next run, if it gets that far, generates a
    -- key, asks the gateway for nothing and keeps the capability of the old key, which does not
    -- belong to the new one unless the two have one address.
    pub stale_capability_reused :
        (filled filled' : Result (List ℕ)) (d : Disk) (w : World) (mode : ℕ) (content : List ℕ)
        (g : Grant) (n : ℕ) (left : Text → Bool)
        → d.entry key ≡ some (file mode content)
        → is_file (password_path s) d ≡ false
        → Carries crates identity s d g
        → first d.lucks ≡ works
        → first (later d.lucks) ≡ breaks n left
        → ((ensure_key crates identity filled s d).0 ≡ err "remove")
          × Ends
              (Mismatched g w)
              (λ (m' : Machine World). Unit {0})
              (acquire crates identity net cfg filled' s
                (record { disk = (ensure_key crates identity filled s d).1; world = w }))
    stale_capability_reused filled filled' d w mode content g n left held no_password c luck luck' =
        let (failed, stale) =
          ensure_key-IsStale crates identity s filled d mode content g n left held no_password c
            luck luck' in
        (failed, acquire-Mismatched filled' (record { disk = _; world = w }) g stale)
