-- ===== src/Wrapper/Flow/Paired.antt =====
-- The key and the capability that are there when `decdn` is run.
use sponsor.Common.{ℕ, ◌≡◌, refl, sym, ap, subst, Option, none, some, List}
use sponsor.Common.Result.{Result}
use sponsor.Common.Action.{pure, Ends, Ends-then, Ends-map}
use sponsor.Common.Text.{Text, bytes, from_utf8-bytes}
use sponsor.Crates.{Crates}
use sponsor.Wrapper.Files.{Disk}
use sponsor.Wrapper.Session.Identity.{Identity}
use sponsor.Wrapper.Session.State.{
  Session, keystore_path, capability_path, capability, ensure_key, save_capability, write_private,
}
use sponsor.Wrapper.Session.Writes.{write_private-Ends}
use sponsor.Wrapper.Session.Reads.{Found, capability-Ends}
use sponsor.Wrapper.Session.Pairing.{
  HasKey, Carries, IsPaired, IsPaired-of_entry, HasKey-of_entry, HasKey-unique, Carries-of_entry,
  ensure_key-IsPaired,
}
use sponsor.Wrapper.Api.{Net, CapabilityInfo}
use sponsor.Wrapper.Config.{WrapperConfig}
use sponsor.Wrapper.Flow.{Machine, on_disk, on_world, obtain, fetch_if_none, acquire}
use sponsor.Wrapper.Flow.Lift.{on_disk-Ends, on_world-Ends}
use sponsor.Wrapper.Flow.Gateway.{IsFor, IsHonest, Given, obtain-Given}

module _ (crates : Crates) (identity : Identity crates) {World : Type 0} (net : Net World)
    (cfg : WrapperConfig crates) where
  open crates use {Address, Grant, grants}

  module _ (s : Session) where
    -- The key and a capability for it.
    pub record Holding (client : Address) (d : Disk) : Type 0 where
      pub key : HasKey crates identity s d client
      pub grant : Grant
      pub carried : Carries crates identity s d grant
      pub signer : (grants grant).signer ≡ client

    abbrev key : Text
    key = keystore_path crates identity s

    save-Holding :
        (client : Address) (info : CapabilityInfo) (d : Disk)
        → HasKey crates identity s d client
        → IsFor crates identity net cfg client info.token
        → Ends
            (λ (u : Unit {0}) d'. Holding client d')
            (λ d'. Unit {0})
            (save_capability s info.token d)
    unfolding save_capability
    save-Holding client info d k i =
        Ends-map _ _ _ _ (write_private (capability_path s) (bytes info.token) d)
          (λ u d' ((mode, held), rest). record {
            key =
                HasKey-of_entry crates identity s {d = d} {d' = d'}
                  (rest key (identity.keystore-ne-capability s.dir)) k;
            grant = i.grant;
            carried = record {
              mode = mode;
              raw = bytes info.token;
              token = info.token;
              held = held;
              text = from_utf8-bytes info.token i.text;
              says = i.says;
            };
            signer = i.signer;
          })
          (λ d' h. tt) (write_private-Ends (capability_path s) (bytes info.token) d)

    fetch-Holding :
        IsHonest crates identity net cfg
        → (client : Address) (o : Option Grant) (m : Machine World)
        → HasKey crates identity s m.disk client
        → IsPaired crates identity s m.disk
        → ((g : Grant) → o ≡ some g → Carries crates identity s m.disk g)
        → Ends
            (λ (u : Unit {0}) (m' : Machine World). Holding client m'.disk)
            (λ (m' : Machine World). Unit {0})
            (fetch_if_none crates identity net cfg s client o m)
    fetch-Holding honest client (some g) m k p c = record {
      key = k;
      grant = g;
      carried = c g refl;
      signer = HasKey-unique crates identity s {d = m.disk} (p.pair g (c g refl)) k;
    }
    fetch-Holding honest client none m k p c =
        Ends-then
          (λ (info : CapabilityInfo) (m1 : Machine World).
            IsFor crates identity net cfg client info.token × (m1.disk ≡ m.disk))
          _ _ (on_world (obtain crates identity net cfg client))
          (λ info. on_disk (save_capability s info.token)) m
          (on_world-Ends (Given crates identity net cfg client) (λ w. Unit {0})
            (obtain crates identity net cfg client) m
            (obtain-Given crates identity net cfg honest client m.world))
          (λ info m1 (given, same).
            Ends-map _ _ _ _ (on_disk (save_capability s info.token) m1) (λ u m2 h. h.0)
              (λ m2 h. tt)
              (on_disk-Ends (λ (u : Unit {0}) d'. Holding client d') (λ d'. Unit {0})
                (save_capability s info.token) m1
                (save-Holding client info m1.disk
                  (subst (λ d. HasKey crates identity s d client) (sym same) k) given)))

    pub acquire-Holding :
        IsHonest crates identity net cfg
        → (filled : Result (List ℕ)) (m : Machine World) → IsPaired crates identity s m.disk
        → Ends
            (λ client (m' : Machine World). Holding client m'.disk)
            (λ (m' : Machine World). Unit {0})
            (acquire crates identity net cfg filled s m)
    unfolding acquire
    acquire-Holding honest filled m p =
        Ends-then
          (λ client (m1 : Machine World).
            HasKey crates identity s m1.disk client × IsPaired crates identity s m1.disk)
          _ _ (on_disk (ensure_key crates identity filled s)) _ m
          (Ends-map _ _ _ _ (on_disk (ensure_key crates identity filled s) m) (λ client m1 h. h.0)
            (λ m1 h. tt)
            (on_disk-Ends _ _ (ensure_key crates identity filled s) m
              (ensure_key-IsPaired crates identity s filled m.disk p)))
          (λ client m1 (k, paired).
            Ends-then
              (λ o (m2 : Machine World).
                Found crates identity s m1.disk o m2.disk × (m2.world ≡ m1.world))
              _ _ (on_disk (capability crates identity s)) _ m1
              (on_disk-Ends _ _ (capability crates identity s) m1
                (capability-Ends crates identity s m1.disk))
              (λ o m2 ((same, held), still).
                Ends-then (λ (u : Unit {0}) (m3 : Machine World). Holding client m3.disk) _ _
                  (fetch_if_none crates identity net cfg s client o) (λ u. pure client) m2
                  (fetch-Holding honest client o m2
                    (HasKey-of_entry crates identity s {d = m1.disk} {d' = m2.disk}
                      (ap (λ f. f key) same) k)
                    (IsPaired-of_entry crates identity s {d = m1.disk} {d' = m2.disk}
                      (ap (λ f. f key) same) (ap (λ f. f (capability_path s)) same) paired)
                    (λ g q.
                      Carries-of_entry crates identity s {d = m1.disk} {d' = m2.disk}
                        (ap (λ f. f (capability_path s)) same) (held g q)))
                  (λ u m3 h. h)))
