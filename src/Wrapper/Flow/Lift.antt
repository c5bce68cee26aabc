-- ===== src/Wrapper/Flow/Lift.antt =====
-- An action on one part of the machine leaves the other part.
use sponsor.Common.{◌≡◌, refl}
use sponsor.Common.Result.{Result, ok, err}
use sponsor.Common.Action.{Action, Ends, Succeeds}
use sponsor.Wrapper.Files.{Disk}
use sponsor.Wrapper.Flow.{Machine, on_disk, on_world}

-- An action on the disk or on the world, as one on the machine.
module _ {World A : Type 0} where
  pub on_disk-Ends :
      (Good : A → Disk → Type 0) (Bad : Disk → Type 0) (act : Action Disk A) (m : Machine World)
      → Ends Good Bad (act m.disk)
      → Ends
          (λ a (m' : Machine World). Good a m'.disk × (m'.world ≡ m.world))
          (λ (m' : Machine World). Unit {0})
          (on_disk act m)
  on_disk-Ends Good Bad act m h = from (act m.disk).0 (act m.disk).1 h
    where
      from :
          (r : Result A) (d : Disk)
          → Ends Good Bad (r, d)
          → Ends
              (λ a (m' : Machine World). Good a m'.disk × (m'.world ≡ m.world))
              (λ (m' : Machine World). Unit {0})
              (r, record { disk = d; world = m.world })
      from (ok a) d g = (g, refl)
      from (err e) d g = tt

  pub on_world-Ends :
      (Good : A → World → Type 0) (Bad : World → Type 0) (act : Action World A) (m : Machine World)
      → Ends Good Bad (act m.world)
      → Ends
          (λ a (m' : Machine World). Good a m'.world × (m'.disk ≡ m.disk))
          (λ (m' : Machine World). Unit {0})
          (on_world act m)
  on_world-Ends Good Bad act m h = from (act m.world).0 (act m.world).1 h
    where
      from :
          (r : Result A) (w : World)
          → Ends Good Bad (r, w)
          → Ends
              (λ a (m' : Machine World). Good a m'.world × (m'.disk ≡ m.disk))
              (λ (m' : Machine World). Unit {0})
              (r, record { disk = m.disk; world = w })
      from (ok a) d g = (g, refl)
      from (err e) d g = tt

-- The same for an action that succeeds.
module _ {World A : Type 0} where
  pub on_disk-Succeeds :
      (Good : A → Disk → Type 0) (act : Action Disk A) (m : Machine World)
      → Succeeds Good (act m.disk)
      → Succeeds (λ a (m' : Machine World). Good a m'.disk × (m'.world ≡ m.world)) (on_disk act m)
  on_disk-Succeeds Good act m h = from (act m.disk).0 (act m.disk).1 h
    where
      from :
          (r : Result A) (d : Disk)
          → Succeeds Good (r, d)
          → Succeeds
              (λ a (m' : Machine World). Good a m'.disk × (m'.world ≡ m.world))
              (r, record { disk = d; world = m.world })
      from (ok a) d g = (g, refl)
      from (err e) d g = g

  pub on_world-Succeeds :
      (Good : A → World → Type 0) (act : Action World A) (m : Machine World)
      → Succeeds Good (act m.world)
      → Succeeds (λ a (m' : Machine World). Good a m'.world × (m'.disk ≡ m.disk)) (on_world act m)
  on_world-Succeeds Good act m h = from (act m.world).0 (act m.world).1 h
    where
      from :
          (r : Result A) (w : World)
          → Succeeds Good (r, w)
          → Succeeds
              (λ a (m' : Machine World). Good a m'.world × (m'.disk ≡ m.disk))
              (r, record { disk = m.disk; world = w })
      from (ok a) w g = (g, refl)
      from (err e) w g = g
