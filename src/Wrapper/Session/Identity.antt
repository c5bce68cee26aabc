-- ===== src/Wrapper/Session/Identity.antt =====
-- What the session takes from crates outside the repository: keystore files (decdn_incentive's
-- `eth_identity`), their JSON (serde_json), random bytes (getrandom) and their digits (hex).
use sponsor.Common.{ℕ, ◌≡◌, ◌≢◌, Bool, List, Option}
use sponsor.Common.Result.{Result, ok}
use sponsor.Common.Action.{Action, Ends}
use sponsor.Common.Text.{Text, lit}
use sponsor.Crates.{Crates}
use sponsor.Wrapper.Config.{join}
use sponsor.Wrapper.Files.{Disk, file}
use sponsor.Wrapper.Keystore.{read_address}

pub record Identity (crates : Crates) : Type 1 where
  pub Json : Type 0
  pub from_slice : List ℕ → Result Json
  pub address_field : Json → Option Text
  pub hex_encode : List ℕ → Text
  pub keystore_path : Text → Text
  pub generate_and_persist : Text → Text → Bool → Action Disk crates.Address
  -- The keystore has a name of its own in its directory.
  pub keystore-ne-password : (dir : Text) → keystore_path dir ≢ join dir (lit "password")
  pub keystore-ne-capability : (dir : Text) → keystore_path dir ≢ join dir (lit "capability")
  pub keystore-ne-dir : (dir : Text) → keystore_path dir ≢ dir
  -- Generating a key touches the keystore file only, and returns the address that it states.
  pub generate-Ends :
      (dir password : Text) (force : Bool) (d : Disk)
      → Ends
          (λ a d'.
            ((q : Text) → q ≢ keystore_path dir → d'.entry q ≡ d.entry q)
            × (mode : ℕ) × (content : List ℕ) × (d'.entry (keystore_path dir)
                ≡ Option.some (file mode content))
            × (read_address crates
                  (λ (p : Text). ok content)
                  from_slice
                  address_field
                  (keystore_path dir)
                ≡ ok a))
          (λ d'. (q : Text) → q ≢ keystore_path dir → d'.entry q ≡ d.entry q)
          (generate_and_persist dir password force d)
