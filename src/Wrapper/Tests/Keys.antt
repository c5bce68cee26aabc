-- ===== src/Wrapper/Tests/Keys.antt =====
-- Keys that are generated into keystore files, as the tests use them: the sample's JSON is the
-- address alone, and a choice says which address a password belongs to.
use sponsor.Common.{ℕ, ◌≡◌, ◌≢◌, refl, inl, Bool, List, [], ◌∷◌, ◌++◌, some, take, drop, ◌/◌, ◌%◌}
use sponsor.Common.Result.{ok}
use sponsor.Common.Action.{Action, ◌>>◌, pure, Ends, Ends-then}
use sponsor.Common.Text.{Text, lit}
use sponsor.Samples.{sample_crates}
use sponsor.Wrapper.Files.{Disk, file}
use sponsor.Wrapper.Keystore.{read_address}
use sponsor.Wrapper.Keystore.Address.{read_address-eq-ok}
use sponsor.Wrapper.Session.Identity.{Identity}
use sponsor.Wrapper.Session.State.{write_private}
use sponsor.Wrapper.Session.Writes.{Holds, Others, write_private-Ends, join-ne}
use sponsor.Wrapper.Session.Reads.{join-ne_dir}
use sponsor.Wrapper.Config.{join}
use sponsor.Wrapper.Keystore.{starts_with}
use sponsor.Common.Text.Split.{strip_prefix}

abbrev pub key_path : Text → Text
key_path dir = join dir (lit "keystore.json")

module _ (address_for : Text → Bool) where
  abbrev pub generate_for : Text → Text → Bool → Action Disk Bool
  generate_for dir password force = do
    write_private (key_path dir) (sample_crates.hex_of (address_for password))
    pure (address_for password)

  pub states :
      (password path : Text)
      → read_address sample_crates
          (λ (p : Text). ok (sample_crates.hex_of (address_for password)))
          (λ c. ok c)
          (λ c. some c)
          path
        ≡ ok (address_for password)
  states password path =
      let a = address_for password in
      let h = sample_crates.hex_of a in
      read_address-eq-ok sample_crates a (λ p. ok h) (λ c. ok c) (λ c. some c) path h h h refl refl
        refl (inl refl)

  pub generate_for-Ends :
      (dir password : Text) (force : Bool) (d : Disk)
      → Ends
          (λ a d'.
            ((q : Text) → q ≢ key_path dir → d'.entry q ≡ d.entry q)
            × (mode : ℕ) × (content : List ℕ) × (d'.entry (key_path dir) ≡ some (file mode content))
            × (read_address sample_crates
                  (λ (p : Text). ok content)
                  (λ c. ok c)
                  (λ c. some c)
                  (key_path dir)
                ≡ ok a))
          (λ d'. (q : Text) → q ≢ key_path dir → d'.entry q ≡ d.entry q)
          (generate_for dir password force d)
  generate_for-Ends dir password force d =
      let h = sample_crates.hex_of (address_for password) in
      Ends-then (λ (u : Unit {0}) d'. Holds (key_path dir) h d' × Others (key_path dir) d d') _ _
        (write_private (key_path dir) h) (λ u. pure (address_for password)) d
        (write_private-Ends (key_path dir) h d)
        (λ u d' ((mode, held), rest). (rest, mode, h, held, states password (key_path dir)))

pub key_ne_password : (dir : Text) → key_path dir ≢ join dir (lit "password")
unfolding starts_with strip_prefix
key_ne_password dir = join-ne dir (lit "keystore.json") (lit "password") refl refl (λ e. cc)

pub key_ne_capability : (dir : Text) → key_path dir ≢ join dir (lit "capability")
unfolding starts_with strip_prefix
key_ne_capability dir = join-ne dir (lit "keystore.json") (lit "capability") refl refl (λ e. cc)

pub key_ne_dir : (dir : Text) → key_path dir ≢ dir
unfolding starts_with strip_prefix
key_ne_dir dir = join-ne_dir dir (lit "keystore.json") refl (λ e. cc)

abbrev pub identity_for : (List ℕ → Text) → (Text → Bool) → Identity sample_crates
identity_for hex_encode address_for = record {
  Json = List ℕ;
  from_slice = λ c. ok c;
  address_field = λ c. some c;
  hex_encode = hex_encode;
  keystore_path = key_path;
  generate_and_persist = generate_for address_for;
  keystore-ne-password = key_ne_password;
  keystore-ne-capability = key_ne_capability;
  keystore-ne-dir = key_ne_dir;
  generate-Ends = generate_for-Ends address_for;
}

abbrev digit : ℕ → Text
digit n = take 1 (drop n (lit "0123456789abcdef"))

-- `hex::encode`
unfoldable pub hex_digits : List ℕ → Text
hex_digits [] = []
hex_digits (b ∷ secret) = digit (b / 16) ++ (digit (b % 16) ++ hex_digits secret)
