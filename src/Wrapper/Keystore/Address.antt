-- ===== src/Wrapper/Keystore/Address.antt =====
-- Which address a keystore file is read as.
use sponsor.Common.{◌≢◌, ◌↔◌, ◌++◌, ◌≡◌, ◌⊎◌, inl, inr, refl, Option, some, none, Option-cases}
use sponsor.Common.Result.{Result, ok, ok_or, ok_or-eq-ok, bind-eq-ok}
use sponsor.Common.Text.{Text, lit}
use sponsor.Common.Text.Split.{strip_prefix, strip_prefix-eq-some, strip_prefix-append}
use sponsor.Crates.{Crates}
use sponsor.Server.Http.Page.Guard.{IsHex, not-IsHex_of_prefix}
use sponsor.Wrapper.Keystore.{starts_with, with_prefix, read_address}
use sponsor.Common.{subst, sym, true, false}

starts_with_of_some : (s p t : Text) → strip_prefix p s ≡ some t → starts_with s p ≡ true
unfolding starts_with
starts_with_of_some s p t e = rw (e, starts_with) refl

starts_with_of_none : (s p : Text) → strip_prefix p s ≡ none → starts_with s p ≡ false
unfolding starts_with
starts_with_of_none s p e = rw (e, starts_with) refl

module _ (crates : Crates) (a : crates.Address) where
  open crates use {Address, parse_address, show_address, hex_of}

  starts_with_of_hex : starts_with (hex_of a) (lit "0x") ≡ false
  starts_with_of_hex = elim (Option-cases (strip_prefix (lit "0x") (hex_of a))) [
    | inl e ↦ starts_with_of_none (hex_of a) (lit "0x") e
    | inr (t, e) ↦ absurd (
        not-IsHex_of_prefix 40 t (
          subst (IsHex 40) (strip_prefix-eq-some (lit "0x") (hex_of a) t e)
            (crates.hex_length a, crates.hex_digits a)))
  ]

  with_prefix_of_address :
      (raw : Text) → (raw ≡ hex_of a) ⊎ (raw ≡ show_address a) → with_prefix raw ≡ show_address a
  unfolding with_prefix starts_with strip_prefix
  with_prefix_of_address raw (inl bare) = rw (bare, starts_with_of_hex) (sym (crates.show_hex a))
  with_prefix_of_address raw (inr shown) = rw (shown, crates.show_hex a) refl

  module _ {Bytes Json : Type 0} (read : Text → Result Bytes) (from_slice : Bytes → Result Json)
      (address_field : Json → Option Text) where
    -- A file that states the digits of an address, as it is printed, with `0x` or without.
    pub read_address-eq-ok :
        (path : Text) (raw_bytes : Bytes) (json : Json) (raw : Text)
        → read path ≡ ok raw_bytes
        → from_slice raw_bytes ≡ ok json
        → address_field json ≡ some raw
        → (raw ≡ hex_of a) ⊎ (raw ≡ show_address a)
        → read_address crates read from_slice address_field path ≡ ok a
    unfolding read_address
    read_address-eq-ok path raw_bytes json raw r s f h =
        rw (r, s) (rw (f, with_prefix_of_address raw h) (crates.parse-show a))

strips : (raw rest : Text) → raw ≡ lit "0x" ++ rest → strip_prefix (lit "0x") raw ≡ some rest
strips raw rest q = rw q (strip_prefix-append (lit "0x") rest)

without_of_none :
    (raw : Text) → strip_prefix (lit "0x") raw ≡ none → (rest : Text) → raw ≢ lit "0x" ++ rest
without_of_none raw e rest q = cc (e, strips raw rest q)

with_prefix_of_none :
    (raw : Text) → strip_prefix (lit "0x") raw ≡ none → with_prefix raw ≡ lit "0x" ++ raw
unfolding with_prefix
with_prefix_of_none raw e = rw (starts_with_of_none raw (lit "0x") e) refl

with_prefix_of_some : (raw t : Text) → strip_prefix (lit "0x") raw ≡ some t → with_prefix raw ≡ raw
unfolding with_prefix
with_prefix_of_some raw t e = rw (starts_with_of_some raw (lit "0x") t e) refl

-- `raw` stands for an address: it begins with 0x and is parsed as it is, or does not, and 0x is
-- put before it.
pub data IsStated (crates : Crates) (a : crates.Address) (raw : Text) : Type 0 where
  prefixed :
      (rest : Text)
      → raw ≡ lit "0x" ++ rest
      → crates.parse_address raw ≡ ok a
      → IsStated crates a raw
  bare :
      ((rest : Text) → raw ≢ lit "0x" ++ rest)
      → crates.parse_address (lit "0x" ++ raw) ≡ ok a
      → IsStated crates a raw

module _ (crates : Crates) (a : crates.Address) where
  open crates use {parse_address}

  stated :
      (raw : Text)
      → (strip_prefix (lit "0x") raw ≡ none) ⊎ ((t : Text) × (strip_prefix (lit "0x") raw ≡ some t))
      → parse_address (with_prefix raw) ≡ ok a
      → IsStated crates a raw
  stated raw (inl e) h =
      bare (λ rest q. without_of_none raw e rest q) (rw (with_prefix_of_none raw e) at h)
  stated raw (inr (t, e)) h =
      prefixed t (strip_prefix-eq-some (lit "0x") raw t e) (rw (with_prefix_of_some raw t e) at h)

  parsed_of_stated : (raw : Text) → IsStated crates a raw → parse_address (with_prefix raw) ≡ ok a
  parsed_of_stated raw (prefixed rest q h) = rw (with_prefix_of_some raw rest (strips raw rest q)) h
  parsed_of_stated raw (bare none_such h) = elim (Option-cases (strip_prefix (lit "0x") raw)) [
    | inl e ↦ rw (with_prefix_of_none raw e) h
    | inr (t, e) ↦ absurd (none_such t (strip_prefix-eq-some (lit "0x") raw t e))
  ]

  parsed_iff : (raw : Text) → (parse_address (with_prefix raw) ≡ ok a) ↔ IsStated crates a raw
  parsed_iff raw = (stated raw (Option-cases (strip_prefix (lit "0x") raw)), parsed_of_stated raw)

  -- `read_address` returns an address exactly when the keystore file is read, is JSON, its address
  -- field holds a text, and the text begins with `0x` and is parsed as this address, or does not
  -- and is parsed as this address behind `0x`.
  pub read_address-ok_iff :
      {Bytes Json : Type 0} (read : Text → Result Bytes) (from_slice : Bytes → Result Json)
      (address_field : Json → Option Text) (path : Text)
      → (read_address crates read from_slice address_field path ≡ ok a) ↔ (
          (raw_bytes : Bytes) × (json : Json) × (raw : Text) × (read path ≡ ok raw_bytes)
          × (from_slice raw_bytes ≡ ok json)
          × (address_field json ≡ some raw)
          × IsStated crates a raw)
  unfolding read_address
  read_address-ok_iff read from_slice address_field path = (
    λ h.
        let (raw_bytes, r, h1) = bind-eq-ok (read path) _ h in
        let (json, s, h2) = bind-eq-ok (from_slice raw_bytes) _ h1 in
        let (raw, f, h3) =
          bind-eq-ok (ok_or (address_field json) "keystore missing address field") _ h2 in
        (raw_bytes, json, raw, r, s, ok_or-eq-ok (address_field json) _ f, (parsed_iff raw).0 h3),
    λ (raw_bytes, json, raw, r, s, f, h). rw (r, s) (rw f ((parsed_iff raw).1 h)),
  )
