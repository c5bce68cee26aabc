-- ===== src/Server/Http/Page/Guard.antt =====
-- Which clients the page is served for, and what it can put into the page.
use sponsor.Common.{
  ◌≡◌, ◌↔◌, ◌⊎◌, inl, inr, refl, true, ◌∷◌, ◌++◌, none, some, all, length, ◌==◌, ◌&&◌, arith,
  Option-cases, ◌<◌, ℕ,
}
use sponsor.Common.Text.{Text, lit, bytes}
use sponsor.Common.Text.Utf8.Ascii.{all-bytes, length-bytes}
use sponsor.Common.Text.Split.{strip_prefix, strip_prefix-append, strip_prefix-eq-some}
use sponsor.Crates.{Crates, is_ascii_hexdigit}
use sponsor.Server.State.{AppState}
use sponsor.Server.Http.{ok_200, err_json}
use sponsor.Server.Http.Page.{is_hex_of_len, without_prefix, page}

abbrev pub IsHex : ℕ → Text → Type 0
IsHex n s = (length s ≡ n) × (all is_ascii_hexdigit s ≡ true)

hex_ascii : (b : ℕ) → is_ascii_hexdigit b ≡ true → b < 128
unfolding is_ascii_hexdigit
hex_ascii b h = ground arith

pub IsHex-test_iff :
    (n : ℕ) (s : Text)
    → ((length (bytes s) == n && all is_ascii_hexdigit (bytes s)) ≡ true) ↔ IsHex n s
IsHex-test_iff n s =
    let same = all-bytes is_ascii_hexdigit hex_ascii s in
    let ascii = length-bytes is_ascii_hexdigit hex_ascii s in ground (arith, same, ascii)

pub not-IsHex_of_prefix : (n : ℕ) (t : Text) → ¬ IsHex n (b'0' ∷ b'x' ∷ t)
unfolding is_ascii_hexdigit
not-IsHex_of_prefix n t h = cc (h.1)

without_prefix_of_some : (p s t : Text) → strip_prefix p s ≡ some t → without_prefix p s ≡ t
unfolding without_prefix
without_prefix_of_some p s t e = rw (e, without_prefix)

without_prefix_of_none : (p s : Text) → strip_prefix p s ≡ none → without_prefix p s ≡ s
unfolding without_prefix
without_prefix_of_none p s e = rw (e, without_prefix)

module _ (s : Text) (n : ℕ) where
  abbrev Shape : Type 0
  Shape = (digits : Text) × ((s ≡ lit "0x" ++ digits) ⊎ (s ≡ digits)) × IsHex n digits

  Shape-sound : is_hex_of_len s n ≡ true → Shape
  unfolding is_hex_of_len
  Shape-sound h =
      let hex = (IsHex-test_iff n (without_prefix (lit "0x") s)).0 h in
      elim (Option-cases (strip_prefix (lit "0x") s)) [
        | inl e ↦ (s, inr refl, rw (without_prefix_of_none (lit "0x") s e) at hex)
        | inr (t, e) ↦ (
          t,
          inl (strip_prefix-eq-some (lit "0x") s t e),
          rw (without_prefix_of_some (lit "0x") s t e) at hex,
        )
      ]

  -- A text of hex digits has no prefix 0x to strip.
  without_prefix_of_hex : IsHex n s → without_prefix (lit "0x") s ≡ s
  without_prefix_of_hex h = elim (Option-cases (strip_prefix (lit "0x") s)) [
    | inl e ↦ without_prefix_of_none (lit "0x") s e
    | inr (t, e) ↦
        absurd (not-IsHex_of_prefix n t (rw (strip_prefix-eq-some (lit "0x") s t e) at h))
  ]

  Shape-complete : Shape → is_hex_of_len s n ≡ true
  unfolding is_hex_of_len
  Shape-complete (digits, inl e, h) =
      (IsHex-test_iff n (without_prefix (lit "0x") s)).1 (
        rw (e, without_prefix_of_some (lit "0x") _ digits (strip_prefix-append (lit "0x") digits))
          h)
  Shape-complete (digits, inr e, h) =
      let hex : IsHex n s = rw e h in
      (IsHex-test_iff n (without_prefix (lit "0x") s)).1 (rw (without_prefix_of_hex hex) hex)

-- The test `is_hex_of_len` accepts exactly n hex digits, with one `0x` before them or none.
pub is_hex_of_len_iff :
    (s : Text) (n : ℕ)
    → (is_hex_of_len s n ≡ true)
      ↔ ((digits : Text) × ((s ≡ lit "0x" ++ digits) ⊎ (s ≡ digits)) × IsHex n digits)
is_hex_of_len_iff s n = (Shape-sound s n, Shape-complete s n)

-- The page is served exactly for a client of 40 hex digits, with `0x` before them or not; for any
-- other client the status is not 200.
pub page-ok_iff :
    (crates : Crates) {Chain : Type 0} (template : Text) (state : AppState crates Chain)
    (client : Text)
    → ((page crates template state client).status ≡ ok_200)
      ↔ ((digits : Text) × ((client ≡ lit "0x" ++ digits) ⊎ (client ≡ digits)) × IsHex 40 digits)
unfolding page err_json
page-ok_iff crates template state client =
    let guard = is_hex_of_len_iff client 40 in
    (λ h. guard.0 (ground arith), λ h. rw (guard.1 h) refl)
