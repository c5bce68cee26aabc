-- ===== src/Wrapper/Session/Hash.antt =====
-- What a normalized hash is, and that all three printed forms of a hash are normalized to it.
use sponsor.Common.{
  ℕ, ◌≡◌, ◌⊎◌, inl, inr, refl, sym, ◌∙◌, Bool, true, none, [], ◌∷◌, ◌++◌, ◌&&◌, ◌==◌, all, length,
  All, All-of_all, Option-cases, arith, ap, subst,
}
use sponsor.Common.Result.{Result, ok, ensure, ◌>>◌, bind-eq-ok, ensure-eq-ok}
use sponsor.Common.Text.{Text, lit, bytes}
use sponsor.Common.Text.Trim.{trim, trim_of_IsInk, is_whitespace, IsInk}
use sponsor.Common.Text.Split.{strip_prefix, strip_prefix-eq-some}
use sponsor.Crates.{is_ascii_hexdigit}
use sponsor.Server.Http.Page.Guard.{IsHex, IsHex-test_iff, not-IsHex_of_prefix}
use sponsor.Wrapper.Session.{normalize_hash, to_ascii_lowercase, to_lower, without_tag}

abbrev pub is_lower_digit : ℕ → Bool
is_lower_digit c = is_ascii_hexdigit c && to_lower c == c

-- 64 lowercase hex digits: a name with no separator, dot or space in it.
abbrev pub IsHash : Text → Type 0
IsHash h = (length h ≡ 64) × (all is_lower_digit h ≡ true)

lower_digit : (c : ℕ) → is_ascii_hexdigit (to_lower c) ≡ true → is_lower_digit (to_lower c) ≡ true
unfolding is_ascii_hexdigit
lower_digit c h = ground arith

all_lower :
    (s : Text)
    → all is_ascii_hexdigit (to_ascii_lowercase s) ≡ true
    → all is_lower_digit (to_ascii_lowercase s) ≡ true
unfolding to_ascii_lowercase
all_lower [] h = refl
all_lower (c ∷ s) h = ground (arith, lower_digit c, all_lower s)

lower_of_digits : (s : Text) → all is_lower_digit s ≡ true → to_ascii_lowercase s ≡ s
unfolding to_ascii_lowercase
lower_of_digits [] h = refl
lower_of_digits (c ∷ s) h = ground (arith, lower_of_digits s)

digits_of_lower : (s : Text) → all is_lower_digit s ≡ true → all is_ascii_hexdigit s ≡ true
digits_of_lower [] h = refl
digits_of_lower (c ∷ s) h = ground (arith, digits_of_lower s)

digit-IsInk : (c : ℕ) → is_ascii_hexdigit c ≡ true → IsInk c
unfolding is_ascii_hexdigit is_whitespace
digit-IsInk c h = ground arith

abbrev normalized : Text → Result Text
normalized hex =
    ensure (length (bytes hex) == 64 && all is_ascii_hexdigit (bytes hex))
      "not a BLAKE3 hash (expected 64 hex characters, optionally b3:-prefixed)"
    >> ok hex

normalized-eq-ok : (hex h : Text) → normalized hex ≡ ok h → IsHex 64 hex × (h ≡ hex)
normalized-eq-ok hex h e =
    let (u, checked, same) =
      bind-eq-ok (ensure (length (bytes hex) == 64 && all is_ascii_hexdigit (bytes hex)) _) _ e in
    ((IsHex-test_iff 64 hex).0 (ensure-eq-ok _ _ checked), cc)

normalized_of_IsHex : (hex : Text) → IsHex 64 hex → normalized hex ≡ ok hex
normalized_of_IsHex hex h = rw ((IsHex-test_iff 64 hex).1 h) refl

-- A hash that `normalize_hash` returns, the name of the directory of a download, has 64
-- characters, each a lowercase hex digit.
pub normalize_hash-IsHash : (raw h : Text) → normalize_hash raw ≡ ok h → IsHash h
unfolding normalize_hash
normalize_hash-IsHash raw h e =
    let hex = to_ascii_lowercase (without_tag (trim raw)) in
    let (digits, same) = normalized-eq-ok hex h e in
    rw same (digits.0, all_lower (without_tag (trim raw)) digits.1)

-- The printed forms: bare, after `b3:` and after `0x`.
abbrev pub IsPrinted : Text → Text → Type 0
IsPrinted raw digits = (raw ≡ digits) ⊎ (raw ≡ lit "b3:" ++ digits) ⊎ (raw ≡ lit "0x" ++ digits)

not-IsHex_of_b3 : (n : ℕ) (t : Text) → ¬ IsHex n (lit "b3:" ++ t)
unfolding is_ascii_hexdigit
not-IsHex_of_b3 n t h = cc (h.1)

strip_prefix_of_IsHex :
    (n : ℕ) (p s : Text) → ((t : Text) → ¬ IsHex n (p ++ t)) → IsHex n s → strip_prefix p s ≡ none
strip_prefix_of_IsHex n p s never h = elim (Option-cases (strip_prefix p s)) [
  | inl e ↦ e
  | inr (t, e) ↦ absurd (never t (subst (IsHex n) (strip_prefix-eq-some p s t e) h))
]

without_tag_of_IsPrinted :
    (raw digits : Text) → IsHex 64 digits → IsPrinted raw digits → without_tag raw ≡ digits
unfolding without_tag strip_prefix
without_tag_of_IsPrinted raw digits h (inl bare) =
    rw
      (
        bare,
        strip_prefix_of_IsHex 64 (lit "b3:") digits (not-IsHex_of_b3 64) h,
        strip_prefix_of_IsHex 64 (lit "0x") digits (not-IsHex_of_prefix 64) h,
      )
      refl
without_tag_of_IsPrinted raw digits h (inr (inl tagged)) = rw (tagged) refl
without_tag_of_IsPrinted raw digits h (inr (inr prefixed)) = rw (prefixed) refl

IsInk-of_IsPrinted : (raw digits : Text) → IsHex 64 digits → IsPrinted raw digits → All IsInk raw
unfolding is_whitespace
IsInk-of_IsPrinted raw digits h p =
    let ink = All-of_all IsInk is_ascii_hexdigit digits digit-IsInk h.1 in
    elim p [
      | inl bare ↦ subst (All IsInk) (sym bare) ink
      | inr (inl tagged) ↦ subst (All IsInk) (sym tagged) (refl, (refl, (refl, ink)))
      | inr (inr prefixed) ↦ subst (All IsInk) (sym prefixed) (refl, (refl, ink))
    ]

lower_hex : (c : ℕ) → is_ascii_hexdigit c ≡ true → is_ascii_hexdigit (to_lower c) ≡ true
unfolding is_ascii_hexdigit
lower_hex c h = ground arith

lower-all_hex :
    (s : Text)
    → all is_ascii_hexdigit s ≡ true
    → all is_ascii_hexdigit (to_ascii_lowercase s) ≡ true
unfolding to_ascii_lowercase
lower-all_hex [] h = refl
lower-all_hex (c ∷ s) h = ground (arith, lower_hex c, lower-all_hex s)

length-to_ascii_lowercase : (s : Text) → length (to_ascii_lowercase s) ≡ length s
unfolding to_ascii_lowercase
length-to_ascii_lowercase [] = refl
length-to_ascii_lowercase (c ∷ s) = omega (arith, length-to_ascii_lowercase s)

lower-IsHex : (n : ℕ) (s : Text) → IsHex n s → IsHex n (to_ascii_lowercase s)
lower-IsHex n s (same, digits) = (length-to_ascii_lowercase s ∙ same, lower-all_hex s digits)

-- 64 hex digits are normalized to the same digits in lower case, in each of the three printed
-- forms: bare, after `b3:` and after `0x`.
pub normalize_hash_of_printed :
    (raw digits : Text)
    → IsHex 64 digits
    → IsPrinted raw digits
    → normalize_hash raw ≡ ok (to_ascii_lowercase digits)
unfolding normalize_hash
normalize_hash_of_printed raw digits h p =
    rw
      (
        trim_of_IsInk raw (IsInk-of_IsPrinted raw digits h p),
        without_tag_of_IsPrinted raw digits h p,
      )
      (normalized_of_IsHex (to_ascii_lowercase digits) (lower-IsHex 64 digits h))

-- A normalized hash is normalized to itself.
normalize_hash_again : (raw h : Text) → normalize_hash raw ≡ ok h → normalize_hash h ≡ ok h
normalize_hash_again raw h e =
    let (size, digits) = normalize_hash-IsHash raw h e in
    normalize_hash_of_printed h h (size, digits_of_lower h digits) (inl refl)
    ∙ ap ok (lower_of_digits h digits)
