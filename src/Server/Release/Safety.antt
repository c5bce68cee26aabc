-- ===== src/Server/Release/Safety.antt =====
-- What a pinned release can put into the installer scripts.
use sponsor.Common.{
  ℕ, ◌≡◌, ◌↔◌, refl, true, Option, none, some, all, All, All-append, All-of_all, length, ◌==◌, ◌&&◌,
  arith, subst, sym,
}
use sponsor.Common.Result.{ok, ensure_twice_iff}
use sponsor.Common.Text.{Text, bytes}
use sponsor.Common.Text.Utf8.Ascii.{all-bytes, length-bytes}
use sponsor.Server.Release.{ReleasePin, new_pin, is_release_tag, is_lower_hex, is_ascii_digit}
use sponsor.Server.Release.Tag.{IsTag, IsPre, suffix, core_text, is_release_tag_iff, is_pre_char}

abbrev pub IsDigest : Text → Type 0
IsDigest s = (length s ≡ 64) × (all is_lower_hex s ≡ true)

IsDigest-iff :
    (s : Text) → ((length (bytes s) == 64 && all is_lower_hex (bytes s)) ≡ true) ↔ IsDigest s
IsDigest-iff s =
    let same = all-bytes is_lower_hex (λ b h. ground arith) s in
    let ascii = length-bytes is_lower_hex (λ b h. ground arith) s in ground (arith, same, ascii)

-- A pin is accepted exactly when its tag is a release tag and its digest has 64 lowercase hex
-- digits, and is then stored as given.
pub new_pin_iff :
    (tag sums : Text) (pin : ReleasePin)
    → (new_pin tag sums ≡ ok pin)
      ↔ (IsTag tag × IsDigest sums × (pin ≡ record { tag = tag; sums_sha256 = sums }))
unfolding new_pin
new_pin_iff tag sums pin =
    let checks =
      ensure_twice_iff (is_release_tag tag) _ _ _ (record { tag = tag; sums_sha256 = sums }) pin in
    (
      (λ h.
          let (a, b, same) = checks.0 h in
          ((is_release_tag_iff tag).0 a, (IsDigest-iff sums).0 b, same)),
      λ h. checks.1 ((is_release_tag_iff tag).1 h.0, (IsDigest-iff sums).1 h.1, h.2),
    )

-- Letters, digits, dots and dashes.
abbrev pub IsPlain : ℕ → Type 0
IsPlain c = is_pre_char c ≡ true

number-All-IsPlain : (p : Text) → all is_ascii_digit p ≡ true → All IsPlain p
number-All-IsPlain p h = All-of_all IsPlain is_ascii_digit p (λ c hc. ground arith) h

suffix-All-IsPlain : (pre : Option Text) → IsPre pre → All IsPlain (suffix pre)
suffix-All-IsPlain none h = tt
suffix-All-IsPlain (some p) h = (refl, All-of_all IsPlain is_pre_char p (λ c hc. hc) h.1)

IsTag-All-IsPlain : (tag : Text) → IsTag tag → All IsPlain tag
IsTag-All-IsPlain tag t = subst (All IsPlain) (sym t.shape) (
  refl,
  All-append IsPlain (core_text t.major t.minor t.patch) (suffix t.pre)
      (All-append IsPlain t.major _ (number-All-IsPlain t.major t.major_IsNumber.1) (
        refl,
        All-append IsPlain t.minor _ (number-All-IsPlain t.minor t.minor_IsNumber.1)
            (refl, number-All-IsPlain t.patch t.patch_IsNumber.1),
      ))
      (suffix-All-IsPlain t.pre t.pre_IsPre),
)

-- A release pin that is accepted has only ASCII letters, digits, dots and dashes in its tag and
-- its digest.
pub new_pin-All-IsPlain :
    (tag sums : Text) (pin : ReleasePin)
    → new_pin tag sums ≡ ok pin
    → All IsPlain pin.tag × All IsPlain pin.sums_sha256
new_pin-All-IsPlain tag sums pin h =
    let (is_tag, digest, same) = (new_pin_iff tag sums pin).0 h in
    (
      subst (λ (p : ReleasePin). All IsPlain p.tag) (sym same) (IsTag-All-IsPlain tag is_tag),
      subst (λ (p : ReleasePin). All IsPlain p.sums_sha256) (sym same)
          (All-of_all IsPlain is_lower_hex sums (λ c hc. ground arith) digest.1),
    )
