-- ===== src/Common/Text/Utf8/Ascii.antt =====
-- A test that only ASCII bytes pass, over the bytes of a text and over its code points.
use Prim.Native.Nat.{ℕ, suc, ◌+◌, ◌/◌, ◌<◌, ◌≤◌}
use mathlib.Core.Bool.{Bool, true, false, ◌&&◌}
use mathlib.Core.Path.{◌≡◌, refl}
use mathlib.Core.Logic.{inl, inr}
use mathlib.Core.List.{List, [], ◌∷◌, ◌++◌}
use native.Mathlib.Omega.{arith}
use sponsor.Common.Tests.{Bool-cases}
use sponsor.Common.Lists.{all, length}
use sponsor.Common.Text.Utf8.{char_bytes, bytes}

module _ (p : ℕ → Bool) (ascii : (b : ℕ) → p b ≡ true → b < 128) where
  fails : (b : ℕ) → 128 ≤ b → p b ≡ false
  fails b h = elim (Bool-cases (p b)) [
    | inl passes ↦ absurd (omega (arith, ascii b passes))
    | inr not_passed ↦ not_passed
  ]

  all-char_bytes : (c : ℕ) (bs : List ℕ) → all p (char_bytes c ++ bs) ≡ (p c && all p bs)
  unfolding char_bytes
  all-char_bytes c bs =
      ground
        (arith, fails c, fails (0xc0 + c / 64), fails (0xe0 + c / 4096), fails (0xf0 + c / 262144))

  pub all-bytes : (s : List ℕ) → all p (bytes s) ≡ all p s
  unfolding bytes
  all-bytes [] = refl
  all-bytes (c ∷ s) = ground (arith, all-char_bytes c (bytes s), all-bytes s)

  length-char_bytes :
      (c : ℕ) (bs : List ℕ)
      → all p (char_bytes c ++ bs) ≡ true
      → length (char_bytes c ++ bs) ≡ suc (length bs)
  unfolding char_bytes
  length-char_bytes c bs h =
      ground
        (arith, fails c, fails (0xc0 + c / 64), fails (0xe0 + c / 4096), fails (0xf0 + c / 262144))

  -- A text all of whose bytes pass has as many bytes as characters.
  pub length-bytes : (s : List ℕ) → all p (bytes s) ≡ true → length (bytes s) ≡ length s
  unfolding bytes
  length-bytes [] h = refl
  length-bytes (c ∷ s) h =
      ground (arith, length-char_bytes c (bytes s) h, all-char_bytes c (bytes s), length-bytes s)
