-- ===== src/Common/Text/Trim.antt =====
-- `str::trim`, on code points.
use Prim.Native.Nat.{ℕ}
use mathlib.Core.Path.{◌≡◌, refl, sym}
use mathlib.Core.Bool.{Bool, false, ◌||◌, ◌&&◌}
use mathlib.Core.List.{List, [], ◌∷◌, ◌++◌, reverse, reverse-reverse, reverse-append}
use native.Mathlib.Omega.{arith}
use sponsor.Common.Tests.{leb, ◌==◌, if◌then◌else◌}
use sponsor.Common.Lists.{All, All-reverse}

-- `char::is_whitespace`: the property White_Space.
unfoldable pub is_whitespace : ℕ → Bool
is_whitespace c =
    (leb 0x09 c && leb c 0x0d)
    || c == 0x20
    || c == 0x85
    || c == 0xa0
    || c == 0x1680
    || (leb 0x2000 c && leb c 0x200a)
    || c == 0x2028
    || c == 0x2029
    || c == 0x202f
    || c == 0x205f
    || c == 0x3000

-- `str::trim_start`
unfoldable pub trim_start : List ℕ → List ℕ
trim_start [] = []
trim_start (c ∷ s) = if is_whitespace c then trim_start s else c ∷ s

-- `str::trim`
unfoldable pub trim : List ℕ → List ℕ
unfolding trim_start is_whitespace
trim s = reverse (trim_start (reverse (trim_start s)))

abbrev pub IsInk : ℕ → Type 0
IsInk c = is_whitespace c ≡ false

trim_start_of_IsInk : (s : List ℕ) → All IsInk s → trim_start s ≡ s
unfolding trim_start
trim_start_of_IsInk [] h = refl
trim_start_of_IsInk (c ∷ s) h = ground arith

pub trim_of_IsInk : (s : List ℕ) → All IsInk s → trim s ≡ s
unfolding trim
trim_of_IsInk s h = rw (
  trim_start_of_IsInk s h,
  trim_start_of_IsInk (reverse s) (All-reverse IsInk s h),
  reverse-reverse s,
)

trim_start_of_first : (c : ℕ) (s : List ℕ) → IsInk c → trim_start (c ∷ s) ≡ c ∷ s
unfolding trim_start
trim_start_of_first c s h = ground arith

-- A text that begins and ends in a character that is no white space.
pub trim_of_ends :
    (c d : ℕ) (s : List ℕ) → IsInk c → IsInk d → trim (c ∷ s ++ d ∷ []) ≡ c ∷ s ++ d ∷ []
unfolding trim
trim_of_ends c d s hc hd = rw (trim_start_of_first c (s ++ d ∷ []) hc) (
    rw (reverse-append (c ∷ s) (d ∷ [])) (
      rw (trim_start_of_first d (reverse (c ∷ s)) hd)
        (rw (sym (reverse-append (c ∷ s) (d ∷ []))) (reverse-reverse (c ∷ s ++ d ∷ [])))))
