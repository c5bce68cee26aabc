-- ===== src/Common/Words.antt =====
-- `u64`: its bound, saturating addition and subtraction, and its eight big-endian bytes.
use Prim.Native.Nat.{ℕ, zero, suc, ◌+◌, ◌-◌, ◌*◌, ◌/◌, ◌%◌, ◌^◌, ◌≤◌, ◌<◌}
use mathlib.Core.Path.{◌≡◌, refl, ◌∙◌}
use mathlib.Core.List.{List, [], ◌∷◌, ◌++◌}
use native.Mathlib.Omega.{arith}
use native.Mathlib.Nat.{pow-suc}
use sponsor.Common.Tests.{ltb, if◌then◌else◌}
use sponsor.Common.Lists.{length, length-append, All, All-append}

abbrev pub u64_max : ℕ
u64_max = 2 ^ 64 - 1

abbrev pub IsU64 : ℕ → Type 0
IsU64 n = n ≤ u64_max

-- `u64::saturating_add`
unfoldable pub saturating_add : ℕ → ℕ → ℕ
saturating_add a b = if ltb u64_max (a + b) then u64_max else a + b

pub saturating_add-IsU64 : (a b : ℕ) → IsU64 (saturating_add a b)
unfolding saturating_add
saturating_add-IsU64 a b = ground arith

-- `u64::saturating_sub`: `-` on the native numbers stops at 0 as well.
abbrev pub saturating_sub : ℕ → ℕ → ℕ
saturating_sub a b = a - b

-- The `k` low bytes of `n`, the highest first.
unfoldable pub be_bytes : ℕ → ℕ → List ℕ
be_bytes zero n = []
be_bytes (suc k) n = be_bytes k (n / 256) ++ (n % 256) ∷ []

unfoldable pub from_be_from : ℕ → List ℕ → ℕ
from_be_from acc [] = acc
from_be_from acc (b ∷ bs) = from_be_from (acc * 256 + b) bs

-- `u64::to_be_bytes`
abbrev pub to_be_bytes : ℕ → List ℕ
to_be_bytes n = be_bytes 8 n

-- `u64::from_be_bytes`
abbrev pub from_be_bytes : List ℕ → ℕ
from_be_bytes bs = from_be_from 0 bs

abbrev pub IsByte : ℕ → Type 0
IsByte b = b < 256

pub length-be_bytes : (k n : ℕ) → length (be_bytes k n) ≡ k
unfolding be_bytes
length-be_bytes zero n = refl
length-be_bytes (suc k) n =
    omega
      (arith, length-append (be_bytes k (n / 256)) ((n % 256) ∷ []), length-be_bytes k (n / 256))

pub be_bytes-IsByte : (k n : ℕ) → All IsByte (be_bytes k n)
unfolding be_bytes
be_bytes-IsByte zero n = tt
be_bytes-IsByte (suc k) n =
    All-append IsByte (be_bytes k (n / 256)) _ (be_bytes-IsByte k (n / 256)) (omega arith, tt)

from_be_from-append :
    (acc : ℕ) (xs : List ℕ) (b : ℕ)
    → from_be_from acc (xs ++ b ∷ []) ≡ from_be_from acc xs * 256 + b
unfolding from_be_from
from_be_from-append acc [] b = refl
from_be_from-append acc (x ∷ xs) b = from_be_from-append (acc * 256 + x) xs b

from_be_from-be_bytes : (k n : ℕ) → n < 256 ^ k → from_be_from 0 (be_bytes k n) ≡ n
unfolding from_be_from be_bytes
from_be_from-be_bytes zero n h = omega arith
from_be_from-be_bytes (suc k) n h =
    let low : n < 256 ^ k * 256 = rw pow-suc at h in
    from_be_from-append 0 (be_bytes k (n / 256)) (n % 256)
    ∙ omega (arith, from_be_from-be_bytes k (n / 256) (omega arith))

pub from_be_bytes-to_be_bytes : (n : ℕ) → IsU64 n → from_be_bytes (to_be_bytes n) ≡ n
from_be_bytes-to_be_bytes n h = from_be_from-be_bytes 8 n (omega arith)
