-- ===== src/Common/Text/Number.antt =====
-- `u64::from_str` and `u64::to_string`.
use Prim.Native.Nat.{ℕ, zero, suc, ◌+◌, ◌-◌, ◌*◌, ◌/◌, ◌%◌}
use mathlib.Core.Bool.{◌&&◌}
use mathlib.Core.Path.{◌≡◌}
use mathlib.Core.List.{List, [], ◌∷◌, ◌++◌}
use native.Mathlib.Omega.{arith}
use sponsor.Common.Tests.{ltb, leb, ◌==◌, if◌then◌else◌}
use sponsor.Common.Result.{Result, ok, err}
use sponsor.Common.Words.{u64_max, IsU64}

-- The digits so far make `n`; a digit is refused, and so is a number past `u64::MAX`.
unfoldable pub parse_digits : ℕ → List ℕ → Result ℕ
parse_digits n [] = ok n
parse_digits n (c ∷ s) =
    let rest = parse_digits (n * 10 + (c - b'0')) s in
    if leb b'0' c && leb c b'9'
    then (if ltb u64_max (n * 10 + (c - b'0')) then err "number too large" else rest)
    else err "invalid digit"

abbrev parse_some : List ℕ → Result ℕ
parse_some [] = err "invalid digit"
parse_some (c ∷ s) = parse_digits 0 (c ∷ s)

-- `str::parse::<u64>`: one `+` may lead.
unfoldable pub parse_u64 : List ℕ → Result ℕ
unfolding parse_digits
parse_u64 [] = err "cannot parse integer from empty string"
parse_u64 (c ∷ s) = if c == b'+' then parse_some s else parse_digits 0 (c ∷ s)

parse_digits-IsU64 : (n m : ℕ) (s : List ℕ) → IsU64 n → parse_digits n s ≡ ok m → IsU64 m
unfolding parse_digits
parse_digits-IsU64 n m [] h e = ground arith
parse_digits-IsU64 n m (c ∷ s) h e = ground (arith, parse_digits-IsU64 (n * 10 + (c - b'0')) m s)

parse_some-IsU64 : (s : List ℕ) (n : ℕ) → parse_some s ≡ ok n → IsU64 n
parse_some-IsU64 [] n h = cc
parse_some-IsU64 (c ∷ s) n h = parse_digits-IsU64 0 n (c ∷ s) (omega arith) h

-- A number that is read fits 64 bits.
pub parse_u64-IsU64 : (s : List ℕ) (n : ℕ) → parse_u64 s ≡ ok n → IsU64 n
unfolding parse_u64
parse_u64-IsU64 [] n h = cc
parse_u64-IsU64 (c ∷ s) n h = ground (arith, parse_some-IsU64 s n, parse_digits-IsU64 0 n (c ∷ s))

-- The decimal digits of `n`, on fuel; twenty digits hold every 64-bit number.
unfoldable pub show_from : ℕ → ℕ → List ℕ
show_from zero n = []
show_from (suc k) n =
    let above = show_from k (n / 10) in
    if ltb n 10 then (b'0' + n) ∷ [] else above ++ (b'0' + n % 10) ∷ []

-- `u64::to_string`
unfoldable pub show_u64 : ℕ → List ℕ
unfolding show_from
show_u64 n = show_from 20 n
