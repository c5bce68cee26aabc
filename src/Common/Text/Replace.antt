-- ===== src/Common/Text/Replace.antt =====
-- `str::replace`: from the left, each occurrence that does not overlap the one before it.
use Prim.Native.Nat.{ℕ, zero, suc}
use mathlib.Core.Option.{none, some}
use mathlib.Core.List.{List, [], ◌∷◌, ◌++◌}
use sponsor.Common.Lists.{length, drop}
use sponsor.Common.Text.Split.{strip_prefix}

-- `skip` counts the characters of an occurrence that are still to be passed over.
unfoldable pub replace_from : List ℕ → List ℕ → ℕ → List ℕ → List ℕ
replace_from pattern new skip [] = []
replace_from pattern new (suc k) (c ∷ s) = replace_from pattern new k s
replace_from pattern new zero (c ∷ s) =
    let found = new ++ replace_from pattern new (length (drop 1 pattern)) s in
    let other = c ∷ replace_from pattern new zero s in
    elim (strip_prefix pattern (c ∷ s)) [ none ↦ other | some rest ↦ found ]

-- `s.replace(pattern, new)`, for a pattern that is not empty.
unfoldable pub replace : List ℕ → List ℕ → List ℕ → List ℕ
unfolding replace_from strip_prefix
replace pattern new s = replace_from pattern new 0 s
