-- ===== src/Common/Text/Split.antt =====
-- `strip_prefix`, `split_once` and `split` of `str`, for a character that is one code point.
use mathlib.Core.Path.{◌≡◌, refl, ap}
use mathlib.Core.Logic.{◌≢◌, inl, inr}
use mathlib.Core.Option.{Option, none, some}
use mathlib.Core.List.{List, [], ◌∷◌, ◌++◌}
use Prim.Native.Nat.{ℕ}
use native.Mathlib.Omega.{arith}
use sponsor.Common.Tests.{◌==◌, ==_iff, Bool-cases, if◌then◌else◌}
use sponsor.Common.Lists.{All}

-- `str::strip_prefix`
unfoldable pub strip_prefix : List ℕ → List ℕ → Option (List ℕ)
strip_prefix [] s = some s
strip_prefix (c ∷ p) [] = none
strip_prefix (c ∷ p) (d ∷ s) = if c == d then strip_prefix p s else none

abbrev before : ℕ → Option (List ℕ × List ℕ) → Option (List ℕ × List ℕ)
before c none = none
before c (some (a, b)) = some (c ∷ a, b)

-- `str::split_once`
unfoldable pub split_once : ℕ → List ℕ → Option (List ℕ × List ℕ)
split_once sep [] = none
split_once sep (c ∷ s) = if c == sep then some ([], s) else before c (split_once sep s)

abbrev to_first : ℕ → List (List ℕ) → List (List ℕ)
to_first c [] = (c ∷ []) ∷ []
to_first c (p ∷ ps) = (c ∷ p) ∷ ps

-- `str::split(sep).collect()`
unfoldable pub split : ℕ → List ℕ → List (List ℕ)
split sep [] = [] ∷ []
split sep (c ∷ s) = let rest = split sep s in if c == sep then [] ∷ rest else to_first c rest

abbrev pub Without : ℕ → List ℕ → Type 0
Without sep = All (λ c. c ≢ sep)

pub strip_prefix-eq-some : (p s t : List ℕ) → strip_prefix p s ≡ some t → s ≡ p ++ t
unfolding strip_prefix
strip_prefix-eq-some [] s t h = ground arith
strip_prefix-eq-some (c ∷ p) [] t h = ground arith
strip_prefix-eq-some (c ∷ p) (d ∷ s) t h = ground (arith, strip_prefix-eq-some p s t)

pub strip_prefix-append : (p t : List ℕ) → strip_prefix p (p ++ t) ≡ some t
unfolding strip_prefix
strip_prefix-append [] t = refl
strip_prefix-append (c ∷ p) t = ground (arith, strip_prefix-append p t)

pub split_once-eq-some :
    (sep : ℕ) (s a b : List ℕ) → split_once sep s ≡ some (a, b) → (s ≡ a ++ sep ∷ b) × Without sep a
unfolding split_once
split_once-eq-some sep [] a b h = ground arith
split_once-eq-some sep (c ∷ s) [] b h = ground arith
split_once-eq-some sep (c ∷ s) (x ∷ a) b h = ground (arith, split_once-eq-some sep s a b)

pub split_once-eq-none : (sep : ℕ) (s : List ℕ) → split_once sep s ≡ none → Without sep s
unfolding split_once
split_once-eq-none sep [] h = tt
split_once-eq-none sep (c ∷ s) h = ground (arith, split_once-eq-none sep s)

pub split_once_of_Without : (sep : ℕ) (s : List ℕ) → Without sep s → split_once sep s ≡ none
unfolding split_once
split_once_of_Without sep [] h = refl
split_once_of_Without sep (c ∷ s) h = ground (arith, split_once_of_Without sep s h.1)

pub split_once-append :
    (sep : ℕ) (a b : List ℕ) → Without sep a → split_once sep (a ++ sep ∷ b) ≡ some (a, b)
unfolding split_once
split_once-append sep [] b h = ground arith
split_once-append sep (c ∷ a) b h = ground (arith, split_once-append sep a b h.1)

-- The text that `split` came from.
unfoldable pub join : ℕ → List (List ℕ) → List ℕ
join sep [] = []
join sep (p ∷ []) = p
join sep (p ∷ q ∷ ps) = p ++ sep ∷ join sep (q ∷ ps)

join-cons_first : (sep c : ℕ) (ps : List (List ℕ)) → join sep (to_first c ps) ≡ c ∷ join sep ps
unfolding join
join-cons_first sep c [] = refl
join-cons_first sep c (p ∷ []) = refl
join-cons_first sep c (p ∷ q ∷ ps) = refl

split-ne-nil : (sep : ℕ) (s : List ℕ) → split sep s ≢ []
unfolding split
split-ne-nil sep [] = cc
split-ne-nil sep (c ∷ s) = elim (Bool-cases (c == sep)) [
  | inl same ↦ rw (same) (cc)
  | inr other ↦ rw (other) (ne (split sep s))
]
  where
    ne : (ps : List (List ℕ)) → to_first c ps ≢ []
    ne [] = cc
    ne (p ∷ ps) = cc

join-nil_cons : (sep : ℕ) (ps : List (List ℕ)) → ps ≢ [] → join sep ([] ∷ ps) ≡ sep ∷ join sep ps
unfolding join
join-nil_cons sep [] h = absurd (h refl)
join-nil_cons sep (p ∷ ps) h = refl

pub join-split : (sep : ℕ) (s : List ℕ) → join sep (split sep s) ≡ s
unfolding split
join-split sep [] = unfold join in refl
join-split sep (c ∷ s) = elim (Bool-cases (c == sep)) [
  | inl same ↦
      rw (same, join-nil_cons sep (split sep s) (split-ne-nil sep s))
        (cc ((==_iff c sep).0 same, join-split sep s))
  | inr other ↦ rw (other, join-cons_first sep c (split sep s)) (ap (λ t. c ∷ t) (join-split sep s))
]

pub split_of_Without : (sep : ℕ) (s : List ℕ) → Without sep s → split sep s ≡ s ∷ []
unfolding split
split_of_Without sep [] h = refl
split_of_Without sep (c ∷ s) h = ground (arith, split_of_Without sep s h.1)

pub split-append :
    (sep : ℕ) (a s : List ℕ) → Without sep a → split sep (a ++ sep ∷ s) ≡ a ∷ split sep s
unfolding split
split-append sep [] s h = ground arith
split-append sep (c ∷ a) s h = ground (arith, split-append sep a s h.1)
