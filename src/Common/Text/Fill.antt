-- ===== src/Common/Text/Fill.antt =====
-- Templates with placeholders `{{NAME}}`, and what `str::replace` makes of them.
pub mod Template
use Prim.Native.Nat.{ℕ, zero, suc}
use mathlib.Core.Path.{◌≡◌, refl, ap, ◌∙◌}
use mathlib.Core.Logic.{◌≢◌, ◌⊎◌, inl, inr}
use mathlib.Core.Option.{Option, none, some}
use mathlib.Core.List.{List, [], ◌∷◌, ◌++◌, append_assoc}
use native.Mathlib.Omega.{arith}
use sponsor.Common.Tests.{◌==◌, ==_iff, Bool-cases, if◌then◌else◌}
use sponsor.Common.Lists.{All, length, drop}
use sponsor.Common.Text.Split.{strip_prefix, strip_prefix-append, Without}
use sponsor.Common.Text.Replace.{replace, replace_from}

-- No `{{`, and no `{` at the end.
abbrev pub Quiet : List ℕ → Type 0
Quiet [] = Unit
Quiet (c ∷ []) = c ≢ b'{'
Quiet (c ∷ d ∷ s) = ((c ≢ b'{') ⊎ (d ≢ b'{')) × Quiet (d ∷ s)

abbrev pub hole_text : List ℕ → List ℕ
hole_text name = b'{' ∷ b'{' ∷ name ++ b'}' ∷ b'}' ∷ []

replace_from-skip :
    (pattern new p s : List ℕ)
    → replace_from pattern new (length p) (p ++ s) ≡ replace_from pattern new 0 s
unfolding replace_from
replace_from-skip pattern new [] s = refl
replace_from-skip pattern new (c ∷ p) s = replace_from-skip pattern new p s

replace_from-found :
    (c : ℕ) (p new s : List ℕ)
    → replace_from (c ∷ p) new 0 (c ∷ p ++ s) ≡ new ++ replace_from (c ∷ p) new 0 s
unfolding replace_from
replace_from-found c p new s =
    rw (strip_prefix-append (c ∷ p) s, replace_from)
      (ap (λ t. new ++ t) (replace_from-skip (c ∷ p) new p s))

replace_from-other :
    (pattern new : List ℕ) (c : ℕ) (s : List ℕ)
    → strip_prefix pattern (c ∷ s) ≡ none
    → replace_from pattern new 0 (c ∷ s) ≡ c ∷ replace_from pattern new 0 s
unfolding replace_from
replace_from-other pattern new c s h = rw (h, replace_from) refl

-- A placeholder does not begin where two braces do not.
no_brace :
    (p : List ℕ) (c : ℕ) (s : List ℕ) → c ≢ b'{' → strip_prefix (b'{' ∷ b'{' ∷ p) (c ∷ s) ≡ none
unfolding strip_prefix
no_brace p c s h = ground arith

one_brace :
    (p : List ℕ) (c d : ℕ) (s : List ℕ)
    → (c ≢ b'{') ⊎ (d ≢ b'{')
    → strip_prefix (b'{' ∷ b'{' ∷ p) (c ∷ d ∷ s) ≡ none
unfolding strip_prefix
one_brace p c d s h = ground arith

module _ (p new : List ℕ) where
  abbrev scan : List ℕ → List ℕ
  scan = replace_from (b'{' ∷ b'{' ∷ p) new 0

  scan-Quiet : (t s : List ℕ) → Quiet t → scan (t ++ s) ≡ t ++ scan s
  scan-Quiet [] s q = refl
  scan-Quiet (c ∷ []) s q = replace_from-other _ new c s (no_brace p c s q)
  scan-Quiet (c ∷ d ∷ t) s (q, rest) =
      replace_from-other _ new c (d ∷ t ++ s) (one_brace p c d (t ++ s) q)
      ∙ ap (λ r. c ∷ r) (scan-Quiet (d ∷ t) s rest)

abbrev pub IsName : List ℕ → Type 0
IsName n = Without b'{' n × Without b'}' n

-- The placeholder of one name is none of another.
other_name :
    (n m s : List ℕ)
    → Without b'}' n
    → Without b'}' m
    → n ≢ m
    → strip_prefix (n ++ b'}' ∷ b'}' ∷ []) (m ++ b'}' ∷ b'}' ∷ s) ≡ none
unfolding strip_prefix
other_name [] [] s hn hm ne = absurd (ne refl)
other_name [] (d ∷ m) s hn hm ne = ground arith
other_name (c ∷ n) [] s hn hm ne = ground arith
other_name (c ∷ n) (d ∷ m) s hn hm ne = elim (Bool-cases (c == d)) [
  | inl same ↦
      rw (same, strip_prefix) (other_name n m s hn.1 hm.1 (λ e. ne (cc ((==_iff c d).0 same, e))))
  | inr differs ↦ rw (differs, strip_prefix) refl
]

-- What follows the first brace of a placeholder has no two braces.
Quiet-tail : (c : ℕ) (m : List ℕ) → Without b'{' m → Quiet (c ∷ m ++ b'}' ∷ b'}' ∷ [])
Quiet-tail c [] h = (inr (ground arith), (inl (ground arith), ground arith))
Quiet-tail c (d ∷ m) (hd, h) = (inr hd, Quiet-tail d m h)

-- A text that `replace` passes over, up to what follows it.
pub replace-Quiet :
    (n v t s : List ℕ) → Quiet t → replace (hole_text n) v (t ++ s) ≡ t ++ replace (hole_text n) v s
unfolding replace
replace-Quiet n v t s q = scan-Quiet _ v t s q

-- A placeholder of this name.
pub replace-hole :
    (n v s : List ℕ) → replace (hole_text n) v (hole_text n ++ s) ≡ v ++ replace (hole_text n) v s
unfolding replace
replace-hole n v s = replace_from-found b'{' (b'{' ∷ n ++ b'}' ∷ b'}' ∷ []) v s

-- A placeholder of another name.
pub replace-other :
    (n v m s : List ℕ)
    → IsName n
    → IsName m
    → n ≢ m
    → replace (hole_text n) v (hole_text m ++ s) ≡ hole_text m ++ replace (hole_text n) v s
unfolding replace strip_prefix
replace-other n v m s hn hm ne =
    let after : (m ++ b'}' ∷ b'}' ∷ []) ++ s ≡ m ++ b'}' ∷ b'}' ∷ s =
      append_assoc m (b'}' ∷ b'}' ∷ []) s in
    replace_from-other (hole_text n) v b'{' (b'{' ∷ (m ++ b'}' ∷ b'}' ∷ []) ++ s)
      (rw after (other_name n m s hn.1 hm.1 ne))
    ∙ ap (λ r. b'{' ∷ r) (scan-Quiet _ v (b'{' ∷ m ++ b'}' ∷ b'}' ∷ []) s (Quiet-tail b'{' m hm.0))
