-- ===== src/Common/Text/Fill/Template.antt =====
-- A template as its pieces, and all its placeholders filled at once.
use Prim.Native.Nat.{ℕ}
use mathlib.Core.Path.{◌≡◌, refl, ap, ◌∙◌}
use mathlib.Core.Logic.{inl, inr}
use mathlib.Core.Option.{Option, none, some}
use mathlib.Core.List.{List, [], ◌∷◌, ◌++◌, map}
use sponsor.Common.Tests.{Bool-cases, if◌then◌else◌}
use sponsor.Common.Lists.{All}
use sponsor.Common.Text.{text_eq}
use sponsor.Common.Text.Compare.{text_eq_iff, text_eq_self}
use sponsor.Common.Text.Replace.{replace}
use sponsor.Common.Text.Fill.{Quiet, IsName, hole_text, replace-Quiet, replace-hole, replace-other}

pub data Piece : Type 0 where
  text : List ℕ → Piece
  hole : List ℕ → Piece

abbrev pub IsPiece : Piece → Type 0
IsPiece (text t) = Quiet t
IsPiece (hole name) = IsName name

abbrev pub source_of : Piece → List ℕ
source_of (text t) = t
source_of (hole name) = hole_text name

abbrev pub write : (Piece → List ℕ) → List Piece → List ℕ
write f [] = []
write f (p ∷ ps) = f p ++ write f ps

-- The values, by name.
abbrev pub find_value : List ℕ → List (List ℕ × List ℕ) → Option (List ℕ)
find_value name [] = none
find_value name ((n, v) ∷ vs) = if text_eq name n then some v else find_value name vs

abbrev pub or_hole : List ℕ → Option (List ℕ) → List ℕ
or_hole name none = hole_text name
or_hole name (some v) = v

-- A piece with the values in place: a placeholder without a value stays.
abbrev pub filled : List (List ℕ × List ℕ) → Piece → List ℕ
filled vs (text t) = t
filled vs (hole name) = or_hole name (find_value name vs)

-- One `replace` after the other.
abbrev pub replace_all : List (List ℕ × List ℕ) → List ℕ → List ℕ
replace_all [] s = s
replace_all ((n, v) ∷ vs) s = replace_all vs (replace (hole_text n) v s)

-- One placeholder filled.
abbrev fill_one : List ℕ → List ℕ → Piece → Piece
fill_one n v (text t) = text t
fill_one n v (hole name) = if text_eq name n then text v else hole name

module _ (n v : List ℕ) (hn : IsName n) where
  replace-source :
      (p : Piece) (s : List ℕ)
      → IsPiece p
      → replace (hole_text n) v (source_of p ++ s)
        ≡ source_of (fill_one n v p) ++ replace (hole_text n) v s
  replace-source (text t) s h = replace-Quiet n v t s h
  replace-source (hole name) s h = elim (Bool-cases (text_eq name n)) [
    | inl same ↦ rw (same, (text_eq_iff name n).0 same) (replace-hole n v s)
    | inr other ↦ rw other (replace-other n v name s hn h (λ e. cc (other, e, text_eq_self n)))
  ]

  replace-write :
      (ps : List Piece)
      → All IsPiece ps
      → replace (hole_text n) v (write source_of ps) ≡ write source_of (map (fill_one n v) ps)
  unfolding replace
  replace-write [] h = refl
  replace-write (p ∷ ps) (hp, h) =
      replace-source p (write source_of ps) hp
      ∙ ap (λ r. source_of (fill_one n v p) ++ r) (replace-write ps h)

  IsPiece-fill_one : Quiet v → (p : Piece) → IsPiece p → IsPiece (fill_one n v p)
  IsPiece-fill_one q (text t) h = h
  IsPiece-fill_one q (hole name) h = elim (Bool-cases (text_eq name n)) [
    | inl same ↦ rw same q
    | inr other ↦ rw other h
  ]

  All-IsPiece-fill_one :
      Quiet v → (ps : List Piece) → All IsPiece ps → All IsPiece (map (fill_one n v) ps)
  All-IsPiece-fill_one q [] h = tt
  All-IsPiece-fill_one q (p ∷ ps) (hp, h) = (IsPiece-fill_one q p hp, All-IsPiece-fill_one q ps h)

  filled-fill_one :
      (vs : List (List ℕ × List ℕ)) (p : Piece)
      → filled vs (fill_one n v p) ≡ filled ((n, v) ∷ vs) p
  filled-fill_one vs (text t) = refl
  filled-fill_one vs (hole name) = elim (Bool-cases (text_eq name n)) [
    | inl same ↦ rw same refl
    | inr other ↦ rw other refl
  ]

  write-fill_one :
      (vs : List (List ℕ × List ℕ)) (ps : List Piece)
      → write (filled vs) (map (fill_one n v) ps) ≡ write (filled ((n, v) ∷ vs)) ps
  write-fill_one vs [] = refl
  write-fill_one vs (p ∷ ps) = cc (filled-fill_one vs p, write-fill_one vs ps)

-- Replacing one placeholder after the other fills all at once, where no value brings braces in.
pub replace_all-write :
    (vs : List (List ℕ × List ℕ)) (ps : List Piece)
    → All (λ (kv : List ℕ × List ℕ). IsName kv.0 × Quiet kv.1) vs
    → All IsPiece ps
    → replace_all vs (write source_of ps) ≡ write (filled vs) ps
replace_all-write [] ps hv h = write_source ps
  where
    write_source : (ps : List Piece) → write source_of ps ≡ write (filled []) ps
    write_source [] = refl
    write_source (text t ∷ ps) = ap (λ r. t ++ r) (write_source ps)
    write_source (hole name ∷ ps) = ap (λ r. hole_text name ++ r) (write_source ps)
replace_all-write ((n, v) ∷ vs) ps ((hn, q), hv) h =
    ap (replace_all vs) (replace-write n v hn ps h)
    ∙ replace_all-write vs (map (fill_one n v) ps) hv (All-IsPiece-fill_one n v hn q ps h)
    ∙ write-fill_one n v hn vs ps
