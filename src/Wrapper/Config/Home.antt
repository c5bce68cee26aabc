-- ===== src/Wrapper/Config/Home.antt =====
-- What a path of the profile is expanded to.
use sponsor.Common.{
  String, ◌≡◌, ◌≢◌, ◌⊎◌, inl, inr, refl, Option, none, some, ◌∷◌, [], ◌++◌, ◌&&◌, ◌==◌, ==_iff,
  &&-eq-true, Bool-cases, subst, sym, arith,
}
use sponsor.Common.Result.{Result, ok, err}
use sponsor.Common.Text.{Text, lit, text_eq}
use sponsor.Common.Text.Split.{strip_prefix}
use sponsor.Wrapper.Keystore.{starts_with}
use sponsor.Wrapper.Config.{expand_home, join}

-- A path is one of these: the home directory alone, a path below it, or neither.
pub data Expanded (home_dir : Option Text) (s : Text) (r : Result Text) : Type 0 where
  whole :
      (base : Text)
      → s ≡ lit "~"
      → home_dir ≡ some base
      → r ≡ ok (join base [])
      → Expanded home_dir s r
  below :
      (base rest : Text)
      → s ≡ lit "~/" ++ rest
      → home_dir ≡ some base
      → r ≡ ok (join base rest)
      → Expanded home_dir s r
  homeless :
      (e : String)
      → (s ≡ lit "~") ⊎ ((rest : Text) × (s ≡ lit "~/" ++ rest))
      → home_dir ≡ none
      → r ≡ err e
      → Expanded home_dir s r
  as_given : s ≢ lit "~" → ((rest : Text) → s ≢ lit "~/" ++ rest) → r ≡ ok s → Expanded home_dir s r

at_home : (h : Option Text) → Expanded h (lit "~") (expand_home h (lit "~"))
unfolding expand_home starts_with strip_prefix text_eq
at_home none = homeless _ (inl refl) refl refl
at_home (some base) = whole base refl refl refl

under_home :
    (h : Option Text) (rest : Text)
    → Expanded h (lit "~/" ++ rest) (expand_home h (lit "~/" ++ rest))
unfolding expand_home starts_with strip_prefix text_eq
under_home none rest = homeless _ (inr (rest, refl)) refl refl
under_home (some base) rest = below base rest refl refl refl

-- A path `~` is expanded to the home directory and a path `~/rest` to `rest` joined to it, with an
-- error where there is no home directory; any other path, `~name` included, is returned as it is,
-- whether there is a home directory or not.
pub expand_home-Expanded : (h : Option Text) (s : Text) → Expanded h s (expand_home h s)
unfolding expand_home starts_with strip_prefix text_eq
expand_home-Expanded h [] = as_given (λ e. cc) (λ rest e. cc) refl
expand_home-Expanded h (c ∷ []) = elim (Bool-cases (c == b'~')) [
  | inl tilde ↦
      subst (λ d. Expanded h (d ∷ []) (expand_home h (d ∷ []))) (sym ((==_iff c b'~').0 tilde))
        (at_home h)
  | inr other ↦ as_given (λ e. ground arith) (λ rest e. ground arith) (ground arith)
]
expand_home-Expanded h (c ∷ d ∷ rest) = elim (Bool-cases (c == b'~' && d == b'/')) [
  | inl both ↦
      let (tilde, slash) = &&-eq-true (c == b'~') (d == b'/') both in
      subst (λ e. Expanded h (e ∷ d ∷ rest) (expand_home h (e ∷ d ∷ rest)))
        (sym ((==_iff c b'~').0 tilde))
        (subst (λ e. Expanded h (b'~' ∷ e ∷ rest) (expand_home h (b'~' ∷ e ∷ rest)))
          (sym ((==_iff d b'/').0 slash)) (under_home h rest))
  | inr other ↦ as_given (λ e. ground arith) (λ tail e. ground arith) (ground arith)
]
