-- ===== src/Samples/Asserts.antt =====
-- The assertions of the unit tests, as tests of values.
use sponsor.Common.{ℕ, zero, suc, Bool, true, false, ◌++◌, [], ◌∷◌, ◌||◌, Option, none, some}
use sponsor.Common.Result.{Result, ok, err}
use sponsor.Common.Text.{Text}
use sponsor.Wrapper.Keystore.{starts_with}

-- `assert!(r.unwrap() …)`: an error fails the test.
abbrev pub ok_and {ℓ} : {A : Type ℓ} → (A → Bool) → Result A → Bool
ok_and p (ok a) = p a
ok_and p (err e) = false

abbrev pub some_and {ℓ} : {A : Type ℓ} → (A → Bool) → Option A → Bool
some_and p (some a) = p a
some_and p none = false

abbrev pub is_ok {ℓ} : {A : Type ℓ} → Result A → Bool
is_ok (ok a) = true
is_ok (err e) = false

abbrev pub is_none {ℓ} : {A : Type ℓ} → Option A → Bool
is_none (some a) = false
is_none none = true

-- `str::repeat`
unfoldable pub repeat : Text → ℕ → Text
repeat t zero = []
repeat t (suc n) = t ++ repeat t n

-- `str::contains`
unfoldable pub contains : Text → Text → Bool
unfolding starts_with
contains [] p = starts_with [] p
contains (c ∷ s) p = let below = contains s p in starts_with (c ∷ s) p || below
