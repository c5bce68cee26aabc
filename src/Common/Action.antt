-- ===== src/Common/Action.antt =====
-- Fallible code over a state. What was done before an error stays done, so the state comes back
-- beside the error as well.
use Prim.Native.String.{String}
use mathlib.Core.Path.{◌≡◌, refl, subst, ap}
use sponsor.Common.Result.{Result, ok, err}

abbrev pub Action : Type 0 → Type 0 → Type 0
Action S A = S → Result A × S

module _ {S A B : Type 0} where
  abbrev pub resume : (A → Action S B) → Result A → S → Result B × S
  resume k (ok a) s = k a s
  resume k (err e) s = (err e, s)

  infixl 10 ◌>>=◌ ◌>>◌
  abbrev pub ◌>>=◌ : Action S A → (A → Action S B) → Action S B
  ◌>>=◌ m k s = resume k (m s).0 (m s).1

  abbrev pub ◌>>◌ : Action S A → Action S B → Action S B
  m >> n = m >>= λ _. n

module _ {S A : Type 0} where
  abbrev pub pure : A → Action S A
  pure a s = (ok a, s)

  abbrev pub fail : String → Action S A
  fail e s = (err e, s)

  -- A result that needs no state.
  abbrev pub lift : Result A → Action S A
  lift r s = (r, s)

-- What holds of the state and the result after success, and of the state after an error.
module _ {S B : Type 0} (Good : B → S → Type 0) (Bad : S → Type 0) where
  abbrev pub Outcome : Result B → S → Type 0
  Outcome (ok b) s = Good b s
  Outcome (err e) s = Bad s

  abbrev pub Ends : Result B × S → Type 0
  Ends x = Outcome x.0 x.1

  pub Ends-cases :
      (r : Result B) (s : S)
      → ((b : B) → r ≡ ok b → Good b s)
      → ((e : String) → r ≡ err e → Bad s)
      → Outcome r s
  Ends-cases (ok b) s good bad = good b refl
  Ends-cases (err e) s good bad = bad e refl

  pub Ends-ok : {b : B} (r : Result B) (s : S) → Outcome r s → r ≡ ok b → Good b s
  Ends-ok (ok b) s h e = subst (λ c. Good c s) (cc) h
  Ends-ok (err x) s h e = absurd (cc)

  pub Ends-err : {e : String} (r : Result B) (s : S) → Outcome r s → r ≡ err e → Bad s
  Ends-err (ok b) s h e = absurd (cc)
  Ends-err (err x) s h e = h

  -- A sequence ends in its first part, or as the rest does from the state that the first left.
  pub Ends-bind :
      {A : Type 0} (m : Action S A) (k : A → Action S B) (s : S)
      → ((a : A) → (m s).0 ≡ ok a → Ends (k a (m s).1))
      → ((e : String) → (m s).0 ≡ err e → Bad (m s).1)
      → Ends ((m >>= k) s)
  Ends-bind {A} m k s good bad = run (m s).0 good bad
    where
      run :
          (r : Result A)
          → ((a : A) → r ≡ ok a → Ends (k a (m s).1))
          → ((e : String) → r ≡ err e → Bad (m s).1)
          → Ends (resume k r (m s).1)
      run (ok a) good bad = good a refl
      run (err e) good bad = bad e refl

-- A sequence: what its first part leaves is what the rest starts from.
pub Ends-then :
    {S A B : Type 0} (Mid : A → S → Type 0) (Good : B → S → Type 0) (Bad : S → Type 0)
    (m : Action S A) (k : A → Action S B) (s : S)
    → Ends Mid Bad (m s)
    → ((a : A) (s' : S) → Mid a s' → Ends Good Bad (k a s'))
    → Ends Good Bad ((m >>= k) s)
Ends-then {S} {A} {B} Mid Good Bad m k s done next = from (m s).0 (m s).1 done
  where
    from : (r : Result A) (s' : S) → Outcome Mid Bad r s' → Ends Good Bad (resume k r s')
    from (ok a) s' h = next a s' h
    from (err e) s' h = h

pub Ends-map :
    {S B : Type 0} (Good Good' : B → S → Type 0) (Bad Bad' : S → Type 0) (x : Result B × S)
    → ((b : B) (s : S) → Good b s → Good' b s)
    → ((s : S) → Bad s → Bad' s)
    → Ends Good Bad x
    → Ends Good' Bad' x
Ends-map Good Good' Bad Bad' (ok b, s) good bad h = good b s h
Ends-map Good Good' Bad Bad' (err e, s) good bad h = bad s h

-- A first part that is known to end well, or to fail.
pub bind-ok :
    {S A B : Type 0} (m : Action S A) (k : A → Action S B) (s : S) {a : A} {s' : S}
    → m s ≡ (ok a, s')
    → (m >>= k) s ≡ k a s'
bind-ok m k s h = ap (λ x. resume k x.0 x.1) h

pub bind-err :
    {S A B : Type 0} (m : Action S A) (k : A → Action S B) (s : S) {e : String} {s' : S}
    → m s ≡ (err e, s')
    → (m >>= k) s ≡ (err e, s')
bind-err m k s h = ap (λ x. resume k x.0 x.1) h

-- Two statements on one end.
pub Ends-meet :
    {S B : Type 0} (Good Good' : B → S → Type 0) (Bad Bad' : S → Type 0) (x : Result B × S)
    → Ends Good Bad x
    → Ends Good' Bad' x
    → Ends (λ b s. Good b s × Good' b s) (λ s. Bad s × Bad' s) x
Ends-meet Good Good' Bad Bad' (ok b, s) h h' = (h, h')
Ends-meet Good Good' Bad Bad' (err e, s) h h' = (h, h')

-- An action that succeeds, with what then holds.
abbrev pub Succeeds : {S B : Type 0} → (B → S → Type 0) → Result B × S → Type 0
Succeeds Good x = Ends Good (λ s. ⊥) x

pub Succeeds-and :
    {S B : Type 0} (Good Good' : B → S → Type 0) (Bad : S → Type 0) (x : Result B × S)
    → Succeeds Good x
    → Ends Good' Bad x
    → Succeeds (λ b s. Good b s × Good' b s) x
Succeeds-and Good Good' Bad x h h' =
    Ends-map _ _ _ _ x (λ b s both. both) (λ s both. both.0) (Ends-meet Good Good' _ Bad x h h')
