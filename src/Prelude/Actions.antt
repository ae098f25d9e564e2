-- ===== src/Prelude/Actions.antt =====
-- Code that may throw and that changes a state. What was written before a throw stays written,
-- so the state comes back beside the error too; a transaction undoes it where the source does.
use mathlib.Core.Path.{◌≡◌, refl}
use mathlib.Core.Logic.{◌⊎◌, inl, inr}
use mathlib.Core.Bool.{Bool, true, false}
use native.Mathlib.Omega.{arith}

pub data Result {ℓ} (E A : Type ℓ) : Type ℓ where
  ok : A → Result E A
  err : E → Result E A

abbrev pub Action {ℓ} : Type ℓ → Type ℓ → Type ℓ → Type ℓ
Action E S A = S → Result E A × S

module _ {ℓ} {E S A B : Type ℓ} where
  abbrev pub continue : (A → Action E S B) → Result E A × S → Result E B × S
  continue f (ok a, s) = f a s
  continue f (err x, s) = (err x, s)

  infixl 10 ◌>>=◌ ◌>>◌
  abbrev pub ◌>>=◌ : Action E S A → (A → Action E S B) → Action E S B
  ◌>>=◌ m f s = continue f (m s)

  abbrev pub ◌>>◌ : Action E S A → Action E S B → Action E S B
  ◌>>◌ m n s = continue (λ _. n) (m s)

module _ {ℓ} {E S A : Type ℓ} where
  abbrev pub pure : A → Action E S A
  pure a s = (ok a, s)

  abbrev pub throw : E → Action E S A
  throw x s = (err x, s)

  abbrev pub lift : Result E A → Action E S A
  lift r s = (r, s)

  abbrev pub gets : (S → A) → Action E S A
  gets f s = (ok (f s), s)

module _ {E S : Type 0} where
  abbrev pub modify : (S → S) → Action E S (Unit {0})
  modify f s = (ok tt, f s)

  -- `if (!test) throw error`
  abbrev pub require : Bool → E → Action E S (Unit {0})
  require true x s = (ok tt, s)
  require false x s = (err x, s)

-- A call either returned or threw.
pub Result-cases {ℓ} :
    {E S A : Type ℓ} (p : Result E A × S)
    → ((a : A) × (s : S) × (p ≡ (ok a, s))) ⊎ ((x : E) × (s : S) × (p ≡ (err x, s)))
Result-cases (ok a, s) = inl (a, s, refl)
Result-cases (err x, s) = inr (x, s, refl)

pub Result-split {ℓ} :
    {E A : Type ℓ} (r : Result E A) → ((a : A) × (r ≡ ok a)) ⊎ ((x : E) × (r ≡ err x))
Result-split (ok a) = inl (a, refl)
Result-split (err x) = inr (x, refl)

-- A bind that returned: its first part returned, and so did the rest.
pub continue-ok {ℓ} :
    {E S A B : Type ℓ} (f : A → Action E S B) (p : Result E A × S) {b : B} {t : S}
    → continue f p ≡ (ok b, t)
    → (a : A) × (s : S) × (p ≡ (ok a, s)) × (f a s ≡ (ok b, t))
continue-ok f (ok a, s) h = (a, s, refl, h)
continue-ok f (err x, s) h = ground arith

pub require-ok :
    {E S : Type 0} (b : Bool) (x : E) (s t : S) {u : Unit {0}}
    → require b x s ≡ (ok u, t)
    → (b ≡ true) × (t ≡ s)
require-ok true x s t h = ground arith
require-ok false x s t h = ground arith

pub pure-ok {ℓ} :
    {E S A : Type ℓ} (a : A) (s t : S) {b : A} → pure {E = E} a s ≡ (ok b, t) → (b ≡ a) × (t ≡ s)
pure-ok a s t h = (ground arith, ground arith)

-- A bind that threw: its first part did, or the rest did.
pub continue-err {ℓ} :
    {E S A B : Type ℓ} (f : A → Action E S B) (p : Result E A × S) {x : E} {t : S}
    → continue f p ≡ (err x, t)
    → (p ≡ (err x, t)) ⊎ ((a : A) × (s : S) × (p ≡ (ok a, s)) × (f a s ≡ (err x, t)))
continue-err f (ok a, s) h = inr (a, s, refl, h)
continue-err f (err y, s) h = inl (ground arith)
