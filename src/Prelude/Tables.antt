-- ===== src/Prelude/Tables.antt =====
-- A keyed table (a JavaScript `Map`, or a SQL table under its primary key) as an association
-- list in insertion order.
use Prim.Native.Nat.{◌+◌}
use mathlib.Core.Bool.{Bool, true, false}
use mathlib.Core.Path.{◌≡◌, refl}
use mathlib.Core.Option.{Option, none, some}
use mathlib.Core.List.{List, [], ◌∷◌}
use native.Mathlib.Omega.{arith}
use marketplace_template.Prelude.Tests.{Eq, ◌==◌, if◌then◌else◌}
use marketplace_template.Prelude.Lists.{length}

abbrev pub Table {ℓ κ} : Type ℓ → Type κ → Type (ℓ ⊔ κ)
Table K V = List (K × V)

abbrev pub is_none {ℓ} : {A : Type ℓ} → Option A → Bool
is_none none = true
is_none (some a) = false

abbrev pub is_some {ℓ} : {A : Type ℓ} → Option A → Bool
is_some none = false
is_some (some a) = true

module _ {ℓ κ} {K : Type ℓ} {V : Type κ} ⦃e : Eq K⦄ where
  unfoldable pub lookup : K → Table K V → Option V
  lookup k [] = none
  lookup k ((j, v) ∷ t) = if j == k then some v else lookup k t

  -- `Map.set`: a key that is there keeps its place.
  unfoldable pub put : K → V → Table K V → Table K V
  put k v [] = (k, v) ∷ []
  put k v ((j, w) ∷ t) = if j == k then (j, v) ∷ t else (j, w) ∷ put k v t

  unfoldable pub delete : K → Table K V → Table K V
  delete k [] = []
  delete k ((j, w) ∷ t) = let rest = delete k t in if j == k then rest else (j, w) ∷ rest

  pub lookup-put :
      (k j : K) (v : V) (t : Table K V)
      → lookup j (put k v t) ≡ (if k == j then some v else lookup j t)
  unfolding lookup put
  lookup-put k j v [] = refl
  lookup-put k j v ((i, w) ∷ t) =
      ground (arith, e.same_iff k j, e.same_iff i k, e.same_iff i j, lookup-put k j v t)

  pub lookup-put_self : (k : K) (v : V) (t : Table K V) → lookup k (put k v t) ≡ some v
  lookup-put_self k v t = rw (lookup-put k k v t, (e.same_iff k k).1 refl)

  pub length-put :
      (k : K) (v : V) (t : Table K V)
      → length (put k v t) ≡ (if is_none (lookup k t) then length t + 1 else length t)
  unfolding lookup put
  length-put k v [] = ground arith
  length-put k v ((i, w) ∷ t) = ground (arith, length-put k v t)

  pub lookup-delete :
      (k j : K) (t : Table K V) → lookup j (delete k t) ≡ (if k == j then none else lookup j t)
  unfolding lookup delete
  lookup-delete k j [] = ground arith
  lookup-delete k j ((i, w) ∷ t) =
      ground (arith, lookup-delete k j t, e.same_iff i k, e.same_iff i j, e.same_iff k j)

module _ {ℓ κ} {K : Type ℓ} {V : Type κ} where
  -- `Map.values()`, in insertion order.
  abbrev pub values : Table K V → List V
  values [] = []
  values ((k, v) ∷ t) = v ∷ values t

-- An early `none` that did not happen.
pub chosen {ℓ κ} :
    {A : Type ℓ} {B : Type κ} (o : Option A) (f : A → Option B) (b : B)
    → (let r : Option B = elim o [ none ↦ none | some a ↦ f a ] in r) ≡ some b
    → (a : A) × (o ≡ some a) × (f a ≡ some b)
chosen none f b h = ground arith
chosen (some a) f b h = (a, refl, h)
