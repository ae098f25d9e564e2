-- ===== src/Checkout/LockOrder.antt =====
-- The lock order sorts the items: a permutation of them that every checkout orders alike.
use Prim.Native.String.{[], ◌∷◌}
use mathlib.Core.List.{Perm}
use mathlib.Core.List.Perm
use text.Mathlib.TextEquality.{Char-path}
use marketplace_template.Prelude.{
  String, ◌≡◌, refl, ◌⊎◌, inl, inr, true, false, List, [], ◌∷◌, arith, text_ltb, All, Bool-cases,
}
use marketplace_template.Checkout.Order.{
  CheckoutItemInput, Indexed, enumerate, in_order, insert_in_order, sort_items, items_in_lock_order,
}

pub text_ltb-asymm : (s t : String) → text_ltb s t ≡ true → text_ltb t s ≡ false
unfolding text_ltb
text_ltb-asymm String.[] String.[] h = refl
text_ltb-asymm String.[] (String.◌∷◌ d t) h = refl
text_ltb-asymm (String.◌∷◌ c s) String.[] h = ground arith
text_ltb-asymm (String.◌∷◌ c s) (String.◌∷◌ d t) h = ground (arith, text_ltb-asymm s t)

pub text_ltb-connected : (s t : String) → text_ltb s t ≡ false → text_ltb t s ≡ false → s ≡ t
unfolding text_ltb
text_ltb-connected String.[] String.[] h k = refl
text_ltb-connected String.[] (String.◌∷◌ d t) h k = ground arith
text_ltb-connected (String.◌∷◌ c s) String.[] h k = ground arith
text_ltb-connected (String.◌∷◌ c s) (String.◌∷◌ d t) h k =
    ground (arith, text_ltb-connected s t, Char-path c d)

pub text_ltb_trans :
    (s t u : String) → text_ltb s t ≡ true → text_ltb t u ≡ true → text_ltb s u ≡ true
unfolding text_ltb
text_ltb_trans s String.[] u h k = ground arith
text_ltb_trans s (String.◌∷◌ d t) String.[] h k = ground arith
text_ltb_trans String.[] (String.◌∷◌ d t) (String.◌∷◌ e u) h k = refl
text_ltb_trans (String.◌∷◌ c s) (String.◌∷◌ d t) (String.◌∷◌ e u) h k =
    ground (arith, text_ltb_trans s t u)

in_order-total : (x y : Indexed) → in_order x y ≡ false → in_order y x ≡ true
unfolding in_order
in_order-total x y h = ground arith

in_order_trans : (x y z : Indexed) → in_order x y ≡ true → in_order y z ≡ true → in_order x z ≡ true
unfolding in_order
in_order_trans x y z h k =
    let a = x.item.product_id in
    let b = y.item.product_id in
    let c = z.item.product_id in
    ground (
      arith,
      text_ltb_trans a b c,
      text_ltb_trans c a b,
      text_ltb_trans b c a,
      text_ltb-connected a b,
      text_ltb-connected b c,
      text_ltb-connected a c,
      text_ltb-asymm a b,
      text_ltb-asymm b c,
    )

abbrev pub IsLocked : List Indexed → Type 0
IsLocked [] = Unit
IsLocked (x ∷ xs) = All (λ y. in_order x y ≡ true) xs × IsLocked xs

All-in_order :
    (x y : Indexed) (ys : List Indexed)
    → in_order x y ≡ true
    → All (λ z. in_order y z ≡ true) ys
    → All (λ z. in_order x z ≡ true) ys
All-in_order x y [] h a = tt
All-in_order x y (z ∷ zs) h a = (in_order_trans x y z h a.0, All-in_order x y zs h a.1)

All-insert :
    (P : Indexed → Type 0) (x : Indexed) (ys : List Indexed)
    → P x
    → All P ys
    → All P (insert_in_order x ys)
unfolding insert_in_order
All-insert P x [] p a = (p, tt)
All-insert P x (y ∷ ys) p a = elim (Bool-cases (in_order x y)) [
  | inl e ↦ rw e (p, a)
  | inr e ↦ rw e (a.0, All-insert P x ys p a.1)
]

insert-IsLocked : (x : Indexed) (ys : List Indexed) → IsLocked ys → IsLocked (insert_in_order x ys)
unfolding insert_in_order
insert-IsLocked x [] s = (tt, tt)
insert-IsLocked x (y ∷ ys) s = elim (Bool-cases (in_order x y)) [
  | inl e ↦ rw e ((e, All-in_order x y ys e s.0), s)
  | inr e ↦ rw e (
    All-insert (λ z. in_order y z ≡ true) x ys (in_order-total x y e) s.0,
    insert-IsLocked x ys s.1,
  )
]

pub All-sort : (P : Indexed → Type 0) (xs : List Indexed) → All P xs → All P (sort_items xs)
unfolding sort_items
All-sort P [] a = tt
All-sort P (x ∷ xs) a = All-insert P x (sort_items xs) a.0 (All-sort P xs a.1)

sort-IsLocked : (xs : List Indexed) → IsLocked (sort_items xs)
unfolding sort_items
sort-IsLocked [] = tt
sort-IsLocked (x ∷ xs) = insert-IsLocked x (sort_items xs) (sort-IsLocked xs)

insert-perm : (x : Indexed) (ys : List Indexed) → Perm (insert_in_order x ys) (x ∷ ys)
unfolding insert_in_order
insert-perm x [] = Perm.refl _
insert-perm x (y ∷ ys) = elim (Bool-cases (in_order x y)) [
  | inl e ↦ rw e (Perm.refl _)
  | inr e ↦ rw e (Perm.trans (Perm.cons y (insert-perm x ys)) (Perm.swap x y ys))
]

sort-perm : (xs : List Indexed) → Perm (sort_items xs) xs
unfolding sort_items
sort-perm [] = Perm.refl _
sort-perm (x ∷ xs) = Perm.trans (insert-perm x (sort_items xs)) (Perm.cons x (sort-perm xs))

-- The locked items are the requested ones, each with its own index, in an order that never puts
-- an item before one with a smaller product id.
pub items_in_lock_order_sorts :
    (items : List CheckoutItemInput)
    → Perm (items_in_lock_order items) (enumerate 0 items) × IsLocked (items_in_lock_order items)
unfolding items_in_lock_order
items_in_lock_order_sorts items = (sort-perm (enumerate 0 items), sort-IsLocked (enumerate 0 items))

abbrev pub Locks : String → List Indexed → Type 0
Locks id [] = ⊥
Locks id (x ∷ xs) = (x.item.product_id ≡ id) ⊎ Locks id xs

-- The row of `a` is locked before one of the row of `b`.
abbrev pub LocksBefore : String → String → List Indexed → Type 0
LocksBefore a b [] = ⊥
LocksBefore a b (x ∷ xs) = ((x.item.product_id ≡ a) × Locks b xs) ⊎ LocksBefore a b xs

Locks-not_lt :
    (x : Indexed) (b : String) (xs : List Indexed)
    → All (λ y. in_order x y ≡ true) xs
    → Locks b xs
    → text_ltb b x.item.product_id ≡ false
unfolding in_order
Locks-not_lt x b [] a h = absurd h
Locks-not_lt x b (y ∷ ys) a (inl e) =
    ground (arith, text_ltb-asymm x.item.product_id y.item.product_id)
Locks-not_lt x b (y ∷ ys) a (inr h) = Locks-not_lt x b ys a.1 h

LocksBefore-not_lt :
    (a b : String) (xs : List Indexed) → IsLocked xs → LocksBefore a b xs → text_ltb b a ≡ false
LocksBefore-not_lt a b [] s h = absurd h
LocksBefore-not_lt a b (x ∷ xs) s (inl (e, l)) = rw (← e) (Locks-not_lt x b xs s.0 l)
LocksBefore-not_lt a b (x ∷ xs) s (inr h) = LocksBefore-not_lt a b xs s.1 h

-- Two checkouts never lock two different products in opposite orders.
pub lock_order_acyclic :
    (xs ys : List CheckoutItemInput) (a b : String)
    → LocksBefore a b (items_in_lock_order xs)
    → LocksBefore b a (items_in_lock_order ys)
    → a ≡ b
lock_order_acyclic xs ys a b h k =
    text_ltb-connected a b
      (LocksBefore-not_lt b a (items_in_lock_order ys) (items_in_lock_order_sorts ys).1 k)
      (LocksBefore-not_lt a b (items_in_lock_order xs) (items_in_lock_order_sorts xs).1 h)
