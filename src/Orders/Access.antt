-- ===== src/Orders/Access.antt =====
-- What reading an order changes: nothing but the clock of the database.
use marketplace_template.Prelude.{
  inl, inr, ℕ, String, ◌≡◌, refl, ap, subst, ◌∙◌, Bool, true, false, Option, arith, ◌==◌, text_eq,
  Bool-cases, Option-cases, Result, ok, err, Result-cases, Action, ◌>>=◌, require, lookup, values,
}
use marketplace_template.Db.{Db, UserRole}
use marketplace_template.Checkout.{Turn, World, select}
use marketplace_template.Checkout.Tables.{CheckoutError}
use marketplace_template.Orders.Ids.{is_number, to_db_order_id}
use marketplace_template.Orders.Rows.{
  Owner, Complete, complete, read_order, to_api_order, user_aliases,
}
use marketplace_template.Orders.Service.{
  Runtime, OrdersError, Service, Api, on_world, to_service, user_by_email, user_by_id, resolve_user,
  is_caller, caller_can_read, authorize, load_authorized_order, instance_of,
}

-- The store, the event bus and the rating jobs are as before.
abbrev pub Kept : Service → Service → Type 0
Kept s t = (t.store ≡ s.store) × (t.bus ≡ s.bus) × (t.recalcs ≡ s.recalcs)

-- The tables are as before as well.
abbrev pub Untouched : Service → Service → Type 0
Untouched s t = (t.world.db ≡ s.world.db) × Kept s t

module _ {Body : Type 0} (env : ℕ → Turn) (rt : Runtime Body) (R : Service → Service → Type 0)
    (R-refl : (s : Service) → R s s) (R-trans : (s t u : Service) → R s t → R t u → R s u)
    (R-select : (A : Type 0) (read : Db → A) (s : Service)
      → R s (on_world (select env read) s).1) where
  abbrev pub Keeps : {A : Type 0} → Api A → Type 0
  Keeps m = (s : Service) → R s (m s).1

  pub Keeps-bind :
      {A B : Type 0} (m : Api A) (f : A → Api B)
      → Keeps m
      → ((a : A) → Keeps (f a))
      → Keeps (m >>= f)
  Keeps-bind m f hm hf s = elim (Result-cases (m s)) [
    | inl (a, t, e) ↦
        let first : R s t = subst (λ p. R s p.1) e (hm s) in
        rw e (R-trans s t (f a t).1 first (hf a t))
    | inr (x, t, e) ↦ rw e (subst (λ p. R s p.1) e (hm s))
  ]

  Keeps-require : (b : Bool) (e : OrdersError) → Keeps (require b e)
  Keeps-require true e s = R-refl s
  Keeps-require false e s = R-refl s

  pub resolve_user-Keeps :
      (user_id : String) (role : UserRole) → Keeps (resolve_user env rt user_id role)
  unfolding resolve_user
  resolve_user-Keeps user_id role s = elim (Option-cases (lookup user_id user_aliases)) [
    | inr (email, e) ↦ rw (resolve_user, e) (R-select _ (user_by_email email role) s)
    | inl e ↦ elim (Bool-cases (rt.has_at user_id)) [
      | inl at ↦ rw (resolve_user, e, at) (R-select _ (user_by_email user_id role) s)
      | inr word ↦ elim (Bool-cases (is_number user_id)) [
        | inr name ↦ rw (resolve_user, e, word, name) (R-refl s)
        | inl number ↦ elim (Option-cases (rt.bigint user_id)) [
          | inl large ↦ rw (resolve_user, e, word, number, large) (R-refl s)
          | inr (id, small) ↦
              rw (resolve_user, e, word, number, small) (R-select _ (user_by_id id role) s)
        ]
      ]
    ]
  ]

  is_caller-Keeps :
      (user_id : String) (role : UserRole) (owner : Owner)
      → Keeps (is_caller env rt user_id role owner)
  unfolding is_caller
  is_caller-Keeps user_id role owner =
      Keeps-bind (resolve_user env rt user_id role) _ (resolve_user-Keeps user_id role)
        (λ caller s. R-refl s)

  caller_can_read-Keeps :
      (role user_id : String) (buyer seller : Owner)
      → Keeps (caller_can_read env rt role user_id buyer seller)
  unfolding caller_can_read
  caller_can_read-Keeps role user_id buyer seller s = elim (Bool-cases (role == "buyer")) [
    | inl e ↦ rw (caller_can_read, e) (is_caller-Keeps user_id UserRole.buyer buyer s)
    | inr e ↦ elim (Bool-cases (role == "seller")) [
      | inl k ↦ rw (caller_can_read, e, k) (is_caller-Keeps user_id UserRole.seller seller s)
      | inr k ↦ rw (caller_can_read, e, k) (R-refl s)
    ]
  ]

  authorize-Keeps :
      (id user_id role url : String) (found : Complete)
      → Keeps (authorize env rt id user_id role url found)
  unfolding authorize
  authorize-Keeps id user_id role url found s =
      elim (Option-cases (to_api_order rt.to_lower (values s.store.listings) found)) [
        | inl e ↦ rw (authorize, e) (R-refl s)
        | inr (order, e) ↦
            rw (authorize, e)
              (Keeps-bind (caller_can_read env rt role user_id found.buyer found.seller) _
                (caller_can_read-Keeps role user_id found.buyer found.seller)
                (λ allowed.
                  Keeps-bind (require allowed _) _ (Keeps-require allowed _) (λ u t. R-refl t))
                s)
      ]

  pub load_authorized_order-Keeps :
      (id user_id role : String) (path : Option String)
      → Keeps (load_authorized_order env rt id user_id role path)
  unfolding load_authorized_order
  load_authorized_order-Keeps id user_id role path =
      Keeps-bind (on_world (select env (read_order (to_db_order_id id)))) _
        (R-select _ (read_order (to_db_order_id id)))
        (λ row t. elim (Option-cases (complete row)) [
          | inl e ↦ rw e (R-refl t)
          | inr (found, e) ↦ rw e (authorize-Keeps id user_id role (instance_of path id) found t)
        ])

pub Kept-trans : (s t u : Service) → Kept s t → Kept t u → Kept s u
Kept-trans s t u h k = (k.0 ∙ h.0, k.1 ∙ h.1, k.2 ∙ h.2)

pub Untouched-trans : (s t u : Service) → Untouched s t → Untouched t u → Untouched s u
Untouched-trans s t u h k = (k.0 ∙ h.0, Kept-trans s t u h.1 k.1)

-- A call of the database, and what it gives back.
pub on_world-Kept :
    {A : Type 0} (m : Action CheckoutError World A) (s : Service) → Kept s (on_world m s).1
unfolding on_world
on_world-Kept m s = elim (Result-cases (m s.world)) [
  | inl (a, w, e) ↦ rw e (refl, refl, refl)
  | inr (x, w, e) ↦ rw e (refl, refl, refl)
]

pub on_world-world :
    {A : Type 0} (m : Action CheckoutError World A) (s : Service)
    → (on_world m s).1.world ≡ (m s.world).1
unfolding on_world
on_world-world m s = elim (Result-cases (m s.world)) [
  | inl (a, w, e) ↦ rw e refl
  | inr (x, w, e) ↦ rw e refl
]

to_service-ok :
    {A : Type 0} (s t : Service) (p : Result CheckoutError A × World) (a : A)
    → to_service s p ≡ (ok a, t)
    → (p ≡ (ok a, t.world)) × (t ≡ record s { world = t.world })
to_service-ok s t (ok b, w) a h =
    let same : record s { world = w } ≡ t = ap (λ p. p.1) h in
    let value : (let r : Result CheckoutError _ = ok b in r) ≡ ok a = ground arith in
    (
      ap (λ r. (r, w)) value ∙ ap (λ (x : Service). (ok a, x.world)) same,
      subst (λ (x : Service). x ≡ record s { world = x.world }) same refl,
    )
to_service-ok s t (err e, w) a h = ground arith

pub on_world-ok :
    {A : Type 0} (m : Action CheckoutError World A) (s t : Service) (a : A)
    → on_world m s ≡ (ok a, t)
    → (m s.world ≡ (ok a, t.world)) × (t ≡ record s { world = t.world })
unfolding on_world
on_world-ok m s t a h = to_service-ok s t (m s.world) a h
