-- ===== src/Orders/Status.antt =====
-- A change of status: who may ask for it, what it writes, and what it announces.
use marketplace_template.Prelude.{
  suc, inl, inr, ℕ, String, ◌≡◌, refl, sym, ap, subst, ◌∙◌, false, Option, none, some, arith, ◌==◌,
  text_eq, nat_eq, Bool-cases, Option-cases, Result, ok, err, Action, continue-ok, pure-ok, require,
  require-ok, lookup, put, lookup-put, ◌<>◌, if◌then◌else◌, show_nat, Table, nat_beq_iff,
}
use marketplace_template.Db.{Db, OrderRow, OrderStatus}
use marketplace_template.Checkout.{Turn, World, select, transaction, settle, seen}
use marketplace_template.Checkout.Tables.{CheckoutError}
use marketplace_template.Orders.Rows.{JoinedOrder}
use marketplace_template.Orders.Events.{publish}
use marketplace_template.Orders.Service.{
  Runtime, Service, Loaded, on_world, load_authorized_order, update_status, update_order_status,
  checked_status, has, allowed_statuses, publish_status,
}
use marketplace_template.Orders.Access.{
  Untouched, Untouched-trans, on_world-Kept, on_world-world, on_world-ok,
  load_authorized_order-Keeps,
}
use marketplace_template.Orders.Loads.{IsLoad, load_authorized_order-ok}

-- The orders with the status of one of them set.
abbrev pub with_status : ℕ → OrderStatus → ℕ → Option OrderRow → Option OrderRow
with_status id status j none = none
with_status id status j (some row) =
    if id == j then some (record row { status = status }) else some row

with_status-other :
    (id j : ℕ) (status : OrderStatus) (o : Option OrderRow)
    → (id == j) ≡ false
    → o ≡ with_status id status j o
with_status-other id j status none h = refl
with_status-other id j status (some row) h = rw h refl

absent-with_status :
    (id : ℕ) (status : OrderStatus) (orders : Table ℕ OrderRow)
    → lookup id orders ≡ none
    → (j : ℕ) → lookup j orders ≡ with_status id status j (lookup j orders)
absent-with_status id status orders h j = elim (Bool-cases (id == j)) [
  | inr other ↦ with_status-other id j status (lookup j orders) other
  | inl here ↦
      let same = (nat_beq_iff id j).0 here in
      let absent : lookup j orders ≡ none = ap (λ k. lookup k orders) (sym same) ∙ h in
      rw absent refl
]

put-with_status :
    (id : ℕ) (status : OrderStatus) (orders : Table ℕ OrderRow) (row : OrderRow)
    → lookup id orders ≡ some row
    → (j : ℕ)
    → lookup j (put id (record row { status = status }) orders)
      ≡ with_status id status j (lookup j orders)
put-with_status id status orders row h j = elim (Bool-cases (id == j)) [
  | inr other ↦
      lookup-put id j (record row { status = status }) orders
      ∙ rw other (with_status-other id j status (lookup j orders) other)
  | inl here ↦
      let same = (nat_beq_iff id j).0 here in
      let found : lookup j orders ≡ some row = ap (λ k. lookup k orders) (sym same) ∙ h in
      lookup-put id j (record row { status = status }) orders ∙ rw (here, found, here) refl
]

update_order_status-ok :
    (status : String) (id : ℕ) (db after : Db) (u : Unit {0})
    → update_order_status status id db ≡ (ok u, after)
    → (s : OrderStatus) × (checked_status status ≡ some s)
      × ((j : ℕ) → lookup j after.orders ≡ with_status id s j (lookup j db.orders))
      × (after ≡ record db { orders = after.orders })
unfolding update_order_status
update_order_status-ok status id db after u h = elim (Option-cases (checked_status status)) [
  | inl e ↦ absurd (let h' = rw (update_order_status, e) at h in ground arith)
  | inr (s, e) ↦ elim (Option-cases (lookup id db.orders)) [
    | inl missing ↦
        let h' = rw (update_order_status, e, missing) at h in
        let same : db ≡ after = ap (λ p. p.1) h' in
        (
          s,
          e,
          subst (λ (d : Db). (j : ℕ) → lookup j d.orders ≡ with_status id s j (lookup j db.orders))
              same (absent-with_status id s db.orders missing),
          subst (λ (d : Db). d ≡ record db { orders = d.orders }) same refl,
        )
    | inr (row, there) ↦
        let h' = rw (update_order_status, e, there) at h in
        let same : record db { orders = put id (record row { status = s }) db.orders } ≡ after =
          ap (λ p. p.1) h' in
        (
          s,
          e,
          subst (λ (d : Db). (j : ℕ) → lookup j d.orders ≡ with_status id s j (lookup j db.orders))
              same (put-with_status id s db.orders row there),
          subst (λ (d : Db). d ≡ record db { orders = d.orders }) same refl,
        )
  ]
]

module _ {Body : Type 0} (env : ℕ → Turn) (rt : Runtime Body)
    (alone : (n : ℕ) (db : Db) → (env n).others db ≡ db) where
  select-db : (A : Type 0) (read : Db → A) (w : World) → (select env read w).1.db ≡ w.db
  unfolding select
  select-db A read w = elim (Option-cases (env w.time).fault) [
    | inl e ↦ rw (select, e) (alone w.time w.db)
    | inr (code, e) ↦ rw (select, e) (alone w.time w.db)
  ]

  pub load-Untouched :
      (id user_id role : String) (path : Option String) (s : Service)
      → Untouched s (load_authorized_order env rt id user_id role path s).1
  load-Untouched id user_id role path =
      load_authorized_order-Keeps env rt Untouched (λ s. (refl, (refl, refl, refl))) Untouched-trans
        (λ A read s. (
          ap (λ (w : World). w.db) (on_world-world (select env read) s) ∙ select-db A read s.world,
          on_world-Kept (select env read) s,
        ))
        id user_id role path

  -- COMMIT of the update.
  settle-ok :
      {A : Type 0} (before : Db) (time : ℕ) (p : Result CheckoutError A × Db) (a : A) (w : World)
      → settle before time p ≡ (ok a, w)
      → p ≡ (ok a, w.db)
  unfolding settle
  settle-ok before time (ok b, d) a w h =
      let same : record { db = d; time = time } ≡ w = ap (λ p. p.1) h in
      let value : (let r : Result CheckoutError _ = ok b in r) ≡ ok a = ap (λ p. p.0) h in
      ap (λ r. (r, d)) value ∙ ap (λ (x : World). (ok a, x.db)) same
  settle-ok before time (err e, d) a w h = ground arith

  transaction-ok :
      {A : Type 0} (body : Turn → Action CheckoutError Db A) (w w' : World) (a : A)
      → transaction env body w ≡ (ok a, w')
      → body (env w.time) w.db ≡ (ok a, w'.db)
  unfolding transaction
  transaction-ok body w w' a h = elim (Option-cases (env w.time).fault) [
    | inr (code, e) ↦ absurd (let h' = rw (transaction, e) at h in ground arith)
    | inl e ↦
        let h' = rw (transaction, e) at h in
        let done = settle-ok (seen env w) (suc w.time) (body (env w.time) (seen env w)) a w' h' in
        ap (body (env w.time)) (sym (alone w.time w.db)) ∙ done
  ]

  abbrev pub IsUpdate :
      String
      → String
      → String
      → String
      → String
      → Service
      → Service
      → Loaded
      → Service
      → OrderStatus
      → Type 0
  IsUpdate id user_id role status c s t loaded u st =
      IsLoad env rt id user_id role s loaded u
      × (checked_status status ≡ some st)
      × (c ≡ "order-" <> show_nat loaded.row.id)
      × ((j : ℕ)
          → lookup j t.world.db.orders
            ≡ with_status loaded.row.id st j (lookup j s.world.db.orders))
      × (t.world.db ≡ record s.world.db { orders = t.world.db.orders })
      × (t.bus ≡ (publish c status s.bus).1)
      × (t.store ≡ s.store)
      × (t.recalcs ≡ s.recalcs)

  canonical-row :
      (id user_id role : String) (s u : Service) (loaded : Loaded)
      → IsLoad env rt id user_id role s loaded u
      → loaded.canonical_id ≡ "order-" <> show_nat loaded.row.id
  canonical-row id user_id role s u loaded (found, v, read, whole, may, is_row, canonical, shown) =
      canonical ∙ ap (λ (r : JoinedOrder). "order-" <> show_nat r.id) (sym is_row)

  updated :
      (id user_id role status c : String) (s t : Service) (loaded : Loaded) (u x : Service)
      (b : Unit {0})
      → load_authorized_order env rt id user_id role (some ("/orders/" <> id <> "/status")) s
        ≡ (ok loaded, u)
      → on_world (transaction env (λ turn. update_order_status status loaded.row.id)) u ≡ (ok b, x)
      → c ≡ loaded.canonical_id
      → t ≡ publish_status loaded.canonical_id status x
      → (loaded : Loaded) × (u : Service) × (st : OrderStatus) × IsUpdate id user_id role status c s
          t loaded u st
  updated id user_id role status c s t loaded u x b loads commits value last =
      let path = "/orders/" <> id <> "/status" in
      let is_load = load_authorized_order-ok env rt id user_id role (some path) s u loaded loads in
      let quiet : Untouched s u =
        subst (λ p. Untouched s p.1) loads (load-Untouched id user_id role (some path) s) in
      let (commit, world_only) =
        on_world-ok (transaction env (λ turn. update_order_status status loaded.row.id)) u x b
          commits in
      let written =
        transaction-ok (λ turn. update_order_status status loaded.row.id) u.world x.world b
          commit in
      let (st, cast, rows, rest) =
        update_order_status-ok status loaded.row.id u.world.db x.world.db b written in
      (
        loaded,
        u,
        st,
        subst (λ (y : Service). IsUpdate id user_id role status c s y loaded u st) (sym last)
            (
              is_load,
              cast,
              value ∙ canonical-row id user_id role s u loaded is_load,
              subst
                  (λ (d : Db).
                    (j : ℕ)
                    → lookup j x.world.db.orders
                      ≡ with_status loaded.row.id st j (lookup j d.orders))
                  quiet.0 rows,
              subst (λ (d : Db). x.world.db ≡ record d { orders = x.world.db.orders }) quiet.0 rest,
              ap (λ b. (publish loaded.canonical_id status b).1)
                    (ap (λ (y : Service). y.bus) world_only ∙ quiet.1.1)
                  ∙ ap (λ k. (publish k status s.bus).1) (sym value),
              ap (λ (y : Service). y.store) world_only ∙ quiet.1.0,
              ap (λ (y : Service). y.recalcs) world_only ∙ quiet.1.2,
            ),
      )

  -- With no other client at work, a change of status that returns: the caller may read the order,
  -- the status of that order alone is set, nothing else in the tables changes, and the one event
  -- is published under the canonical id that is returned.
  pub update_status-ok :
      (id user_id role status c : String) (s t : Service)
      → update_status env rt id user_id role status s ≡ (ok c, t)
      → (loaded : Loaded) × (u : Service) × (st : OrderStatus) × IsUpdate id user_id role status c s
          t loaded u st
  unfolding update_status
  update_status-ok id user_id role status c s t h =
      let (b, v, e, k) = continue-ok _ (require (has allowed_statuses status) _ s) h in
      let (is, same) = require-ok (has allowed_statuses status) _ s v e in
      let path = "/orders/" <> id <> "/status" in
      let (loaded, u, e', k') =
        continue-ok _ (load_authorized_order env rt id user_id role (some path) v) k in
      let (b', x, e'', k'') =
        continue-ok _
          (on_world (transaction env (λ turn. update_order_status status loaded.row.id)) u) k' in
      let (value, last) =
        pure-ok loaded.canonical_id (publish_status loaded.canonical_id status x) t k'' in
      let loads : load_authorized_order env rt id user_id role (some path) s ≡ (ok loaded, u) =
        ap (load_authorized_order env rt id user_id role (some path)) (sym same) ∙ e' in
      updated id user_id role status c s t loaded u x b' loads e'' value last
