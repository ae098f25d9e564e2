-- ===== src/Orders/Loads.antt =====
-- An order that is read: which row it is, under which id, and who the caller is.
use marketplace_template.Prelude.{
  inl, inr, ◌⊎◌, chosen, [], ◌∷◌, List, ℕ, String, ◌≡◌, refl, sym, ap, ◌∙◌, true, Option, none,
  some, arith, ◌==◌, text_eq, nat_eq, Bool-cases, Option-cases, ok, continue-ok, pure-ok, require,
  require-ok, ◌<>◌, values, show_nat, Table, eq_iff,
}
use marketplace_template.Db.{Db, UserRole, OrderRow}
use marketplace_template.Checkout.{Turn, select, seen}
use marketplace_template.Store.{Listing, Order}
use marketplace_template.Orders.Ids.{canonical_order_id, to_db_order_id}
use marketplace_template.Orders.Ids.Canonical.{canonical-db_id}
use marketplace_template.Orders.Rows.{
  Owner, Complete, JoinedOrder, first_seller, complete, read_order, find_order, to_api_order,
  to_api_items,
}
use marketplace_template.Orders.Service.{
  Runtime, Service, Loaded, on_world, resolve_user, caller_can_read, is_caller, authorize,
  load_authorized_order, owner_id, instance_of,
}
use marketplace_template.Orders.Access.{on_world-ok}

-- The row that was read is the row of the id.
find_order-id :
    (db_id : String) (orders : Table ℕ OrderRow) (id : ℕ) (row : OrderRow)
    → find_order db_id orders ≡ some (id, row)
    → show_nat id ≡ db_id
unfolding find_order
find_order-id db_id [] id row h = ground arith
find_order-id db_id ((j, other) ∷ orders) id row h =
    let rest = find_order-id db_id orders id row in ground (arith, rest, eq_iff (show_nat j) db_id)

read_order-id :
    (db_id : String) (db : Db) (row : JoinedOrder)
    → read_order db_id db ≡ some row
    → show_nat row.id ≡ db_id
unfolding read_order
read_order-id db_id db row h =
    let ((id, r), e, k) = chosen (find_order db_id db.orders) _ row h in
    let same : id ≡ row.id =
      ap (λ (o : Option JoinedOrder). elim o [ none ↦ id | some x ↦ x.id ]) k in
    ap show_nat (sym same) ∙ find_order-id db_id db.orders id r e

complete-row :
    (o : Option JoinedOrder) (found : Complete) → complete o ≡ some found → o ≡ some found.row
unfolding complete
complete-row none found h = ground arith
complete-row (some row) found h =
    let (buyer, e, k) = chosen row.user _ found h in
    let (seller, e', k') = chosen (first_seller row.items) _ found k in
    ap (λ (o : Option Complete). some (elim o [ none ↦ row | some x ↦ x.row ])) k'

to_api_order-id :
    (lower : String → String) (listings : List Listing) (found : Complete) (order : Order)
    → to_api_order lower listings found ≡ some order
    → order.id ≡ "order-" <> show_nat found.row.id
unfolding to_api_order
to_api_order-id lower listings found order h =
    let (items, e, k) = chosen (to_api_items lower listings found.row.items) _ order h in
    sym (
      ap (λ (o : Option Order). elim o [ none ↦ "order-" <> show_nat found.row.id | some x ↦ x.id ])
        k)

owner_id-true :
    (o : Option Owner) (id : String)
    → owner_id o id ≡ true
    → (caller : Owner) × (o ≡ some caller) × (caller.id ≡ id)
owner_id-true none id h = ground arith
owner_id-true (some caller) id h = (caller, refl, (eq_iff caller.id id).0 h)

module _ {Body : Type 0} (env : ℕ → Turn) (rt : Runtime Body) where
  -- The caller is a user of the role, and the owner on that side.
  abbrev pub IsCaller : String → UserRole → Owner → Service → Service → Type 0
  IsCaller user_id role owner s t =
      (caller : Owner) × (resolve_user env rt user_id role s ≡ (ok (some caller), t))
      × (caller.id ≡ owner.id)

  is_caller-true :
      (user_id : String) (role : UserRole) (owner : Owner) (s t : Service)
      → is_caller env rt user_id role owner s ≡ (ok true, t)
      → IsCaller user_id role owner s t
  unfolding is_caller
  is_caller-true user_id role owner s t h =
      let (found, u, e, k) = continue-ok _ (resolve_user env rt user_id role s) h in
      let (test, same) = pure-ok (owner_id found owner.id) u t k in
      let (caller, e', k') = owner_id-true found owner.id (sym test) in
      (caller, e ∙ ap (λ o. (ok o, u)) e' ∙ ap (λ v. (ok (some caller), v)) (sym same), k')

  abbrev pub MayRead : String → String → Complete → Service → Service → Type 0
  MayRead role user_id found s t =
      ((role ≡ "buyer") × IsCaller user_id UserRole.buyer found.buyer s t)
      ⊎ ((role ≡ "seller") × IsCaller user_id UserRole.seller found.seller s t)

  caller_can_read-true :
      (role user_id : String) (found : Complete) (s t : Service)
      → caller_can_read env rt role user_id found.buyer found.seller s ≡ (ok true, t)
      → MayRead role user_id found s t
  unfolding caller_can_read
  caller_can_read-true role user_id found s t h = elim (Bool-cases (role == "buyer")) [
    | inl e ↦ inl (
      (eq_iff role "buyer").0 e,
      is_caller-true user_id UserRole.buyer found.buyer s t (rw (caller_can_read, e) at h),
    )
    | inr e ↦ elim (Bool-cases (role == "seller")) [
      | inl k ↦ inr (
        (eq_iff role "seller").0 k,
        is_caller-true user_id UserRole.seller found.seller s t (rw (caller_can_read, e, k) at h),
      )
      | inr k ↦ absurd (let h' = rw (caller_can_read, e, k) at h in ground arith)
    ]
  ]

  -- What a successful load has read.
  abbrev pub IsLoad : String → String → String → Service → Loaded → Service → Type 0
  IsLoad id user_id role s loaded t =
      (found : Complete) × (u : Service) × (on_world (select env (read_order (to_db_order_id id))) s
        ≡ (ok (some found.row), u))
      × (complete (some found.row) ≡ some found)
      × MayRead role user_id found u t
      × (loaded.row ≡ found.row)
      × (loaded.canonical_id ≡ "order-" <> show_nat found.row.id)
      × (loaded.order.id ≡ "order-" <> show_nat found.row.id)

  authorize-ok :
      (id user_id role url : String) (found : Complete) (s t : Service) (loaded : Loaded)
      → authorize env rt id user_id role url found s ≡ (ok loaded, t)
      → MayRead role user_id found s t
        × (loaded.row ≡ found.row)
        × (loaded.canonical_id ≡ canonical_order_id id)
        × (loaded.order.id ≡ "order-" <> show_nat found.row.id)
  unfolding authorize
  authorize-ok id user_id role url found s t loaded h =
      elim (Option-cases (to_api_order rt.to_lower (values s.store.listings) found)) [
        | inl e ↦ absurd (let h' = rw (authorize, e) at h in ground arith)
        | inr (order, e) ↦
            let h' = rw (authorize, e) at h in
            let (allowed, u, e', k) =
              continue-ok _ (caller_can_read env rt role user_id found.buyer found.seller s) h' in
            let (unit, v, e'', k') = continue-ok _ (require allowed _ u) k in
            let (is, same) = require-ok allowed _ u v e'' in
            let (value, same') = pure-ok _ v t k' in
            let here : t ≡ u = same' ∙ same in
            (
              caller_can_read-true role user_id found s t
                  (e' ∙ ap (λ b. (ok b, u)) is ∙ ap (λ w. (ok true, w)) (sym here)),
              ap (λ (l : Loaded). l.row) value,
              ap (λ (l : Loaded). l.canonical_id) value,
              ap (λ (l : Loaded). l.order.id) value
                  ∙ to_api_order-id rt.to_lower (values s.store.listings) found order e,
            )
      ]

  select-value :
      (db_id : String) (s u : Service) (row : JoinedOrder)
      → on_world (select env (read_order db_id)) s ≡ (ok (some row), u)
      → show_nat row.id ≡ db_id
  unfolding select
  select-value db_id s u row h =
      let (e, same) = on_world-ok (select env (read_order db_id)) s u (some row) h in
      elim (Option-cases (env s.world.time).fault) [
        | inr (code, f) ↦ absurd (let e' = rw (select, f) at e in ground arith)
        | inl f ↦
            let e' = rw (select, f) at e in
            let read : read_order db_id (seen env s.world) ≡ some row = ground arith in
            read_order-id db_id (seen env s.world) row read
      ]

  -- Who can load an order is its buyer, or the seller of its first item, in that role; and the
  -- canonical id of the answer is that of the row, however the id was spelled.
  pub load_authorized_order-ok :
      (id user_id role : String) (path : Option String) (s t : Service) (loaded : Loaded)
      → load_authorized_order env rt id user_id role path s ≡ (ok loaded, t)
      → IsLoad id user_id role s loaded t
  unfolding load_authorized_order
  load_authorized_order-ok id user_id role path s t loaded h =
      let (row, u, e, k) =
        continue-ok _ (on_world (select env (read_order (to_db_order_id id))) s) h in
      elim (Option-cases (complete row)) [
        | inl missing ↦ absurd (let k' = rw missing at k in ground arith)
        | inr (found, whole) ↦
            let k' = rw whole at k in
            let same = complete-row row found whole in
            let (may, is_row, canonical, shown) =
              authorize-ok id user_id role (instance_of path id) found u t loaded k' in
            let e' = e ∙ ap (λ r. (ok r, u)) same in
            let db_id = select-value (to_db_order_id id) s u found.row e' in
            (
              found,
              u,
              e',
              ap complete (sym same) ∙ whole,
              may,
              is_row,
              canonical ∙ canonical-db_id id found.row.id (sym db_id),
              shown,
            )
      ]
