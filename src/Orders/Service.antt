-- ===== src/Orders/Service.antt =====
-- src/orders/orders.service.ts: reading orders, who may read them, and the change of a status.
-- The map of the store is only touched by the request at work; what other clients commit in the
-- database comes with the turns of the environment.
use marketplace_template.Prelude.{
  ℕ, String, Bool, false, ◌&&◌, ◌||◌, Option, none, some, List, [], ◌∷◌, ◌==◌, text_eq, nat_eq,
  if◌then◌else◌, ◌<>◌, lookup, put, values, keep, Result, ok, err, Action, ◌>>=◌, ◌>>◌, pure, throw,
  gets, modify, require,
}
use marketplace_template.Db.{Db, UserRole, OrderStatus}
use marketplace_template.Checkout.Tables.{CheckoutError, database}
use marketplace_template.Checkout.{Turn, World, select, transaction}
use marketplace_template.RateLimit.{ProblemException}
use marketplace_template.Store.{Order, StoreService, Page, paginate}
use marketplace_template.Orders.Events.{Bus, publish}
use marketplace_template.Orders.Rows.{
  Owner, JoinedOrder, Complete, user_aliases, complete, read_order, find_owner, same_role,
  to_api_order,
}
use marketplace_template.Orders.Ids.{canonical_order_id, to_db_order_id, is_number}

-- What the code uses of the language's and the server's libraries: `toLowerCase`, the search for
-- `@`, `ILIKE`, the cast of digits to a bigint (none out of range), and SHA-256 of a JSON body.
pub record Runtime (Body : Type 0) : Type 0 where
  pub to_lower : String → String
  pub has_at : String → Bool
  pub ilike : String → String → Bool
  pub bigint : String → Option String
  pub hash_body : Body → String

pub data OrdersError : Type 0 where
  problem : ProblemException → OrdersError
  failed : CheckoutError → OrdersError
  type_error : OrdersError

-- All that a request may change. `recalcs` are the rating jobs that were enqueued.
pub record Service : Type 0 where
  pub world : World
  pub store : StoreService
  pub bus : Bus
  pub recalcs : List (String × List String)

abbrev pub Api : Type 0 → Type 0
Api A = Action OrdersError Service A

abbrev pub to_service :
    {A : Type 0} → Service → Result CheckoutError A × World → Result OrdersError A × Service
to_service s (ok a, w) = (ok a, record s { world = w })
to_service s (err e, w) = (err (failed e), record s { world = w })

-- A call of the database within a request.
unfoldable pub on_world : {A : Type 0} → Action CheckoutError World A → Api A
on_world m s = to_service s (m s.world)

unfoldable pub allowed_statuses : List String
allowed_statuses = "pending" ∷ "paid" ∷ "shipped" ∷ "delivered" ∷ "cancelled" ∷ []

abbrev pub has : List String → String → Bool
has [] s = false
has (t ∷ ts) s = t == s || has ts s

-- The statuses that the CHECK constraint of the column takes.
unfoldable pub checked_status : String → Option OrderStatus
checked_status s =
    if s == "pending"
    then some OrderStatus.pending
    else if s == "paid"
    then some OrderStatus.paid
    else if s == "shipped"
    then some OrderStatus.shipped
    else if s == "delivered"
    then some OrderStatus.delivered
    else if s == "cancelled"
    then some OrderStatus.cancelled
    else none

unfoldable pub forbidden : String → String → ProblemException
forbidden detail instance_url = record {
  status = 403;
  type = "https://marketplace.local/problems/forbidden";
  title = "Forbidden";
  detail = detail;
  instance_url = instance_url;
}

unfoldable pub order_not_found : String → ProblemException
order_not_found instance_url = record {
  status = 404;
  type = "https://marketplace.local/problems/order-not-found";
  title = "Order not found";
  detail = "Order with the given id does not exist";
  instance_url = instance_url;
}

unfoldable pub invalid_status : String → ProblemException
invalid_status id = record {
  status = 400;
  type = "https://marketplace.local/problems/invalid-status";
  title = "Invalid status";
  detail = "Status must be one of: pending, paid, shipped, delivered, cancelled";
  instance_url = "/orders/" <> id <> "/status";
}

-- `UPDATE orders SET status = $1 WHERE id = $2`, under the CHECK constraint of the column.
unfoldable pub update_order_status : String → ℕ → Action CheckoutError Db (Unit {0})
update_order_status status id db = elim (checked_status status) [
  | none ↦ (err (database "23514"), db)
  | some s ↦ elim (lookup id db.orders) [
    | none ↦ (ok tt, db)
    | some row ↦ (ok tt, record db { orders = put id (record row { status = s }) db.orders })
  ]
]

abbrev pub owner_id : Option Owner → String → Bool
owner_id none id = false
owner_id (some owner) id = owner.id == id

abbrev pub instance_of : Option String → String → String
instance_of none id = "/v1/orders/" <> id
instance_of (some path) id = path

pub record Loaded : Type 0 where
  pub canonical_id : String
  pub order : Order
  pub row : JoinedOrder

-- `findOne({ where: { email, role } })`
unfoldable pub user_by_email : String → UserRole → Db → Option Owner
unfolding find_owner
user_by_email email role db =
    find_owner (λ o. o.user.email == email && same_role o.user.role role) db.users

unfoldable pub user_by_id : String → UserRole → Db → Option Owner
unfolding find_owner
user_by_id id role db = find_owner (λ o. o.id == id && same_role o.user.role role) db.users

abbrev pub publish_status : String → String → Service → Service
publish_status order_id status s = record s { bus = (publish order_id status s.bus).1 }

module _ {Body : Type 0} (env : ℕ → Turn) (rt : Runtime Body) where
  unfoldable pub resolve_user : String → UserRole → Api (Option Owner)
  unfolding on_world user_by_email user_by_id select is_number
  resolve_user user_id role = elim (lookup user_id user_aliases) [
    | some email ↦ on_world (select env (user_by_email email role))
    | none ↦
        if rt.has_at user_id
        then on_world (select env (user_by_email user_id role))
        else if is_number user_id
        then elim (rt.bigint user_id) [
          | none ↦ throw (failed (database "22003"))
          | some id ↦ on_world (select env (user_by_id id role))
        ]
        else pure none
  ]

  -- `caller?.id === owner.id`
  unfoldable pub is_caller : String → UserRole → Owner → Api Bool
  unfolding resolve_user
  is_caller user_id role owner = do
    caller ← resolve_user user_id role
    pure (owner_id caller owner.id)

  unfoldable pub caller_can_read : String → String → Owner → Owner → Api Bool
  unfolding is_caller
  caller_can_read role user_id buyer seller =
      if role == "buyer"
      then is_caller user_id UserRole.buyer buyer
      else if role == "seller"
      then is_caller user_id UserRole.seller seller
      else pure false

  unfoldable pub authorize : String → String → String → String → Complete → Api Loaded
  unfolding caller_can_read
  authorize id user_id role instance_url found = do
    shown ← gets (λ s. to_api_order rt.to_lower (values s.store.listings) found)
    elim shown [
      | none ↦ throw type_error
      | some order ↦ do
        allowed ← caller_can_read role user_id found.buyer found.seller
        require allowed (problem (forbidden "You do not have access to this order" instance_url))
        pure (record { canonical_id = canonical_order_id id; order = order; row = found.row })
    ]

  unfoldable pub load_authorized_order : String → String → String → Option String → Api Loaded
  unfolding authorize
  load_authorized_order id user_id role instance_path = do
    row ← on_world (select env (read_order (to_db_order_id id)))
    elim (complete row) [
      | none ↦ throw (problem (order_not_found (instance_of instance_path id)))
      | some found ↦ authorize id user_id role (instance_of instance_path id) found
    ]

  unfoldable pub get_by_id : String → String → String → Api Order
  unfolding load_authorized_order
  get_by_id id user_id role = do
    loaded ← load_authorized_order id user_id role none
    pure loaded.order

  unfoldable pub assert_can_read : String → String → String → Api (Unit {0})
  unfolding load_authorized_order
  assert_can_read id user_id role = do loaded ← load_authorized_order id user_id role none; pure tt

  -- The result is the canonical id; the other field is the status that was given.
  unfoldable pub update_status : String → String → String → String → Api String
  unfolding load_authorized_order update_order_status on_world transaction publish
  update_status id user_id role status = do
    require (has allowed_statuses status) (problem (invalid_status id))
    loaded ← load_authorized_order id user_id role (some ("/orders/" <> id <> "/status"))
    on_world (transaction env (λ turn. update_order_status status loaded.row.id))
    modify (publish_status loaded.canonical_id status)
    pure loaded.canonical_id

abbrev pub of_user : String → String → Order → Bool
of_user user_id role order =
    if role == "buyer" then order.buyer_id == user_id else order.seller_id == user_id

unfoldable pub list : String → String → Option ℕ → Option String → Api (Page Order)
unfolding paginate
list user_id role limit cursor = do
  require (role == "buyer" || role == "seller") (problem (forbidden "Unknown role" "/v1/orders"))
  gets
      (λ s. paginate (λ o. o.id) (keep (of_user user_id role) (values s.store.orders)) limit cursor)
