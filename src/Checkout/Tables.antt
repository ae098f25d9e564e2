-- ===== src/Checkout/Tables.antt =====
-- The SQL statements of a checkout, and the errors that end it.
use marketplace_template.Prelude.{
  ℕ, ◌+◌, ◌-◌, String, Bool, true, false, ◌&&◌, ◌||◌, Option, none, some, List, [], ◌∷◌, ◌++◌, leb,
  ◌==◌, text_eq, nat_eq, pair_eq, if◌then◌else◌, lookup, put, ok, err, Action, ◌>>◌, pure, throw,
  require,
}
use marketplace_template.Json.{Json}
use marketplace_template.Db.{Db, OrderItemRow, OrderStatus, JobStatus, int_max}

pub data CheckoutError : Type 0 where
  plain : String → CheckoutError
  out_of_stock insufficient_funds key_conflict write_aborted replay_lost : CheckoutError
  -- An error of the server, with its SQLSTATE.
  database : String → CheckoutError

-- Only the driver's errors have a `code`.
unfoldable pub code_of : CheckoutError → Option String
code_of (database code) = some code
code_of _ = none

abbrev pub Tx : Type 0 → Type 0
Tx = Action CheckoutError Db

abbrev pub or_throw : {A : Type 0} → Option A → CheckoutError → Tx A
or_throw none e = throw e
or_throw (some a) e = pure a

-- A parameter of type `integer` that is out of range: numeric_value_out_of_range.
abbrev pub as_int4 : ℕ → Tx (Unit {0})
as_int4 n = require (leb n int_max) (database "22003")

-- UPDATE products SET stock = stock - $1 WHERE id = $2 AND is_active AND stock >= $1
-- RETURNING price_cents: the id is the primary key, so one row is returned at most.
unfoldable pub update_stock : ℕ → String → Tx (Option ℕ)
update_stock quantity id = do
  as_int4 quantity
  λ db. elim (lookup id db.products) [
    | none ↦ (ok none, db)
    | some p ↦
        if p.is_active && leb quantity p.stock
        then (
          ok (some p.price_cents),
          record db { products = put id (record p { stock = p.stock - quantity }) db.products },
        )
        else (ok none, db)
  ]

-- UPDATE users SET balance_cents = balance_cents - $1 WHERE id = $2 AND balance_cents >= $1:
-- whether a row was returned.
unfoldable pub update_balance : ℕ → String → Tx Bool
update_balance total id = do
  as_int4 total
  λ db. elim (lookup id db.users) [
    | none ↦ (ok false, db)
    | some u ↦
        if leb total u.balance_cents
        then (
          ok true,
          record db {
            users = put id (record u { balance_cents = u.balance_cents - total }) db.users;
          },
        )
        else (ok false, db)
  ]

-- INSERT INTO orders … 'paid' RETURNING id
unfoldable pub insert_order : String → ℕ → Tx ℕ
insert_order user_id total db = (
  ok db.next_order,
  record db {
    orders =
        put db.next_order
          (record { user_id = user_id; status = OrderStatus.paid; total_cents = total }) db.orders;
    next_order = db.next_order + 1;
  },
)

unfoldable pub has_item : ℕ → String → List OrderItemRow → Bool
has_item order_id product_id [] = false
has_item order_id product_id (r ∷ rows) =
    (r.order_id == order_id && r.product_id == product_id) || has_item order_id product_id rows

-- INSERT INTO order_items: order_items_uniq allows one line for each product of an order.
unfoldable pub insert_item : ℕ → String → ℕ → ℕ → Tx (Unit {0})
unfolding has_item
insert_item order_id product_id quantity price db =
    if has_item order_id product_id db.order_items
    then (err (database "23505"), record db { next_item = db.next_item + 1 })
    else (
      ok tt,
      record db {
        order_items =
            db.order_items
            ++ record {
              id = db.next_item;
              order_id = order_id;
              product_id = product_id;
              quantity = quantity;
              unit_price_cents = price;
            }
              ∷ [];
        next_item = db.next_item + 1;
      },
    )

-- INSERT INTO jobs (kind, payload, status) … RETURNING id
unfoldable pub insert_job : String → Json → Tx ℕ
insert_job kind payload db = (
  ok db.next_job,
  record db {
    jobs =
        put db.next_job
          (record {
            kind = kind;
            payload = payload;
            status = JobStatus.pending;
            processed_count = 0;
            worker_id = none;
          })
          db.jobs;
    next_job = db.next_job + 1;
  },
)

-- INSERT INTO outbox (aggregate_type, aggregate_id, type, payload)
unfoldable pub insert_outbox : String → String → Json → ℕ → Tx (Unit {0})
insert_outbox aggregate_id type payload now db = (
  ok tt,
  record db {
    outbox =
        put db.next_outbox
          (record {
            aggregate_id = aggregate_id;
            type = type;
            payload = payload;
            created_at = now;
            published_at = none;
            attempts = 0;
          })
          db.outbox;
    next_outbox = db.next_outbox + 1;
  },
)

-- INSERT INTO idempotency_keys … ON CONFLICT DO NOTHING RETURNING: whether a row was inserted.
unfoldable pub insert_key : String → String → ℕ → String → Tx Bool
insert_key user_id key order_id request_hash db = elim (lookup (user_id, key) db.idempotency_keys) [
  | some row ↦ (ok false, db)
  | none ↦ (
    ok true,
    record db {
      idempotency_keys =
          put (user_id, key) (record { order_id = order_id; request_hash = request_hash })
            db.idempotency_keys;
    },
  )
]
