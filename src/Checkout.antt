-- ===== src/Checkout.antt =====
-- src/checkout/checkout.service.ts: stock, balance, order rows, job, outbox row and intent key in
-- one transaction. Quantities are non-negative integers. Each access to the database is one turn
-- of an environment: what other clients commit before it, an error with which the server aborts
-- it, and the clock readings and the random UUID that the code takes during it.
pub mod Order
pub mod Tables
pub mod LockOrder
pub mod Reserve
pub mod Prices
pub mod Effect
pub mod Replay
pub mod Atomic
pub mod Tests
use marketplace_template.Prelude.{
  ℕ, zero, suc, ◌+◌, ◌*◌, String, Bool, true, false, not, ◌&&◌, ◌||◌, Option, none, some, List, [],
  ◌∷◌, ◌++◌, map, length, replicate, set, leb, ltb, ◌==◌, text_eq, nat_eq, pair_eq, if◌then◌else◌,
  text_ltb, ◌<>◌, show_nat, Table, lookup, put, values, Result, ok, err, Action, ◌>>=◌, ◌>>◌, pure,
  throw, gets, modify, require, lift, continue,
}
use marketplace_template.Json.{Json, text, object, end, field, property, as_text}
use marketplace_template.Db.{
  Db, Product, OrderRow, OrderItemRow, Job, OutboxRow, KeyRow, paid, pending, OrderStatus,
  JobStatus, rollback, int_max,
}
use marketplace_template.Messaging.Event.{to_order_placed_event, event_json}
use marketplace_template.Common.Retry.{Paced, default_attempts, with_retry}
use Order.{CheckoutItemInput, Indexed, items_in_lock_order}
use Tables.{
  CheckoutError, plain, out_of_stock, insufficient_funds, key_conflict, write_aborted, replay_lost,
  database, code_of, Tx, update_stock, update_balance, insert_order, insert_item, insert_job,
  insert_outbox, insert_key, or_throw,
}

pub record CheckoutInput : Type 0 where
  pub user_id : String
  pub items : List CheckoutItemInput
  pub idempotency_key : Option String
  pub request_hash : Option String
  pub fail_after_outbox : Bool

pub record CheckoutResult : Type 0 where
  pub order_id : String
  pub job_id : String
  pub total_cents : ℕ
  pub unit_prices : List (Option ℕ)
  pub replay : Bool

pub record Turn : Type 0 where
  pub others : Db → Db
  pub fault : Option String
  pub uuid : String
  pub now_iso : String
  pub now : ℕ

pub record PricedItem : Type 0 where
  pub product_id : String
  pub quantity : ℕ
  pub unit_price_cents : ℕ

-- The variables of the reservation loop; an unassigned slot of `unitPrices` is `none`.
pub record Reserved : Type 0 where
  pub total_cents : ℕ
  pub unit_prices : List (Option ℕ)
  pub priced_items : List PricedItem

-- One round for each locked item.
unfoldable pub reserve : List Indexed → Reserved → Tx Reserved
reserve [] acc = pure acc
reserve (l ∷ locked) acc = do
  row ← update_stock l.item.quantity l.item.product_id
  price ← or_throw row out_of_stock
  reserve locked (record {
    total_cents = acc.total_cents + price * l.item.quantity;
    unit_prices = set acc.unit_prices l.index (some price);
    priced_items =
        acc.priced_items
        ++ record {
          product_id = l.item.product_id;
          quantity = l.item.quantity;
          unit_price_cents = price;
        }
          ∷ [];
  })

unfoldable pub insert_items : ℕ → List PricedItem → Tx (Unit {0})
insert_items order_id [] = pure tt
insert_items order_id (p ∷ priced) = do
  insert_item order_id p.product_id p.quantity p.unit_price_cents
  insert_items order_id priced

-- `if (input.idempotencyKey)`: the empty text counts as no key.
unfoldable pub given_key : Option String → Option String
given_key none = none
given_key (some k) = if k == "" then none else some k

abbrev pub or_empty : Option String → String
or_empty none = ""
or_empty (some s) = s

unfoldable pub claim_key : CheckoutInput → ℕ → Tx (Unit {0})
claim_key input order_id = elim (given_key input.idempotency_key) [
  | none ↦ pure tt
  | some key ↦ do
    claimed ← insert_key input.user_id key order_id (or_empty input.request_hash)
    require claimed replay_lost
]

-- The balance is charged, or the checkout ends.
unfoldable pub charge : CheckoutInput → ℕ → Tx (Unit {0})
charge input total = do
  charged ← update_balance total input.user_id
  require charged insufficient_funds

-- The job, the outbox row and the intent key of an order.
unfoldable pub announce : CheckoutInput → Turn → Reserved → ℕ → Tx CheckoutResult
unfolding claim_key
announce input turn done order_id = do
  job_id ← insert_job "order.postprocess" (object (field "orderId" (text (show_nat order_id)) end))
  insert_outbox (show_nat order_id) "order.placed"
      (event_json (
        to_order_placed_event ("order-" <> show_nat order_id) input.user_id done.total_cents
          turn.uuid turn.now_iso))
      turn.now
  require (not input.fail_after_outbox) write_aborted
  claim_key input order_id
  pure (record {
    order_id = show_nat order_id;
    job_id = show_nat job_id;
    total_cents = done.total_cents;
    unit_prices = done.unit_prices;
    replay = false;
  })

-- The order row and its lines, then what is announced of them.
unfoldable pub place : CheckoutInput → Turn → Reserved → Tx CheckoutResult
unfolding insert_items announce
place input turn done = do
  order_id ← insert_order input.user_id done.total_cents
  insert_items order_id done.priced_items
  announce input turn done order_id

abbrev pub nothing_reserved : CheckoutInput → Reserved
nothing_reserved input = record {
  total_cents = 0;
  unit_prices = replicate (length input.items) none;
  priced_items = [];
}

-- The body of the transaction.
unfoldable pub checkout_body : CheckoutInput → List Indexed → Turn → Tx CheckoutResult
unfolding reserve charge place
checkout_body input locked turn = do
  done ← reserve locked (nothing_reserved input)
  charge input done.total_cents
  place input turn done

-- The database as one client sees it: its state, and how many turns have passed.
pub record World : Type 0 where
  pub db : Db
  pub time : ℕ

-- COMMIT keeps what the body wrote; an error rolls it back.
unfoldable pub settle :
    {A : Type 0} → Db → ℕ → Result CheckoutError A × Db → Result CheckoutError A × World
unfolding rollback
settle before time (ok a, after) = (ok a, record { db = after; time = time })
settle before time (err e, after) = (err e, record { db = rollback before after; time = time })

module _ (env : ℕ → Turn) where
  abbrev pub seen : World → Db
  seen w = (env w.time).others w.db

  unfoldable pub transaction : {A : Type 0} → (Turn → Tx A) → Action CheckoutError World A
  unfolding settle
  transaction body w = elim (env w.time).fault [
    | some code ↦ (err (database code), record { db = seen w; time = suc w.time })
    | none ↦ settle (seen w) (suc w.time) (body (env w.time) (seen w))
  ]

  -- A SELECT outside a transaction.
  unfoldable pub select : {A : Type 0} → (Db → A) → Action CheckoutError World A
  select read w = elim (env w.time).fault [
    | some code ↦ (err (database code), record { db = seen w; time = suc w.time })
    | none ↦ (ok (read (seen w)), record { db = seen w; time = suc w.time })
  ]

  unfoldable pub insert_checkout :
      CheckoutInput → List Indexed → Action CheckoutError World CheckoutResult
  unfolding transaction checkout_body
  insert_checkout input locked = transaction (checkout_body input locked)

-- `payload->>'orderId' = o.id::text`
unfoldable pub is_for : String → Option String → Bool
is_for order_id none = false
is_for order_id (some s) = s == order_id

-- `ORDER BY j.id DESC LIMIT 1` among the jobs of an order.
unfoldable pub newest_job : String → Table ℕ Job → Option ℕ
unfolding is_for
newest_job order_id [] = none
newest_job order_id ((id, job) ∷ jobs) =
    let found = newest_job order_id jobs in
    if is_for order_id (as_text (property "orderId" job.payload))
    then some (elim found [ none ↦ id | some other ↦ if ltb id other then other else id ])
    else found

pub record CommittedKey : Type 0 where
  pub order_id : ℕ
  pub request_hash : String
  pub total_cents : ℕ
  pub job_id : Option ℕ

-- SELECT … FROM idempotency_keys k JOIN orders o
unfoldable pub read_key : String → String → Db → Option CommittedKey
unfolding newest_job
read_key user_id key db = elim (lookup (user_id, key) db.idempotency_keys) [
  | none ↦ none
  | some k ↦ elim (lookup k.order_id db.orders) [
    | none ↦ none
    | some o ↦ some (record {
      order_id = k.order_id;
      request_hash = k.request_hash;
      total_cents = o.total_cents;
      job_id = newest_job (show_nat k.order_id) db.jobs;
    })
  ]
]

-- SELECT unit_price_cents FROM order_items WHERE order_id = $1 ORDER BY id: the rows stand in the
-- order of their identities.
unfoldable pub read_prices : ℕ → List OrderItemRow → List (Option ℕ)
read_prices order_id [] = []
read_prices order_id (r ∷ rows) =
    let rest = read_prices order_id rows in
    if r.order_id == order_id then some r.unit_price_cents ∷ rest else rest

abbrev pub job_text : Option ℕ → String
job_text none = ""
job_text (some id) = show_nat id

pub record Committed : Type 0 where
  pub request_hash : String
  pub result : CheckoutResult

unfoldable pub assert_same_intent : String → Option String → Result CheckoutError (Unit {0})
assert_same_intent stored none = ok tt
assert_same_intent stored (some incoming) = if incoming == stored then ok tt else err key_conflict

unfoldable pub validate_items : List CheckoutItemInput → Result CheckoutError (Unit {0})
validate_items [] = ok tt
validate_items (item ∷ items) =
    if ltb item.quantity 1
    then err (plain ("Invalid quantity " <> show_nat item.quantity))
    else validate_items items

unfoldable pub validate_input : List CheckoutItemInput → Result CheckoutError (Unit {0})
unfolding validate_items
validate_input [] = err (plain "Checkout requires at least one item")
validate_input (item ∷ items) = validate_items (item ∷ items)

abbrev replayed : Committed → Option String → Action CheckoutError World CheckoutResult
replayed existing incoming = do
  lift (assert_same_intent existing.request_hash incoming)
  pure existing.result

-- `return await`: the state of the loop without the record of its waits.
abbrev unpaced :
    {A : Type 0} → Result CheckoutError A × Paced World → Result CheckoutError A × World
unpaced (r, p) = (r, p.inner)

module _ (env : ℕ → Turn) where
  unfoldable pub find_committed : String → String → Action CheckoutError World (Option Committed)
  unfolding select read_key read_prices
  find_committed user_id key = do
    row ← select env (read_key user_id key)
    elim row [
      | none ↦ pure none
      | some k ↦ do
        prices ← select env (λ db. read_prices k.order_id db.order_items)
        pure (
            some (record {
              request_hash = k.request_hash;
              result = record {
                order_id = show_nat k.order_id;
                job_id = job_text k.job_id;
                total_cents = k.total_cents;
                unit_prices = prices;
                replay = true;
              };
            }))
    ]

  -- `if (!existing) throw err`
  abbrev pub replay_or_throw :
      CheckoutInput → Option Committed → Action CheckoutError World CheckoutResult
  replay_or_throw input none = throw replay_lost
  replay_or_throw input (some existing) = replayed existing input.request_hash

  -- The `catch` of `checkout`: the transaction that won the key is read back.
  unfoldable pub recover :
      CheckoutInput
      → Result CheckoutError CheckoutResult × World
      → Result CheckoutError CheckoutResult × World
  unfolding find_committed assert_same_intent
  recover input (ok result, w) = (ok result, w)
  recover input (err replay_lost, w) = elim (given_key input.idempotency_key) [
    | none ↦ (err replay_lost, w)
    | some key ↦ continue (replay_or_throw input) (find_committed input.user_id key w)
  ]
  recover input (err e, w) = (err e, w)

  unfoldable pub insert_with_retry : CheckoutInput → Action CheckoutError World CheckoutResult
  unfolding recover insert_checkout items_in_lock_order with_retry code_of
  insert_with_retry input w = recover input (
      unpaced (
        with_retry code_of (plain "unreachable")
          (insert_checkout env input (items_in_lock_order input.items)) default_attempts w))

  -- The lookup before the transaction.
  unfoldable pub find_existing : CheckoutInput → Action CheckoutError World (Option Committed)
  unfolding find_committed
  find_existing input = elim (given_key input.idempotency_key) [
    | none ↦ pure none
    | some key ↦ find_committed input.user_id key
  ]

  unfoldable pub replay_or_insert :
      CheckoutInput → Option Committed → Action CheckoutError World CheckoutResult
  unfolding insert_with_retry
  replay_or_insert input (some existing) = replayed existing input.request_hash
  replay_or_insert input none = insert_with_retry input

  unfoldable pub checkout : CheckoutInput → Action CheckoutError World CheckoutResult
  unfolding validate_input find_existing replay_or_insert
  checkout input = do
    lift (validate_input input.items)
    existing ← find_existing input
    replay_or_insert input existing
