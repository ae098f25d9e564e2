-- ===== src/Checkout/Effect.antt =====
-- What a checkout that commits has written, table by table.
use marketplace_template.Prelude.{
  ℕ, ◌+◌, ◌-◌, ◌≤◌, String, ◌≡◌, refl, sym, ap, subst, ◌∙◌, inl, inr, Bool, true, false, not, none,
  some, List, [], ◌∷◌, ◌++◌, map, arith, length, nat_eq, text_eq, pair_eq, ◌<>◌, show_nat, Table,
  lookup, put, Option-cases, ok, continue-ok, require, require-ok, pure-ok,
}
use mathlib.Core.Path.{ap₂}
use mathlib.Core.Option.{some-injective}
use mathlib.Core.List.{append-nil, append_assoc}
use marketplace_template.Json.{text, object, end, field}
use marketplace_template.Db.{Db, User, Product, OrderItemRow, OrderStatus, JobStatus}
use marketplace_template.Messaging.Event.{to_order_placed_event, event_json}
use marketplace_template.Checkout.Order.{items_in_lock_order}
use marketplace_template.Checkout.Tables.{
  insufficient_funds, write_aborted, update_balance, insert_order, insert_item, insert_job,
  insert_outbox, insert_key,
}
use marketplace_template.Checkout.{
  CheckoutInput, CheckoutResult, Turn, PricedItem, nothing_reserved, Reserved, or_empty, reserve,
  insert_items, given_key, claim_key, charge, announce, place, checkout_body,
}
use marketplace_template.Checkout.Reserve.{reserve-Reserves, cost, ordered, less_stock, has_stock}
use marketplace_template.Checkout.Prices.{
  reserve_prices, unit_prices_aligned, item_price, price_lines,
}

-- The rows of `order_items` for some priced lines, from a first identity.
abbrev pub item_rows : ℕ → ℕ → List PricedItem → List OrderItemRow
item_rows id order_id [] = []
item_rows id order_id (p ∷ ps) =
    record {
      id = id;
      order_id = order_id;
      product_id = p.product_id;
      quantity = p.quantity;
      unit_price_cents = p.unit_price_cents;
    }
    ∷ item_rows (id + 1) order_id ps

abbrev pub with_items : ℕ → List PricedItem → Db → Db
with_items order_id ps db = record db {
  order_items = db.order_items ++ item_rows db.next_item order_id ps;
  next_item = db.next_item + length ps;
}

insert_item-ok :
    (order_id : ℕ) (p : PricedItem) (db db' : Db) {u : Unit {0}}
    → insert_item order_id p.product_id p.quantity p.unit_price_cents db ≡ (ok u, db')
    → db' ≡ with_items order_id (p ∷ []) db
unfolding insert_item
insert_item-ok order_id p db db' h = ground arith

with_items-cons :
    (order_id : ℕ) (p : PricedItem) (ps : List PricedItem) (db : Db)
    → with_items order_id (p ∷ ps) db ≡ with_items order_id ps (with_items order_id (p ∷ []) db)
with_items-cons order_id p ps db = ground (
  arith,
  append_assoc db.order_items (item_rows db.next_item order_id (p ∷ []))
      (item_rows (db.next_item + 1) order_id ps),
)

insert_items-ok :
    (order_id : ℕ) (ps : List PricedItem) (db db' : Db) {u : Unit {0}}
    → insert_items order_id ps db ≡ (ok u, db')
    → db' ≡ with_items order_id ps db
unfolding insert_items
insert_items-ok order_id [] db db' h = ground (arith, append-nil db.order_items)
insert_items-ok order_id (p ∷ ps) db db' h =
    let (u, d, e, k) =
      continue-ok _ (insert_item order_id p.product_id p.quantity p.unit_price_cents db) h in
    let ih = insert_items-ok order_id ps d db' k in
    ih
    ∙ ap (with_items order_id ps) (insert_item-ok order_id p db d e)
    ∙ sym (with_items-cons order_id p ps db)

update_balance-true :
    (total : ℕ) (id : String) (db db' : Db)
    → update_balance total id db ≡ (ok true, db')
    → (u : User) × (lookup id db.users ≡ some u)
      × (total ≤ u.balance_cents)
      × (db' ≡ record db {
        users = put id (record u { balance_cents = u.balance_cents - total }) db.users;
      })
unfolding update_balance
update_balance-true total id db db' h = elim (Option-cases (lookup id db.users)) [
  | inl e ↦ ground arith
  | inr (u, e) ↦ (u, e, ground arith, ground arith)
]

-- The intent key of a checkout points to its order.
abbrev pub with_key : CheckoutInput → ℕ → Db → Db
with_key input order_id db = elim (given_key input.idempotency_key) [
  | none ↦ db
  | some key ↦ record db {
    idempotency_keys =
        put (input.user_id, key)
          (record { order_id = order_id; request_hash = or_empty input.request_hash })
          db.idempotency_keys;
  }
]

claim_key-ok :
    (input : CheckoutInput) (order_id : ℕ) (db db' : Db) {u : Unit {0}}
    → claim_key input order_id db ≡ (ok u, db')
    → (db' ≡ with_key input order_id db)
      × ((key : String)
          → given_key input.idempotency_key ≡ some key
          → lookup (input.user_id, key) db.idempotency_keys ≡ none)
unfolding claim_key insert_key
claim_key-ok input order_id db db' h = elim (Option-cases (given_key input.idempotency_key)) [
  | inl e ↦ (ground arith, λ key k. ground arith)
  | inr (key, e) ↦ elim (Option-cases (lookup (input.user_id, key) db.idempotency_keys)) [
    | inl free ↦ (ground arith, λ key' k. rw (some-injective key' key (sym k ∙ e)) free)
    | inr (row, taken) ↦ (ground arith, λ key' k. ground arith)
  ]
]

-- The order row of a charged checkout.
abbrev pub with_row : CheckoutInput → Reserved → Db → Db
with_row input done db = record db {
  orders =
      put db.next_order
        (record {
          user_id = input.user_id;
          status = OrderStatus.paid;
          total_cents = done.total_cents;
        })
        db.orders;
  next_order = db.next_order + 1;
}

-- The job and the outbox row of an order.
abbrev pub with_event : CheckoutInput → Turn → Reserved → ℕ → Db → Db
with_event input turn done id db = record db {
  jobs =
      put db.next_job
        (record {
          kind = "order.postprocess";
          payload = object (field "orderId" (text (show_nat id)) end);
          status = JobStatus.pending;
          processed_count = 0;
          worker_id = none;
        })
        db.jobs;
  outbox =
      put db.next_outbox
        (record {
          aggregate_id = show_nat id;
          type = "order.placed";
          payload = event_json (
              to_order_placed_event ("order-" <> show_nat id) input.user_id done.total_cents
                turn.uuid turn.now_iso);
          created_at = turn.now;
          published_at = none;
          attempts = 0;
        })
        db.outbox;
  next_job = db.next_job + 1;
  next_outbox = db.next_outbox + 1;
}

abbrev pub with_order : CheckoutInput → Turn → Reserved → Db → Db
with_order input turn done db = with_key input db.next_order (
    with_event input turn done db.next_order
      (with_items db.next_order done.priced_items (with_row input done db)))

abbrev pub receipt : Reserved → ℕ → ℕ → CheckoutResult
receipt done order_id job_id = record {
  order_id = show_nat order_id;
  job_id = show_nat job_id;
  total_cents = done.total_cents;
  unit_prices = done.unit_prices;
  replay = false;
}

abbrev pub KeyFree : CheckoutInput → Db → Type 0
KeyFree input db =
    (key : String)
    → given_key input.idempotency_key ≡ some key
    → lookup (input.user_id, key) db.idempotency_keys ≡ none

not-eq-true : (b : Bool) → not b ≡ true → b ≡ false
not-eq-true true h = ground arith
not-eq-true false h = refl

charge-ok :
    (input : CheckoutInput) (total : ℕ) (db db' : Db) {u : Unit {0}}
    → charge input total db ≡ (ok u, db')
    → update_balance total input.user_id db ≡ (ok true, db')
unfolding charge
charge-ok input total db db' h =
    let (b, d, e, k) = continue-ok _ (update_balance total input.user_id db) h in
    let (t, s) = require-ok b insufficient_funds d db' k in
    e ∙ ap₂ (λ (x : Bool) (y : Db). (ok x, y)) t (sym s)

announce-ok :
    (input : CheckoutInput) (turn : Turn) (done : Reserved) (id : ℕ) (db db' : Db)
    (r : CheckoutResult)
    → announce input turn done id db ≡ (ok r, db')
    → (input.fail_after_outbox ≡ false)
      × KeyFree input db
      × (r ≡ receipt done id db.next_job)
      × (db' ≡ with_key input id (with_event input turn done id db))
unfolding announce insert_job insert_outbox
announce-ok input turn done id db db' r h =
    let next : Db = with_event input turn done id db in
    let (u, d, e, k) = continue-ok _ (require (not input.fail_after_outbox) write_aborted next) h in
    let (go, same) = require-ok (not input.fail_after_outbox) write_aborted next d e in
    let (v, d', e', k') = continue-ok _ (claim_key input id d) k in
    let (written, free) = claim_key-ok input id d d' e' in
    (
      not-eq-true _ go,
      λ key given.
          subst (λ (x : Db). lookup (input.user_id, key) x.idempotency_keys ≡ none) same
            (free key given),
      (pure-ok _ d' db' k').0,
      (pure-ok _ d' db' k').1 ∙ written ∙ ap (with_key input id) same,
    )

place-ok :
    (input : CheckoutInput) (turn : Turn) (done : Reserved) (db db' : Db) (r : CheckoutResult)
    → place input turn done db ≡ (ok r, db')
    → (input.fail_after_outbox ≡ false)
      × KeyFree input db
      × (r ≡ receipt done db.next_order db.next_job)
      × (db' ≡ with_order input turn done db)
unfolding place insert_order
place-ok input turn done db db' r h =
    let next : Db = with_row input done db in
    let (u, d, e, k) = continue-ok _ (insert_items db.next_order done.priced_items next) h in
    let same = insert_items-ok db.next_order done.priced_items next d e in
    let (a, f, q, w) = announce-ok input turn done db.next_order d db' r k in
    (
      a,
      λ key given.
          subst (λ (x : Db). lookup (input.user_id, key) x.idempotency_keys ≡ none) same
            (f key given),
      q ∙ ap (λ (x : Db). receipt done db.next_order x.next_job) same,
      w
          ∙ ap
              (λ (x : Db).
                with_key input db.next_order (with_event input turn done db.next_order x))
              same,
    )

-- The state of a checkout's variables after the loop, for its request and the stock it saw.
abbrev pub reservation : CheckoutInput → Db → Reserved
reservation input db = record {
  total_cents = cost db (items_in_lock_order input.items);
  unit_prices = map (item_price db) input.items;
  priced_items = price_lines db (items_in_lock_order input.items);
}

-- The tables that a buyer has paid from.
abbrev pub charged : CheckoutInput → ℕ → User → Db → Db → Db
charged input total buyer before after = record before {
  products = after.products;
  users =
      put input.user_id (record buyer { balance_cents = buyer.balance_cents - total }) before.users;
}

pub record CheckoutEffect (input : CheckoutInput) (turn : Turn) (before : Db) (r : CheckoutResult)
    (after : Db) : Type 0 where
  pub buyer : User
  pub buyer_found : lookup input.user_id before.users ≡ some buyer
  pub affordable : (reservation input before).total_cents ≤ buyer.balance_cents
  pub stock :
      (id : String)
      → lookup id after.products
        ≡ less_stock (ordered id (items_in_lock_order input.items)) (lookup id before.products)
  pub in_stock :
      (id : String)
      → has_stock (ordered id (items_in_lock_order input.items)) (lookup id before.products) ≡ true
  pub not_aborted : input.fail_after_outbox ≡ false
  pub key_free : KeyFree input before
  pub result : r ≡ receipt (reservation input before) before.next_order before.next_job
  pub written :
      after
      ≡ with_order input turn
          (reservation input before)
          (charged input (reservation input before).total_cents buyer before after)

reservation_lem :
    (input : CheckoutInput) (db db' : Db) (done : Reserved)
    → reserve (items_in_lock_order input.items) (nothing_reserved input) db ≡ (ok done, db')
    → done ≡ reservation input db
reservation_lem input db db' done h =
    let ls = items_in_lock_order input.items in
    let total = (reserve-Reserves ls (nothing_reserved input) done db db' h).total in
    let (prices, lines) = reserve_prices ls (nothing_reserved input) done db db' h in
    let aligned = prices ∙ unit_prices_aligned db input.items in
    ground (arith, total, aligned, lines)

products-with_order :
    (input : CheckoutInput) (turn : Turn) (done : Reserved) (db : Db)
    → (with_order input turn done db).products ≡ db.products
products-with_order input turn done db = ground arith

effect_of_parts :
    (input : CheckoutInput) (turn : Turn) (db d1 d2 db' : Db) (done : Reserved) (r : CheckoutResult)
    → reserve (items_in_lock_order input.items) (nothing_reserved input) db ≡ (ok done, d1)
    → update_balance done.total_cents input.user_id d1 ≡ (ok true, d2)
    → (input.fail_after_outbox ≡ false)
      × KeyFree input d2
      × (r ≡ receipt done d2.next_order d2.next_job)
      × (db' ≡ with_order input turn done d2)
    → CheckoutEffect input turn db r db'
effect_of_parts input turn db d1 d2 db' done r e1 e2 (a, f, q, w) =
    let ls = items_in_lock_order input.items in
    let z = reserve-Reserves ls (nothing_reserved input) done db d1 e1 in
    let d = reservation_lem input db d1 done e1 in
    let (buyer, found, enough, paid) =
      update_balance-true done.total_cents input.user_id d1 d2 e2 in
    let total : done.total_cents ≡ (reservation input db).total_cents =
      ap (λ (x : Reserved). x.total_cents) d in
    let shelves : db'.products ≡ d2.products =
      ap (λ (x : Db). x.products) w ∙ products-with_order input turn done d2 in
    let base : d2 ≡ charged input (reservation input db).total_cents buyer db d2 =
      paid
      ∙ ap (λ (x : Db). charged input done.total_cents buyer x d1) z.rest
      ∙ ap (λ (n : ℕ). charged input n buyer db d1) total
      ∙ ap
          (λ (t : Table String Product).
            charged input (reservation input db).total_cents buyer db (record db { products = t }))
          (sym (ap (λ (x : Db). x.products) paid)) in
    record {
      buyer = buyer;
      buyer_found = sym (ap (λ (x : Db). lookup input.user_id x.users) z.rest) ∙ found;
      affordable = subst (λ (n : ℕ). n ≤ buyer.balance_cents) total enough;
      stock = λ id. ap (lookup id) (shelves ∙ ap (λ (x : Db). x.products) paid) ∙ z.stock id;
      in_stock = z.enough;
      not_aborted = a;
      key_free = λ key given.
          subst (λ (x : Db). lookup (input.user_id, key) x.idempotency_keys ≡ none) base
            (f key given);
      result = q ∙ ap₂ (λ (x : Reserved) (y : Db). receipt x y.next_order y.next_job) d base;
      written =
          w
          ∙ ap₂ (with_order input turn) d (
              base
              ∙ ap
                  (λ (t : Table String Product).
                    charged input (reservation input db).total_cents buyer db
                      (record db { products = t }))
                  (sym shelves));
    }

-- A checkout body that returns has charged the buyer, who could pay, the price of the request,
-- has taken each product's ordered quantity out of the stock of a row that was there, active and
-- had it, and has written exactly one paid order, a line for each item, one job, one unpublished
-- order.placed row and the intent key, which was free. It returns the unit prices in the order of the request.
pub checkout_body-CheckoutEffect :
    (input : CheckoutInput) (turn : Turn) (db db' : Db) (r : CheckoutResult)
    → checkout_body input (items_in_lock_order input.items) turn db ≡ (ok r, db')
    → CheckoutEffect input turn db r db'
unfolding checkout_body
checkout_body-CheckoutEffect input turn db db' r h =
    let ls = items_in_lock_order input.items in
    let (done, d1, e1, k1) = continue-ok _ (reserve ls (nothing_reserved input) db) h in
    let (u, d2, e2, k2) = continue-ok _ (charge input done.total_cents d1) k1 in
    effect_of_parts input turn db d1 d2 db' done r e1 (charge-ok input done.total_cents d1 d2 e2)
      (place-ok input turn done d2 db' r k2)
