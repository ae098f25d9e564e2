-- ===== src/Checkout/Replay.antt =====
-- A request that was committed under its intent key is replayed, never run again.
use marketplace_template.Prelude.{
  ℕ, suc, ◌+◌, String, ◌≡◌, ◌<◌, refl, sym, ap, subst, ◌∙◌, true, none, some, List, [], ◌∷◌, arith,
  ◌==◌, text_eq, nat_eq, pair_eq, show_nat, lookup, put, lookup-put_self, All, ◌++◌, map, Table,
  if◌then◌else◌, Result, ok, err,
}
use marketplace_template.Db.{Db, Job, OrderItemRow, OrderStatus}
use marketplace_template.Checkout.Order.{Indexed, items_in_lock_order}
use marketplace_template.Checkout.Tables.{CheckoutError, key_conflict}
use marketplace_template.Checkout.{
  CheckoutInput, CheckoutResult, Turn, World, CommittedKey, job_text, or_empty, is_for, newest_job,
  given_key, read_key, read_prices, validate_input, select, find_committed, checkout,
}
use marketplace_template.Json.{as_text, property, object, field, text, end}
use package.text.Mathlib.TextPositions.{eq_refl}
use marketplace_template.Checkout.Prices.{item_price, price_lines}
use marketplace_template.Checkout.Effect.{CheckoutEffect, item_rows, with_key, reservation}

-- Nobody else commits and nothing fails in this turn.
pub record IsQuiet (t : Turn) : Type 0 where
  pub alone : (db : Db) → t.others db ≡ db
  pub sound : t.fault ≡ none

-- The result that is read back for a committed key.
abbrev pub replay_of : CommittedKey → Db → CheckoutResult
replay_of k db = record {
  order_id = show_nat k.order_id;
  job_id = job_text k.job_id;
  total_cents = k.total_cents;
  unit_prices = read_prices k.order_id db.order_items;
  replay = true;
}

select-quiet :
    {A : Type 0} (env : ℕ → Turn) (read : Db → A) (w : World)
    → IsQuiet (env w.time)
    → select env read w ≡ (ok (read w.db), record { db = w.db; time = suc w.time })
unfolding select
select-quiet env read w q = ground (arith, q.sound, q.alone w.db)

find_committed-some :
    (env : ℕ → Turn) (user key : String) (w : World) (k : CommittedKey)
    → IsQuiet (env w.time)
    → IsQuiet (env (suc w.time))
    → read_key user key w.db ≡ some k
    → find_committed env user key w ≡ (
      ok (some (record { request_hash = k.request_hash; result = replay_of k w.db })),
      record { db = w.db; time = suc (suc w.time) },
    )
unfolding find_committed
find_committed-some env user key w k q q' e =
    let one = select-quiet env (read_key user key) w q in
    let two =
      select-quiet env (λ db. read_prices k.order_id db.order_items)
        (record { db = w.db; time = suc w.time }) q' in
    rw (one, e, two)

-- What a checkout does with a key that is committed.
abbrev pub answer : CheckoutInput → CommittedKey → Db → Result CheckoutError CheckoutResult
answer input k db = elim input.request_hash [
  | none ↦ ok (replay_of k db)
  | some hash ↦ if hash == k.request_hash then ok (replay_of k db) else err key_conflict
]

-- A checkout whose intent key is committed, with nobody else at work: it returns the committed
-- order as a replay, or a key conflict if it brings another request hash, and changes no table.
pub checkout_committed :
    (env : ℕ → Turn) (input : CheckoutInput) (key : String) (k : CommittedKey) (w : World)
    → IsQuiet (env w.time)
    → IsQuiet (env (suc w.time))
    → validate_input input.items ≡ ok tt
    → given_key input.idempotency_key ≡ some key
    → read_key input.user_id key w.db ≡ some k
    → checkout env input w ≡ (answer input k w.db, record { db = w.db; time = suc (suc w.time) })
unfolding checkout
checkout_committed env input key k w q q' valid given e =
    let found = find_committed-some env input.user_id key w k q q' e in
    ground (arith, valid, given, found)

-- Identities in use are below the sequences: the lines' orders and the jobs.
pub record FreshIds (db : Db) : Type 0 where
  pub items_below : All (λ row. row.order_id < db.next_order) db.order_items
  pub jobs_below : All (λ entry. entry.0 < db.next_job) db.jobs

newest_job-put :
    (order_id : String) (id : ℕ) (job : Job) (jobs : Table ℕ Job)
    → All (λ entry. entry.0 < id) jobs
    → is_for order_id (as_text (property "orderId" job.payload)) ≡ true
    → newest_job order_id (put id job jobs) ≡ some id
unfolding newest_job put
newest_job-put order_id id job [] below e = ground arith
newest_job-put order_id id job ((i, j) ∷ jobs) below e =
    ground (arith, newest_job-put order_id id job jobs below.1 e)

read_prices-below :
    (order_id : ℕ) (rows rest : List OrderItemRow)
    → All (λ row. row.order_id < order_id) rows
    → read_prices order_id (rows ++ rest) ≡ read_prices order_id rest
unfolding read_prices
read_prices-below order_id [] rest below = refl
read_prices-below order_id (r ∷ rows) rest below =
    ground (arith, read_prices-below order_id rows rest below.1)

read_prices-lines :
    (db : Db) (id order_id : ℕ) (ls : List Indexed)
    → read_prices order_id (item_rows id order_id (price_lines db ls))
      ≡ map (λ l. item_price db l.item) ls
unfolding read_prices
read_prices-lines db id order_id [] = refl
read_prices-lines db id order_id (l ∷ ls) =
    ground (arith, read_prices-lines db (id + 1) order_id ls)

-- What a committed checkout leaves to be read back.
abbrev pub committed_key : CheckoutInput → Db → Db → CommittedKey
committed_key input before after = record {
  order_id = before.next_order;
  request_hash = or_empty input.request_hash;
  total_cents = (reservation input before).total_cents;
  job_id = newest_job (show_nat before.next_order) after.jobs;
}

lookup-with_key :
    (input : CheckoutInput) (id : ℕ) (db : Db) (key : String)
    → given_key input.idempotency_key ≡ some key
    → lookup (input.user_id, key) (with_key input id db).idempotency_keys
      ≡ some (record { order_id = id; request_hash = or_empty input.request_hash })
lookup-with_key input id db key given =
    rw (given, with_key) (lookup-put_self _ _ db.idempotency_keys)

-- The key that a checkout writes changes no other table.
orders-with_key :
    (input : CheckoutInput) (id : ℕ) (db : Db)
    → ((with_key input id db).orders ≡ db.orders)
      × ((with_key input id db).jobs ≡ db.jobs)
      × ((with_key input id db).order_items ≡ db.order_items)
orders-with_key input id db = (ground arith, ground arith, ground arith)

order_job :
    (id : String)
    → is_for id (as_text (property "orderId" (object (field "orderId" (text id) end)))) ≡ true
unfolding is_for as_text property
order_job id = eq_refl id

module _ (input : CheckoutInput) (turn : Turn) (before after : Db) (r : CheckoutResult)
    (z : CheckoutEffect input turn before r after) where
  after_key :
      (key : String)
      → given_key input.idempotency_key ≡ some key
      → read_key input.user_id key after ≡ some (committed_key input before after)
  unfolding read_key
  after_key key given =
      let id = before.next_order in
      let k : lookup (input.user_id, key) after.idempotency_keys
          ≡ some (record { order_id = id; request_hash = or_empty input.request_hash }) =
        ap (λ (x : Db). lookup (input.user_id, key) x.idempotency_keys) z.written
        ∙ lookup-with_key input id _ key given in
      let o : lookup id after.orders
          ≡ some (record {
            user_id = input.user_id;
            status = OrderStatus.paid;
            total_cents = (reservation input before).total_cents;
          }) =
        ap (λ (x : Db). lookup id x.orders) z.written
        ∙ ap (lookup id) (orders-with_key input id _).0
        ∙ lookup-put_self id _ before.orders in
      ground (arith, k, o)

  after_job :
      FreshIds before → newest_job (show_nat before.next_order) after.jobs ≡ some before.next_job
  after_job fresh =
      ap (newest_job (show_nat before.next_order))
        (ap (λ (x : Db). x.jobs) z.written ∙ (orders-with_key input before.next_order _).1)
      ∙ newest_job-put (show_nat before.next_order) before.next_job _ before.jobs fresh.jobs_below
          (order_job (show_nat before.next_order))

  after_prices :
      FreshIds before
      → read_prices before.next_order after.order_items
        ≡ map (λ l. item_price before l.item) (items_in_lock_order input.items)
  after_prices fresh =
      ap (read_prices before.next_order)
        (ap (λ (x : Db). x.order_items) z.written ∙ (orders-with_key input before.next_order _).2)
      ∙ read_prices-below before.next_order before.order_items _ fresh.items_below
      ∙ read_prices-lines before before.next_item before.next_order
          (items_in_lock_order input.items)

  -- After a checkout that committed under an intent key, the same buyer's request with that key
  -- and a request hash, with nobody else at work, changes no table. With the same hash it returns
  -- the first order's id, job and total as a replay, with the unit prices in lock order; with
  -- another hash it is a conflict.
  pub checkout_again :
      (env : ℕ → Turn) (again : CheckoutInput) (key hash : String) (time : ℕ)
      → FreshIds before
      → given_key input.idempotency_key ≡ some key
      → again.user_id ≡ input.user_id
      → given_key again.idempotency_key ≡ some key
      → again.request_hash ≡ some hash
      → validate_input again.items ≡ ok tt
      → IsQuiet (env time)
      → IsQuiet (env (suc time))
      → checkout env again (record { db = after; time = time }) ≡ (
        (if hash == or_empty input.request_hash
            then ok (record r {
              unit_prices = map (λ l. item_price before l.item) (items_in_lock_order input.items);
              replay = true;
            })
            else err key_conflict),
        record { db = after; time = suc (suc time) },
      )
  checkout_again env again key hash time fresh given user given' hashed valid q q' =
      checkout_committed env again key (committed_key input before after)
        (record { db = after; time = time }) q q' valid given'
        (subst (λ u. read_key u key after ≡ some (committed_key input before after)) (sym user)
          (after_key key given))
      ∙ ground (arith, hashed, after_job fresh, after_prices fresh, z.result)
