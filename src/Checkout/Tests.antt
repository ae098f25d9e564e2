-- ===== src/Checkout/Tests.antt =====
-- A shop to run checkouts in, and the theorems at it.
use marketplace_template.Prelude.{
  ℕ, String, ◌≡◌, refl, inl, true, false, none, some, List, [], ◌∷◌, map, Result, ok, err, lookup,
  put, text_ltb, show_nat, text_eq, pair_eq,
}
use marketplace_template.Db.{Db, UserRole}
use marketplace_template.Checkout.Order.{CheckoutItemInput, items_in_lock_order}
use marketplace_template.Checkout.Tables.{
  CheckoutError, database, update_stock, update_balance, insert_order, insert_item, insert_job,
  insert_outbox, insert_key,
}
use marketplace_template.Checkout.{
  CheckoutInput, CheckoutResult, Turn, World, given_key, validate_input, checkout_body, checkout,
}
use marketplace_template.Common.Retry.{is_retryable}
use marketplace_template.Checkout.LockOrder.{LocksBefore, lock_order_acyclic}
use marketplace_template.Checkout.Prices.{item_price}
use marketplace_template.Checkout.Effect.{CheckoutEffect, checkout_body-CheckoutEffect}
use marketplace_template.Checkout.Replay.{FreshIds, IsQuiet, checkout_again}
use marketplace_template.Checkout.Atomic.{SameTables, checkout-err}

abbrev pub shop : Db
shop = record {
  users =
      ("3", record { email = "buyer1@shop.local"; role = UserRole.buyer; balance_cents = 1000 })
      ∷ [];
  products =
      (
        "7",
        record { name = "Lamp"; seller_id = "1"; price_cents = 100; stock = 5; is_active = true },
      )
      ∷ (
        "12",
        record { name = "Mug"; seller_id = "1"; price_cents = 30; stock = 9; is_active = true },
      )
      ∷ [];
  orders = [];
  order_items = [];
  jobs = [];
  outbox = [];
  idempotency_keys = [];
  next_order = 1;
  next_item = 1;
  next_job = 1;
  next_outbox = 1;
}

-- Nobody else is there, and nothing fails.
abbrev pub quiet : ℕ → Turn
quiet n = record {
  others = λ db. db;
  fault = none;
  uuid = "00000000-0000-4000-8000-000000000000";
  now_iso = "2026-01-01T00:00:00.000Z";
  now = n;
}

abbrev pub basket : CheckoutInput
basket = record {
  user_id = "3";
  items =
      record { product_id = "7"; quantity = 2 } ∷ record { product_id = "12"; quantity = 3 } ∷ [];
  idempotency_key = some "k";
  request_hash = some "h";
  fail_after_outbox = false;
}

abbrev pub opened : World
opened = record { db = shop; time = 0 }

-- What a run of a checkout computes with.
abbrev pub running : ℕ
unfolding checkout given_key is_retryable lookup put text_ltb show_nat update_stock update_balance
    insert_order insert_item insert_job insert_outbox insert_key
running = 0

basket_runs :
    (checkout quiet basket opened).0
    ≡ ok (record {
      order_id = "1";
      job_id = "1";
      total_cents = 290;
      unit_prices = some 100 ∷ some 30 ∷ [];
      replay = false;
    })
unfolding running
basket_runs = refl

abbrev fresh_shop : FreshIds shop
fresh_shop = record { items_below = tt; jobs_below = tt }

abbrev quiet-IsQuiet : (n : ℕ) → IsQuiet (quiet n)
quiet-IsQuiet n = record { alone = λ db. refl; sound = refl }

-- The tables and the receipt that one run of the transaction leaves.
abbrev first_run : Result CheckoutError CheckoutResult × Db
first_run = checkout_body basket (items_in_lock_order basket.items) (quiet 1) shop

abbrev receipt : CheckoutResult
receipt = record {
  order_id = "1";
  job_id = "1";
  total_cents = 290;
  unit_prices = some 100 ∷ some 30 ∷ [];
  replay = false;
}

first_run_commits : first_run ≡ (ok receipt, first_run.1)
unfolding running
first_run_commits = refl

first_effect : CheckoutEffect basket (quiet 1) shop receipt first_run.1
first_effect =
    checkout_body-CheckoutEffect basket (quiet 1) shop first_run.1 receipt first_run_commits

checkout_body-CheckoutEffect_example : CheckoutEffect basket (quiet 1) shop receipt first_run.1
checkout_body-CheckoutEffect_example =
    checkout_body-CheckoutEffect basket (quiet 1) shop first_run.1 receipt first_run_commits

basket_key : given_key basket.idempotency_key ≡ some "k"
unfolding given_key
basket_key = refl

basket_valid : validate_input basket.items ≡ ok tt
unfolding validate_input
basket_valid = refl

checkout_again_example : checkout quiet basket (record { db = first_run.1; time = 2 }) ≡ (
  ok (record receipt {
    unit_prices = map (λ l. item_price shop l.item) (items_in_lock_order basket.items);
    replay = true;
  }),
  record { db = first_run.1; time = 4 },
)
checkout_again_example =
    checkout_again basket (quiet 1) shop first_run.1 receipt first_effect quiet basket "k" "h" 2
      fresh_shop basket_key refl basket_key refl basket_valid (quiet-IsQuiet 2) (quiet-IsQuiet 3)

-- The replay returns the prices in lock order, "12" before "7", and not in the request's.
replay_prices_order :
    map (λ l. item_price shop l.item) (items_in_lock_order basket.items) ≡ some 30 ∷ some 100 ∷ []
unfolding running
replay_prices_order = refl

-- The server aborts every attempt with a deadlock.
abbrev deadlocked : ℕ → Turn
deadlocked n = record (quiet n) { fault = some "40P01" }

abbrev plain_basket : CheckoutInput
plain_basket = record basket { idempotency_key = none }

abbrev gave_up : World
gave_up = record { db = shop; time = 5 }

five_deadlocks : checkout deadlocked plain_basket opened ≡ (err (database "40P01"), gave_up)
unfolding running
five_deadlocks = refl

checkout-err_example : SameTables shop shop
checkout-err_example =
    checkout-err deadlocked (λ n db. refl) plain_basket opened gave_up (database "40P01")
      five_deadlocks

locks_twelve_first : LocksBefore "12" "7" (items_in_lock_order basket.items)
unfolding items_in_lock_order text_ltb
locks_twelve_first = inl (refl, inl refl)

abbrev two_twelves : List CheckoutItemInput
two_twelves =
    record { product_id = "12"; quantity = 1 } ∷ record { product_id = "12"; quantity = 2 } ∷ []

locks_twelve_twice : LocksBefore "12" "12" (items_in_lock_order two_twelves)
unfolding items_in_lock_order text_ltb
locks_twelve_twice = inl (refl, inl refl)

lock_order_acyclic_example : ◌≡◌ {A = String} "12" "12"
lock_order_acyclic_example =
    lock_order_acyclic two_twelves two_twelves "12" "12" locks_twelve_twice locks_twelve_twice
