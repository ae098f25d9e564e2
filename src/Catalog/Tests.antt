-- ===== src/Catalog/Tests.antt =====
-- One product, read with an empty cache, and behind the lock of another request.
use marketplace_template.Prelude.{
  ℕ, ◌==◌, if◌then◌else◌, Option, ◌<◌, ◌+◌, ◌*◌, ◌-◌, ◌^◌, ◌↔◌, ◌≤◌, String, ◌≡◌, refl, true, false,
  none, some, [], ◌∷◌, arith, text_eq, lookup, put, delete, ok, err,
}
use marketplace_template.Db.{Db}
use marketplace_template.Double.{round_double}
use marketplace_template.Catalog.{
  ProductCard, Cache, RedisValue, Turn, World, live, read_entry, get_card, set_lock, unlock,
  cache_ttl_seconds, product_card_lock_key, card_of, found_card, timed_out, wait_polls,
}
use marketplace_template.Catalog.Source.{FromDb, Truthful, get_card-FromDb}
use marketplace_template.Catalog.Lock.{cache_ttl_seconds_iff, set_lock-Exclusive}
use marketplace_template.Catalog.Wait.{later, Missed, get_card-timeout}

abbrev lamps : Db
lamps = record {
  users = [];
  products =
      (
        "7",
        record { name = "Lamp"; seller_id = "1"; price_cents = 100; stock = 5; is_active = true },
      )
      ∷ [];
  orders = [];
  order_items =
      record { id = 1; order_id = 1; product_id = "7"; quantity = 1; unit_price_cents = 100 }
      ∷ record { id = 2; order_id = 2; product_id = "7"; quantity = 1; unit_price_cents = 100 }
      ∷ record { id = 3; order_id = 2; product_id = "7"; quantity = 3; unit_price_cents = 100 }
      ∷ [];
  jobs = [];
  outbox = [];
  idempotency_keys = [];
  next_order = 3;
  next_item = 4;
  next_job = 1;
  next_outbox = 1;
}

-- A call every 20 ms.
abbrev quiet : ℕ → Turn
quiet n = record { others = λ cache. cache; db = lamps; now = n * 20; fault = none }

-- The cast of the few texts used here: two spellings of 7, and 8.
abbrev as_bigint : String → Option String
as_bigint s =
    if s == "007" then some "7" else if s == "7" then some s else if s == "8" then some s else none

abbrev cold : World
cold = record { cache = record { cards = []; locks = [] }; time = 0 }

abbrev lamp_card : ProductCard
lamp_card = record {
  id = "7";
  name = "Lamp";
  stock = 5;
  price_cents = 100;
  rating = 167;
  order_lines = 3;
}

abbrev warm : World
warm = (get_card as_bigint quiet "t" 0 "7" cold).1

loads : get_card as_bigint quiet "t" 0 "7" cold ≡ (ok (some lamp_card), warm)
unfolding get_card found_card card_of lookup put delete cache_ttl_seconds
loads = refl

-- The cache answers the next request, and the lock is free again.
warm_state :
    ((get_card as_bigint quiet "u" 0 "7" warm).0 ≡ ok (some lamp_card)) × (warm.cache.locks ≡ [])
unfolding get_card found_card card_of lookup put delete cache_ttl_seconds round_double
warm_state = (refl, refl)

not_found : (get_card as_bigint quiet "t" 0 "8" cold).0 ≡ ok none
unfolding get_card found_card card_of lookup put delete cache_ttl_seconds
not_found = refl

-- The product of the number that the text spells; a text that spells none is refused.
spelled :
    ((get_card as_bigint quiet "t" 0 "007" cold).0 ≡ ok (some lamp_card))
    × ((get_card as_bigint quiet "t" 0 "x" cold).0 ≡ err "22P02")
unfolding get_card found_card card_of lookup put delete cache_ttl_seconds round_double
spelled = (refl, refl)

cold-Truthful : Truthful as_bigint quiet "7" cold.cache
unfolding live read_entry lookup
cold-Truthful now card h = absurd (ground arith)

get_card-FromDb_example :
    Truthful as_bigint quiet "7" warm.cache × FromDb as_bigint quiet "7" (some lamp_card)
get_card-FromDb_example =
    get_card-FromDb as_bigint quiet "7" (λ n cache h. h) "t" 0 cold warm (some lamp_card)
      cold-Truthful loads

cache_ttl_seconds_iff_example :
    ((random : ℕ) × (random < 2 ^ 53) × (cache_ttl_seconds random ≡ 347))
    ↔ ((300 ≤ 347) × (347 ≤ 360))
cache_ttl_seconds_iff_example = cache_ttl_seconds_iff 347

-- The largest product is no double: it is rounded down, to 64 parts below 61.
lifetimes :
    (cache_ttl_seconds 0 ≡ 300)
    × (cache_ttl_seconds 9007199254740991 ≡ 360)
    × (round_double 6 (9007199254740991 * 61) ≡ 61 * 2 ^ 53 - 64)
unfolding cache_ttl_seconds round_double
lifetimes = (refl, refl, refl)

abbrev locked : Cache
locked = (set_lock 100 "lock:product-card:7" "t" cold.cache).1

takes_lock : set_lock 100 "lock:product-card:7" "t" cold.cache ≡ (true, locked)
unfolding set_lock live lookup
takes_lock = refl

set_lock-Exclusive_example :
    (set_lock 5099 "lock:product-card:7" "u" locked ≡ (false, locked))
    × (unlock 5099 "lock:product-card:7" "u" locked ≡ (tt, locked))
    × ((set_lock 5099 "lock:product-card:7" "u" (unlock 5099 "lock:product-card:7" "t" locked).1).0
        ≡ true)
set_lock-Exclusive_example =
    set_lock-Exclusive 100 5099 "lock:product-card:7" "t" "u" cold.cache locked takes_lock
      (omega arith) refl

abbrev behind : World
behind = record { cache = locked; time = 5 }

abbrev waited : World
waited = (get_card as_bigint quiet "u" 0 "7" behind).1

gives_up :
    get_card as_bigint quiet "u" 0 "7" behind ≡ (err "cache wait timed out for product 7", waited)
unfolding get_card timed_out lookup put delete cache_ttl_seconds
gives_up = refl

holder :
    (entry : RedisValue String)
    → lookup (product_card_lock_key "7") locked.locks ≡ some entry
    → entry.expires_at ≤ 6 * 20 + 5000
unfolding lookup set_lock live put
holder entry h = ground arith

get_card-timeout_example :
    ("cache wait timed out for product 7" ≡ timed_out "7")
    × Missed as_bigint quiet "7" wait_polls
        (later as_bigint quiet "7" (later as_bigint quiet "7" behind))
    × (live (256 * 20) "lock:product-card:7" locked.locks ≡ none)
get_card-timeout_example =
    get_card-timeout as_bigint quiet "7" "7" refl (λ n. refl) "u" 0 behind waited
      "cache wait timed out for product 7" (λ n h. omega arith) holder gives_up
