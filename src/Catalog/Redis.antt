-- ===== src/Catalog/Redis.antt =====
-- src/catalog: the data of the cache, the commands of Redis on it, and the queries of the cards.
use marketplace_template.Prelude.{
  ℕ, ◌+◌, ◌*◌, ◌/◌, ◌^◌, String, Bool, true, false, not, take, Option, none, some, List, [], ◌∷◌,
  ◌==◌, text_eq, if◌then◌else◌, ◌<>◌, leb, length, map, keep, Table, lookup, put, delete,
}
use marketplace_template.Db.{Db, OrderItemRow}
use marketplace_template.Double.{round_double}

-- The rating is the average with two decimals, counted in hundredths.
pub record ProductCard : Type 0 where
  pub id : String
  pub name : String
  pub stock : ℕ
  pub price_cents : ℕ
  pub rating : ℕ
  pub order_lines : ℕ

pub record CachedProductCard : Type 0 where
  pub found : Bool
  pub card : Option ProductCard

-- A value of Redis with the time at which it expires.
pub record RedisValue (V : Type 0) : Type 0 where
  pub value : V
  pub expires_at : ℕ

pub record Cache : Type 0 where
  pub cards : Table String (RedisValue CachedProductCard)
  pub locks : Table String (RedisValue String)

pub record Turn : Type 0 where
  pub others : Cache → Cache
  pub db : Db
  pub now : ℕ
  pub fault : Option String

pub record World : Type 0 where
  pub cache : Cache
  pub time : ℕ

abbrev pub cache_ttl_base_sec : ℕ
cache_ttl_base_sec = 300

abbrev pub cache_ttl_jitter_sec : ℕ
cache_ttl_jitter_sec = 60

abbrev pub lock_ttl_ms : ℕ
lock_ttl_ms = 5000

abbrev pub wait_poll_ms : ℕ
wait_poll_ms = 20

-- `Math.ceil(LOCK_TTL_MS / WAIT_POLL_MS)`
abbrev pub wait_polls : ℕ
wait_polls = 250

-- `random()` is this number of 2^53 parts of one, below 2^53, so the product is below 2^59.
unfoldable pub cache_ttl_seconds : ℕ → ℕ
cache_ttl_seconds random =
    cache_ttl_base_sec + round_double 6 (random * (cache_ttl_jitter_sec + 1)) / 2 ^ 53

abbrev pub product_card_key : String → String
product_card_key product_id = "product-card:" <> product_id

abbrev pub product_card_lock_key : String → String
product_card_lock_key product_id = "lock:product-card:" <> product_id

-- `GET`: an entry past its time is not there.
unfoldable pub live : {V : Type 0} → ℕ → String → Table String (RedisValue V) → Option V
live now key table = elim (lookup key table) [
  | none ↦ none
  | some entry ↦ if leb entry.expires_at now then none else some entry.value
]

-- The sum of the quantities of the order lines.
abbrev pub total_quantity : List OrderItemRow → ℕ
total_quantity [] = 0
total_quantity (row ∷ rows) = row.quantity + total_quantity rows

-- `ROUND(AVG(quantity)::numeric, 2)`, and 0 of no lines.
unfoldable pub rating_of : List OrderItemRow → ℕ
rating_of [] = 0
rating_of (row ∷ rows) =
    let lines = length (row ∷ rows) in (total_quantity (row ∷ rows) * 200 + lines) / (2 * lines)

-- The row of `load` for the id that the cast made, with the aggregate over its order lines.
unfoldable pub card_of : Db → String → Option ProductCard
unfolding rating_of
card_of db product_id = elim (lookup product_id db.products) [
  | none ↦ none
  | some p ↦
      let lines = keep (λ r. r.product_id == product_id) db.order_items in
      some (record {
        id = product_id;
        name = p.name;
        stock = p.stock;
        price_cents = p.price_cents;
        rating = rating_of lines;
        order_lines = length lines;
      })
]

-- Each id once, in the order of its first row.
unfoldable pub distinct : List String → List String
distinct [] = []
distinct (id ∷ ids) = id ∷ keep (λ other. not (other == id)) (distinct ids)

unfoldable pub lines_of : Db → String → ℕ
lines_of db id = length (keep (λ r. r.product_id == id) db.order_items)

-- `ORDER BY COUNT(*) DESC`; of two products with one count, the one whose row is first.
unfoldable pub insert_by_count : Db → String → List String → List String
unfolding lines_of
insert_by_count db id [] = id ∷ []
insert_by_count db id (other ∷ ids) =
    if leb (lines_of db other) (lines_of db id)
    then id ∷ other ∷ ids
    else other ∷ insert_by_count db id ids

unfoldable pub sort_by_count : Db → List String → List String
unfolding insert_by_count
sort_by_count db [] = []
sort_by_count db (id ∷ ids) = insert_by_count db id (sort_by_count db ids)

unfoldable pub hot_ids : Db → ℕ → List String
unfolding distinct sort_by_count
hot_ids db limit = take limit (sort_by_count db (distinct (map (λ r. r.product_id) db.order_items)))

unfoldable pub read_entry : Option CachedProductCard → Option (Option ProductCard)
read_entry none = none
read_entry (some parsed) = some (if parsed.found then parsed.card else none)

unfoldable pub payload_of : Option ProductCard → CachedProductCard
payload_of none = record { found = false; card = none }
payload_of (some card) = record { found = true; card = some card }

-- `SET key token PX ttl NX`
unfoldable pub set_lock : ℕ → String → String → Cache → Bool × Cache
unfolding live
set_lock now key token cache = elim (live now key cache.locks) [
  | some other ↦ (false, cache)
  | none ↦ (
    true,
    record cache {
      locks = put key (record { value = token; expires_at = now + lock_ttl_ms }) cache.locks;
    },
  )
]

-- UNLOCK_LUA
unfoldable pub unlock : ℕ → String → String → Cache → Unit {0} × Cache
unfolding live
unlock now key token cache = elim (live now key cache.locks) [
  | none ↦ (tt, cache)
  | some holder ↦
      if holder == token then (tt, record cache { locks = delete key cache.locks }) else (tt, cache)
]
