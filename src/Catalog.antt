-- ===== src/Catalog.antt =====
-- src/catalog: the product card behind a cache, of product-card.service.ts,
-- product-card.repository.ts and products.controller.ts. A card in Redis is kept as its record,
-- not as the JSON text of it. Every call of Redis or of PostgreSQL is one turn of an environment:
-- what other clients do to Redis before it, the tables, the clock in milliseconds, and the error
-- with which the call fails, if it does. The cast `$1::bigint` is PostgreSQL's: a parameter that
-- returns the id as a product row prints it, or none for a text that it refuses.
mod Redis
pub mod Source
pub mod Lock
pub mod Wait
pub mod Tests
unfoldable pub use Redis.*
use marketplace_template.Prelude.{
  ℕ, zero, suc, ◌+◌, ◌*◌, ◌/◌, ◌^◌, String, Bool, true, false, not, take, Option, none, some, List,
  [], ◌∷◌, ◌==◌, text_eq, if◌then◌else◌, ◌<>◌, show_nat, leb, nat_beq, length, map, keep, Table,
  lookup, put, delete, Result, ok, err, Action, ◌>>=◌, ◌>>◌, pure, throw, continue,
}
use marketplace_template.Db.{Db, Product, OrderItemRow}
use marketplace_template.RateLimit.{ProblemException}

abbrev pub Cards : Type 0 → Type 0
Cards = Action String World

unfoldable pub timed_out : String → String
timed_out product_id = "cache wait timed out for product " <> product_id

-- The result of the query, from that of the cast.
unfoldable pub found_card : Option String → Db → Result String (Option ProductCard)
unfolding card_of
found_card none db = err "22P02"
found_card (some id) db = ok (card_of db id)

module _ (bigint_of : String → Option String) (env : ℕ → Turn) where
  abbrev pub seen : World → Cache
  seen w = (env w.time).others w.cache

  -- One call of Redis.
  unfoldable pub call : {A : Type 0} → (ℕ → Cache → A × Cache) → Cards A
  call command w = elim (env w.time).fault [
    | some message ↦ (err message, record { cache = seen w; time = suc w.time })
    | none ↦
        let (answer, after) = command (env w.time).now (seen w) in
        (ok answer, record { cache = after; time = suc w.time })
  ]

  abbrev pub get : String → ℕ → Cache → Option CachedProductCard × Cache
  get key now cache = (live now key cache.cards, cache)

  unfoldable pub read_cache : String → Cards (Option (Option ProductCard))
  unfolding call live read_entry
  read_cache key = do raw ← call (get key); pure (read_entry raw)

  abbrev pub set_card : String → CachedProductCard → ℕ → ℕ → Cache → Unit {0} × Cache
  set_card key payload ttl now cache = (
    tt,
    record cache {
      cards = put key (record { value = payload; expires_at = now + ttl * 1000 }) cache.cards;
    },
  )

  abbrev pub ignore : Result String (Unit {0}) × World → Result String (Unit {0}) × World
  ignore (ok u, w) = (ok u, w)
  ignore (err message, w) = (ok tt, w)

  -- A write that fails is only logged.
  unfoldable pub write_cache : ℕ → String → Option ProductCard → Cards (Unit {0})
  unfolding call payload_of cache_ttl_seconds
  write_cache random key card w =
      ignore (call (set_card key (payload_of card) (cache_ttl_seconds random)) w)

  -- The query of the repository.
  unfoldable pub load : String → Cards (Option ProductCard)
  unfolding found_card
  load product_id w = elim (env w.time).fault [
    | some message ↦ (err message, record { cache = seen w; time = suc w.time })
    | none ↦ (
      found_card (bigint_of product_id) (env w.time).db,
      record { cache = seen w; time = suc w.time },
    )
  ]

  unfoldable pub hot_product_ids : ℕ → Cards (List String)
  unfolding hot_ids
  hot_product_ids limit w = elim (env w.time).fault [
    | some message ↦ (err message, record { cache = seen w; time = suc w.time })
    | none ↦ (ok (hot_ids (env w.time).db limit), record { cache = seen w; time = suc w.time })
  ]

  -- `finally`: the unlock runs after either end, and its own error replaces the result.
  abbrev pub finally :
      {A : Type 0} → Cards (Unit {0}) → Result String A × World → Result String A × World
  finally last (r, w) = continue (λ _ v. (r, v)) (last w)

  unfoldable pub load_and_write : ℕ → String → Cards (Option ProductCard)
  unfolding load write_cache
  load_and_write random product_id = do
    card ← load product_id
    write_cache random (product_card_key product_id) card
    pure card

  unfoldable pub rebuild : ℕ → String → Cards (Option ProductCard)
  unfolding read_cache load_and_write
  rebuild random product_id = do
    again ← read_cache (product_card_key product_id)
    elim again [ some card ↦ pure card | none ↦ load_and_write random product_id ]

  -- The polls that are left; each follows a sleep.
  unfoldable pub wait_for : String → ℕ → Cards (Option ProductCard)
  unfolding read_cache timed_out
  wait_for product_id zero = throw (timed_out product_id)
  wait_for product_id (suc polls) = do
    waited ← read_cache (product_card_key product_id)
    elim waited [ some card ↦ pure card | none ↦ wait_for product_id polls ]

  unfoldable pub rebuild_locked : String → ℕ → String → Cards (Option ProductCard)
  unfolding rebuild unlock call
  rebuild_locked token random product_id w =
      finally (call (λ now. unlock now (product_card_lock_key product_id) token))
        (rebuild random product_id w)

  unfoldable pub rebuild_or_wait : String → ℕ → String → Bool → Cards (Option ProductCard)
  unfolding rebuild_locked wait_for
  rebuild_or_wait token random product_id true = rebuild_locked token random product_id
  rebuild_or_wait token random product_id false = wait_for product_id wait_polls

  unfoldable pub get_card : String → ℕ → String → Cards (Option ProductCard)
  unfolding read_cache set_lock rebuild_or_wait
  get_card token random product_id = do
    cached ← read_cache (product_card_key product_id)
    elim cached [
      | some card ↦ pure card
      | none ↦ do
        acquired ← call (λ now. set_lock now (product_card_lock_key product_id) token)
        rebuild_or_wait token random product_id acquired
    ]

  unfoldable pub refresh : ℕ → String → Cards (Unit {0})
  unfolding load write_cache
  refresh random product_id = do
    card ← load product_id
    write_cache random (product_card_key product_id) card

unfoldable pub product_not_found : String → ProblemException
product_not_found id = record {
  status = 404;
  type = "https://marketplace.local/problems/product-not-found";
  title = "Product not found";
  detail = "Product with the given id does not exist";
  instance_url = "/v1/products/" <> id;
}

-- The answer of the route to a card.
unfoldable pub card_response : String → Option ProductCard → Result ProblemException ProductCard
unfolding product_not_found
card_response id none = err (product_not_found id)
card_response id (some card) = ok card
