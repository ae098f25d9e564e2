-- ===== src/Ratings.antt =====
-- src/queue: the jobs of rating-queue.service.ts, and what rating.worker.ts does with one. The
-- queue is BullMQ's, so its `add` is a parameter. The adds of one order are started together; each
-- runs whatever becomes of the others, and the first that fails is the error. The URL of the queue
-- is configured.
pub mod Once
pub mod Tests
use marketplace_template.Prelude.{
  ℕ, suc, String, Bool, true, false, Option, none, some, List, [], ◌∷◌, ◌==◌, text_eq,
  if◌then◌else◌, ◌<>◌, Result, ok, err, Action, ◌>>=◌, ◌>>◌, pure,
}
use marketplace_template.Catalog.{Turn, Cards, distinct, hot_product_ids, refresh}

abbrev pub sweep_job : String
sweep_job = "rating-sweep"

abbrev pub recalc_job : String
recalc_job = "recalc-rating"

abbrev pub hot_products : ℕ
hot_products = 20

pub record RatingJob : Type 0 where
  pub name : String
  pub product_id : Option String

-- jobId per order and product.
unfoldable pub recalc_id : String → String → String
recalc_id order_id product_id = "recalc-" <> order_id <> "-" <> product_id

-- The queue, and whether the service holds an open connection to it.
pub record Producer (Queue : Type 0) : Type 0 where
  pub queue : Queue
  pub is_open : Bool

module _ {Queue : Type 0} (add : String → RatingJob → Action String Queue (Unit {0})) where
  abbrev pub first_error :
      Result String (Unit {0}) → Result String (Unit {0}) → Result String (Unit {0})
  first_error (ok u) other = other
  first_error (err message) other = err message

  abbrev pub and_then :
      Result String (Unit {0}) → Result String (Unit {0}) × Queue → Result String (Unit {0}) × Queue
  and_then first (rest, queue) = (first_error first rest, queue)

  -- `Promise.all` of the adds.
  unfoldable pub add_all : String → List String → Action String Queue (Unit {0})
  unfolding recalc_id
  add_all order_id [] queue = (ok tt, queue)
  add_all order_id (product_id ∷ ids) queue =
      let (first, after) =
        add (recalc_id order_id product_id)
          (record { name = recalc_job; product_id = some product_id }) queue in
      and_then first (add_all order_id ids after)

  abbrev pub settle_adds :
      Result String (Unit {0}) × Queue → Result String (Unit {0}) × Producer Queue
  settle_adds (ok u, queue) = (ok tt, record { queue = queue; is_open = true })
  settle_adds (err message, queue) = (err message, record { queue = queue; is_open = false })

  -- A failure closes the connection; the next call opens a fresh one.
  unfoldable pub enqueue_recalc : String → List String → Action String (Producer Queue) (Unit {0})
  unfolding add_all distinct
  enqueue_recalc order_id product_ids p =
      settle_adds (add_all order_id (distinct product_ids) p.queue)

  abbrev pub quietly : Result String (Unit {0}) × Producer Queue → Producer Queue
  quietly (r, p) = p

  -- A failure is only logged.
  unfoldable pub enqueue_recalc_in_background :
      String → List String → Producer Queue → Producer Queue
  unfolding enqueue_recalc
  enqueue_recalc_in_background order_id product_ids p =
      quietly (enqueue_recalc order_id product_ids p)

module _ (bigint_of : String → Option String) (env : ℕ → Turn) where
  unfoldable pub refresh_all : List (ℕ × String) → Cards (Unit {0})
  unfolding refresh
  refresh_all [] = pure tt
  refresh_all ((random, id) ∷ ids) = do refresh bigint_of env random id; refresh_all ids

  -- Each refresh draws its own random number.
  abbrev pub with_random : (ℕ → ℕ) → ℕ → List String → List (ℕ × String)
  with_random random n [] = []
  with_random random n (id ∷ ids) = (random n, id) ∷ with_random random (suc n) ids

  unfoldable pub sweep : (ℕ → ℕ) → Cards (Unit {0})
  unfolding refresh_all hot_product_ids
  sweep random = do
    ids ← hot_product_ids bigint_of env hot_products
    refresh_all (with_random random 0 ids)

  unfoldable pub process : (ℕ → ℕ) → RatingJob → Cards (Unit {0})
  unfolding sweep refresh
  process random job = if job.name == sweep_job then sweep random else elim job.product_id [
    | none ↦ pure tt
    | some id ↦ if id == "" then pure tt else refresh bigint_of env (random 0) id
  ]
