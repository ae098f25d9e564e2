-- ===== src/Ratings/Once.antt =====
-- A repeated enqueue of an order is one job for each of its products.
use marketplace_template.Prelude.{
  String, ◌≡◌, refl, sym, ap, subst, ◌∙◌, true, some, List, [], ◌∷◌, arith, Result, ok, err, Action,
  All,
}
use marketplace_template.Catalog.{distinct}
use marketplace_template.Ratings.{
  RatingJob, recalc_job, recalc_id, Producer, and_then, add_all, settle_adds, enqueue_recalc,
}

module _ {Queue : Type 0} (add : String → RatingJob → Action String Queue (Unit {0}))
    (Has : String → Queue → Type 0)
    (adds : (id : String) (job : RatingJob) (q q' : Queue) (u : Unit {0})
      → add id job q ≡ (ok u, q')
      → Has id q')
    (keeps : (id other : String) (job : RatingJob) (q : Queue)
      → Has other q
      → Has other (add id job q).1)
    (ignores : (id : String) (job : RatingJob) (q : Queue)
      → Has id q
      → add id job q ≡ (ok tt, q)) where
  and_then-queue :
      (first : Result String (Unit {0})) (p : Result String (Unit {0}) × Queue)
      → (and_then add first p).1 ≡ p.1
  and_then-queue first (rest, q) = refl

  and_then-ok :
      (first : Result String (Unit {0})) (p : Result String (Unit {0}) × Queue) (q : Queue)
      (u : Unit {0})
      → and_then add first p ≡ (ok u, q)
      → (first ≡ ok tt) × (p ≡ (ok u, q))
  and_then-ok (ok v) (rest, q') q u h = (refl, h)
  and_then-ok (err message) (rest, q') q u h = ground arith

  abbrev HasAll : String → List String → Queue → Type 0
  HasAll order_id ids q = All (λ id. Has (recalc_id order_id id) q) ids

  add_all-keeps :
      (order_id : String) (ids : List String) (other : String) (q : Queue)
      → Has other q
      → Has other (add_all add order_id ids q).1
  unfolding add_all
  add_all-keeps order_id [] other q h = h
  add_all-keeps order_id (id ∷ ids) other q h =
      let job : RatingJob = record { name = recalc_job; product_id = some id } in
      let first = add (recalc_id order_id id) job q in
      subst (Has other) (sym (and_then-queue first.0 (add_all add order_id ids first.1)))
        (add_all-keeps order_id ids other first.1 (keeps (recalc_id order_id id) other job q h))

  add_all-ok :
      (order_id : String) (ids : List String) (q q' : Queue) (u : Unit {0})
      → add_all add order_id ids q ≡ (ok u, q')
      → HasAll order_id ids q'
  unfolding add_all
  add_all-ok order_id [] q q' u h = tt
  add_all-ok order_id (id ∷ ids) q q' u h =
      let job : RatingJob = record { name = recalc_job; product_id = some id } in
      let first = add (recalc_id order_id id) job q in
      let (added, rest) = and_then-ok first.0 (add_all add order_id ids first.1) q' u h in
      let here = adds (recalc_id order_id id) job q first.1 tt (ap (λ r. (r, first.1)) added) in
      let kept = add_all-keeps order_id ids (recalc_id order_id id) first.1 here in
      (
        subst (λ (p : Result String (Unit {0}) × Queue). Has (recalc_id order_id id) p.1) rest kept,
        add_all-ok order_id ids first.1 q' u rest,
      )

  add_all-again :
      (order_id : String) (ids : List String) (q : Queue)
      → HasAll order_id ids q
      → add_all add order_id ids q ≡ (ok tt, q)
  unfolding add_all
  add_all-again order_id [] q h = refl
  add_all-again order_id (id ∷ ids) q h =
      let job : RatingJob = record { name = recalc_job; product_id = some id } in
      rw (ignores (recalc_id order_id id) job q h.0, add_all-again order_id ids q h.1) refl

  settle_adds-ok :
      (r : Result String (Unit {0}) × Queue) (p : Producer Queue) (u : Unit {0})
      → settle_adds add r ≡ (ok u, p)
      → (r ≡ (ok tt, p.queue)) × (p ≡ record { queue = p.queue; is_open = true })
  settle_adds-ok (ok v, q) p u h =
      let same : record { queue = q; is_open = true } ≡ p = ap (λ x. x.1) h in
      (
        ap
            (λ (x : Producer Queue).
              (let y : Result String (Unit {0}) × Queue = (ok tt, x.queue) in y))
            same,
        subst (λ (x : Producer Queue). x ≡ record { queue = x.queue; is_open = true }) same refl,
      )
  settle_adds-ok (err message, q) p u h = ground arith

  -- On a queue that ignores a job whose id it has: once the jobs of an order are enqueued, an
  -- enqueue of the same order and products returns and changes nothing.
  pub enqueue_recalc-again :
      (order_id : String) (product_ids : List String) (p p' : Producer Queue) (u : Unit {0})
      → enqueue_recalc add order_id product_ids p ≡ (ok u, p')
      → enqueue_recalc add order_id product_ids p' ≡ (ok tt, p')
  unfolding enqueue_recalc
  enqueue_recalc-again order_id product_ids p p' u h =
      let ids = distinct product_ids in
      let (done, is_open) = settle_adds-ok (add_all add order_id ids p.queue) p' u h in
      let there = add_all-ok order_id ids p.queue p'.queue tt done in
      let again = add_all-again order_id ids p'.queue there in
      ap (settle_adds add) again ∙ ap (λ x. (ok tt, x)) (sym is_open)
