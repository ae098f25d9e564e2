-- ===== src/Ratings/Tests.antt =====
-- A queue as a table of jobs by id.
use marketplace_template.Prelude.{
  String, ◌≡◌, refl, ap, subst, true, false, Option, none, some, is_some, [], ◌∷◌, arith, ◌==◌,
  text_eq, Bool-cases, Table, lookup, put, lookup-put, Result, ok, inl, inr, lookup-put_self,
}
use marketplace_template.Ratings.{RatingJob, Producer, enqueue_recalc}
use marketplace_template.Ratings.Once.{enqueue_recalc-again}

abbrev Jobs : Type 0
Jobs = Table String RatingJob

abbrev add_job : Option RatingJob → String → RatingJob → Jobs → Jobs
add_job none id job jobs = put id job jobs
add_job (some other) id job jobs = jobs

abbrev add : String → RatingJob → Jobs → Result String (Unit {0}) × Jobs
add id job jobs = (ok tt, add_job (lookup id jobs) id job jobs)

abbrev Has : String → Jobs → Type 0
Has id jobs = is_some (lookup id jobs) ≡ true

add-Has :
    (o : Option RatingJob) (id : String) (job : RatingJob) (jobs : Jobs)
    → lookup id jobs ≡ o
    → Has id (add_job o id job jobs)
add-Has none id job jobs h = rw (lookup-put_self id job jobs) refl
add-Has (some other) id job jobs h = rw h refl

add-Has_kept :
    (o : Option RatingJob) (id other : String) (job : RatingJob) (jobs : Jobs)
    → Has other jobs
    → Has other (add_job o id job jobs)
add-Has_kept none id other job jobs h = elim (Bool-cases (id == other)) [
  | inl e ↦ rw (lookup-put id other job jobs, e) refl
  | inr e ↦ rw (lookup-put id other job jobs, e) h
]
add-Has_kept (some x) id other job jobs h = h

add_job-same :
    (o : Option RatingJob) (id : String) (job : RatingJob) (jobs : Jobs)
    → is_some o ≡ true
    → add_job o id job jobs ≡ jobs
add_job-same none id job jobs h = absurd (ground arith)
add_job-same (some x) id job jobs h = refl

abbrev idle : Producer Jobs
idle = record { queue = []; is_open = false }

abbrev enqueued : Producer Jobs
enqueued = record {
  queue =
      ("recalc-5-7", record { name = "recalc-rating"; product_id = some "7" })
      ∷ ("recalc-5-8", record { name = "recalc-rating"; product_id = some "8" })
      ∷ [];
  is_open = true;
}

enqueues : enqueue_recalc add "5" ("7" ∷ "8" ∷ "7" ∷ []) idle ≡ (ok tt, enqueued)
unfolding enqueue_recalc lookup put
enqueues = refl

enqueue_recalc-again_example :
    enqueue_recalc add "5" ("7" ∷ "8" ∷ "7" ∷ []) enqueued ≡ (ok tt, enqueued)
enqueue_recalc-again_example =
    enqueue_recalc-again add Has
      (λ id job q q' u h. subst (Has id) (ap (λ p. p.1) h) (add-Has (lookup id q) id job q refl))
      (λ id other job q h. add-Has_kept (lookup id q) id other job q h)
      (λ id job q h. ap (λ x. (ok tt, x)) (add_job-same (lookup id q) id job q h)) "5"
      ("7" ∷ "8" ∷ "7" ∷ []) idle enqueued tt enqueues
