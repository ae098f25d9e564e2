-- ===== src/Jobs/Tests.antt =====
-- Two workers on one job.
use marketplace_template.Prelude.{refl, none, some, [], ◌∷◌, arith, lookup, put}
use marketplace_template.Json.{null}
use marketplace_template.Db.{Job, JobStatus}
use marketplace_template.Jobs.{
  is_pending, is_claimable, claim_job, complete_job, looping, working, found_none, Queue, holds,
  is_locked, claims, finds_none, commits, Steps, start, then_step,
}
use marketplace_template.Jobs.Once.{Exclusive, Steps-Exclusive}

abbrev job : Job
job = record {
  kind = "order.postprocess";
  payload = null;
  status = JobStatus.pending;
  processed_count = 0;
  worker_id = none;
}

abbrev ready : Queue
ready = record { jobs = (1, job) ∷ []; workers = ("a", looping []) ∷ ("b", looping []) ∷ [] }

abbrev a_works : Queue
a_works = record ready { workers = ("a", working [] 1) ∷ ("b", looping []) ∷ [] }

abbrev b_waits : Queue
b_waits = record ready { workers = ("a", working [] 1) ∷ ("b", found_none []) ∷ [] }

abbrev a_done : Queue
a_done = record {
  jobs =
      (1, record job { status = JobStatus.done; processed_count = 1; worker_id = some "a" }) ∷ [];
  workers = ("a", looping (1 ∷ [])) ∷ ("b", found_none []) ∷ [];
}

-- `b` skips the job that `a` has locked.
interleaving : Steps (1 ∷ []) ready a_done
unfolding lookup put claim_job is_claimable is_pending is_locked holds complete_job
interleaving =
    then_step b_waits a_done
      (then_step a_works b_waits (then_step ready a_works start (claims "a" [] 1 refl refl))
        (finds_none "b" [] refl refl))
      (commits "a" [] 1 refl)

ready-Exclusive : Exclusive ready
unfolding lookup
ready-Exclusive = record {
  once = λ id j h. ground (arith, h);
  held = λ w p id h. absurd (ground (arith, h));
  alone = λ w v p r id h g. absurd (ground (arith, h));
}

Steps-Exclusive_example : Exclusive a_done
Steps-Exclusive_example = Steps-Exclusive (1 ∷ []) ready a_done interleaving ready-Exclusive
