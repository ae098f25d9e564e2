-- ===== src/Jobs.antt =====
-- src/jobs/job-queue.service.ts: workers that drain the jobs table with FOR UPDATE SKIP LOCKED.
-- Between its queries a worker stands at one of the places of `Place`; one query, with the commit
-- where it ends a transaction, is one step, and the steps of all workers interleave freely. A row
-- lock is held from the claim to the end of the transaction, so a job is locked while a worker
-- works on it. Waiting is no step of its own.
pub mod Once
pub mod Tests
use marketplace_template.Prelude.{
  ℕ, ◌+◌, String, Bool, true, false, ◌&&◌, ◌||◌, not, ◌≡◌, Option, none, some, List, [], ◌∷◌, ◌++◌,
  ltb, nat_beq, if◌then◌else◌, ◌==◌, text_eq, nat_eq, Table, lookup, put,
}
use marketplace_template.Db.{Job, JobStatus}

unfoldable pub is_pending : Option Job → Bool
is_pending none = false
is_pending (some job) = elim job.status [ JobStatus.pending ↦ true | JobStatus.done ↦ false ]

unfoldable pub is_claimable : (ℕ → Bool) → ℕ → Table ℕ Job → Bool
is_claimable is_locked id jobs = is_pending (lookup id jobs) && not (is_locked id)

-- `status = 'pending' AND id = ANY(ids) ORDER BY id FOR UPDATE SKIP LOCKED LIMIT 1`: the id.
unfoldable pub claim_job : (ℕ → Bool) → List ℕ → Table ℕ Job → Option ℕ
claim_job is_locked [] jobs = none
claim_job is_locked (id ∷ ids) jobs =
    let best = claim_job is_locked ids jobs in
    let least : ℕ = elim best [ none ↦ id | some other ↦ if ltb other id then other else id ] in
    if is_claimable is_locked id jobs then some least else best

unfoldable pub complete_job : ℕ → String → Table ℕ Job → Table ℕ Job
complete_job id worker_id jobs = elim (lookup id jobs) [
  | none ↦ jobs
  | some job ↦
      put id
        (record job {
          status = JobStatus.done;
          processed_count = job.processed_count + 1;
          worker_id = some worker_id;
        })
        jobs
]

-- The count of pending jobs, among distinct ids.
unfoldable pub pending_count : List ℕ → Table ℕ Job → ℕ
pending_count [] jobs = 0
pending_count (id ∷ ids) jobs =
    let rest = pending_count ids jobs in if is_pending (lookup id jobs) then rest + 1 else rest

-- Where `runWorker` stands, with its `processed`: before a claim, inside the transaction of a
-- claimed job, after a claim that found nothing, returned, or failed.
pub data Place : Type 0 where
  looping : List ℕ → Place
  working : List ℕ → ℕ → Place
  found_none : List ℕ → Place
  returned : List ℕ → Place
  failed : Place

pub record Queue : Type 0 where
  pub jobs : Table ℕ Job
  pub workers : Table String Place

unfoldable pub holds : ℕ → Place → Bool
holds id (working processed held) = nat_beq held id
holds id _ = false

unfoldable pub is_locked : Table String Place → ℕ → Bool
is_locked [] id = false
is_locked ((w, place) ∷ workers) id = holds id place || is_locked workers id

abbrev pub move : String → Place → Queue → Queue
move w place q = record q { workers = put w place q.workers }

-- The steps of the workers on the jobs `ids`.
pub data Step (ids : List ℕ) (q : Queue) : Queue → Type 0 where
  claims :
      (w : String) (processed : List ℕ) (id : ℕ)
      → lookup w q.workers ≡ some (looping processed)
      → claim_job (is_locked q.workers) ids q.jobs ≡ some id
      → Step ids q (move w (working processed id) q)
  finds_none :
      (w : String) (processed : List ℕ)
      → lookup w q.workers ≡ some (looping processed)
      → claim_job (is_locked q.workers) ids q.jobs ≡ none
      → Step ids q (move w (found_none processed) q)
  commits :
      (w : String) (processed : List ℕ) (id : ℕ)
      → lookup w q.workers ≡ some (working processed id)
      → Step ids q
          (move w (looping (processed ++ id ∷ [])) (record q { jobs = complete_job id w q.jobs }))
  -- A query fails; a transaction that is open is rolled back.
  aborts :
      (w : String) (place : Place) → lookup w q.workers ≡ some place → Step ids q (move w failed q)
  stops :
      (w : String) (processed : List ℕ)
      → lookup w q.workers ≡ some (found_none processed)
      → pending_count ids q.jobs ≡ 0
      → Step ids q (move w (returned processed) q)
  retries :
      (w : String) (processed : List ℕ)
      → lookup w q.workers ≡ some (found_none processed)
      → Step ids q (move w (looping processed) q)

pub data Steps (ids : List ℕ) (q : Queue) : Queue → Type 0 where
  start : Steps ids q q
  then_step : (r : Queue) (s : Queue) → Steps ids q r → Step ids r s → Steps ids q s
