-- ===== src/Jobs/Once.antt =====
-- However the workers interleave, no job is processed twice.
use marketplace_template.Prelude.{
  ℕ, ◌+◌, String, Bool, true, false, ◌≡◌, ◌≢◌, refl, sym, subst, ◌∙◌, ◌⊎◌, inl, inr, Option, none,
  some, List, [], ◌∷◌, ◌++◌, ltb, nat_beq_iff, ◌==◌, text_eq, nat_eq, eq_iff, arith, Table, lookup,
  put, lookup-put, Bool-cases, Option-cases,
}
use marketplace_template.Db.{Job, JobStatus}
use marketplace_template.Jobs.{
  is_pending, is_claimable, claim_job, complete_job, Place, looping, working, found_none, returned,
  failed, Queue, holds, is_locked, move, Step, claims, finds_none, commits, aborts, stops, retries,
  Steps, start, then_step,
}

abbrev pub done_once : JobStatus → ℕ
done_once JobStatus.pending = 0
done_once JobStatus.done = 1

-- A job was processed once if it is done and not at all before; who works on a job is the only
-- one, and it is pending.
pub record Exclusive (q : Queue) : Type 0 where
  pub once :
      (id : ℕ) (job : Job)
      → lookup id q.jobs ≡ some job
      → job.processed_count ≡ done_once job.status
  pub held :
      (w : String) (processed : List ℕ) (id : ℕ)
      → lookup w q.workers ≡ some (working processed id)
      → is_pending (lookup id q.jobs) ≡ true
  pub alone :
      (w v : String) (p r : List ℕ) (id : ℕ)
      → lookup w q.workers ≡ some (working p id)
      → lookup v q.workers ≡ some (working r id)
      → w ≡ v

claim_job-some :
    (locked : ℕ → Bool) (ids : List ℕ) (jobs : Table ℕ Job) (id : ℕ)
    → claim_job locked ids jobs ≡ some id
    → is_claimable locked id jobs ≡ true
unfolding claim_job
claim_job-some locked [] jobs id h = absurd (ground arith)
claim_job-some locked (i ∷ ids) jobs id h = elim (Bool-cases (is_claimable locked i jobs)) [
  | inr skipped ↦ claim_job-some locked ids jobs id (rw skipped at h)
  | inl free ↦ elim (Option-cases (claim_job locked ids jobs)) [
    | inl nothing ↦
        let one : i ≡ id = let h' = rw (free, nothing) at h in ground arith in
        subst (λ k. is_claimable locked k jobs ≡ true) one free
    | inr (other, found) ↦
        let rest = claim_job-some locked ids jobs other found in
        let h' = rw (free, found) at h in
        elim (Bool-cases (ltb other i)) [
          | inl less ↦
              let one : other ≡ id = ground arith in
              subst (λ k. is_claimable locked k jobs ≡ true) one rest
          | inr more ↦
              let one : i ≡ id = ground arith in
              subst (λ k. is_claimable locked k jobs ≡ true) one free
        ]
  ]
]

holder-is_locked :
    (workers : Table String Place) (w : String) (p : List ℕ) (id : ℕ)
    → lookup w workers ≡ some (working p id)
    → is_locked workers id ≡ true
unfolding is_locked holds lookup
holder-is_locked [] w p id h = absurd (ground arith)
holder-is_locked ((v, place) ∷ workers) w p id h = elim (Bool-cases (v == w)) [
  | inl same ↦
      let here : place ≡ working p id = let h' = rw same at h in ground arith in
      let self = (nat_beq_iff id id).1 refl in rw (here, self) refl
  | inr other ↦ let rest = holder-is_locked workers w p id (rw other at h) in ground (arith, rest)
]

claimable-parts :
    (locked : ℕ → Bool) (id : ℕ) (jobs : Table ℕ Job)
    → is_claimable locked id jobs ≡ true
    → (is_pending (lookup id jobs) ≡ true) × (locked id ≡ false)
unfolding is_claimable
claimable-parts locked id jobs h = (ground arith, ground arith)

-- A step that moves `w` to a place where it holds no job keeps the invariant.
module _ (q : Queue) (w : String) (k : Exclusive q) where
  found_put :
      (v : String) (place other : Place)
      → lookup v (put w place q.workers) ≡ some other
      → ((w ≡ v) × (place ≡ other)) ⊎ (lookup v q.workers ≡ some other)
  found_put v place other h = elim (Bool-cases (w == v)) [
    | inl same ↦ inl (
      (eq_iff w v).0 same,
      let h' = rw (lookup-put w v place q.workers, same) at h in ground arith,
    )
    | inr apart ↦ inr (rw (lookup-put w v place q.workers, apart) at h)
  ]

  Exclusive-free :
      (place : Place) → ((p : List ℕ) (id : ℕ) → place ≢ working p id) → Exclusive (move w place q)
  Exclusive-free place free = record {
    once = k.once;
    held = λ v p id h. elim (found_put v place (working p id) h) [
      | inl (_, same) ↦ absurd (free p id same)
      | inr before ↦ k.held v p id before
    ];
    alone = λ v u p r id h g. elim (found_put v place (working p id) h) [
      | inl (_, same) ↦ absurd (free p id same)
      | inr before ↦ elim (found_put u place (working r id) g) [
        | inl (_, same) ↦ absurd (free r id same)
        | inr before' ↦ k.alone v u p r id before before'
      ]
    ];
  }

  Exclusive-claims :
      (processed : List ℕ) (id : ℕ)
      → is_pending (lookup id q.jobs) ≡ true
      → is_locked q.workers id ≡ false
      → Exclusive (move w (working processed id) q)
  Exclusive-claims processed id pending_job unlocked = record {
    once = k.once;
    held = λ v p i h. elim (found_put v (working processed id) (working p i) h) [
      | inl (_, same) ↦
          let one : id ≡ i = ground arith in
          subst (λ j. is_pending (lookup j q.jobs) ≡ true) one pending_job
      | inr before ↦ k.held v p i before
    ];
    alone = λ v u p r i h g. elim (found_put v (working processed id) (working p i) h) [
      | inl (wv, same) ↦ elim (found_put u (working processed id) (working r i) g) [
        | inl (wu, _) ↦ sym wv ∙ wu
        | inr before ↦
            let one : id ≡ i = ground arith in
            absurd (
              let taken = holder-is_locked q.workers u r i before in
              let unlocked' = subst (λ j. is_locked q.workers j ≡ false) one unlocked in
              ground (arith, taken, unlocked'))
      ]
      | inr before ↦ elim (found_put u (working processed id) (working r i) g) [
        | inl (wu, same) ↦
            let one : id ≡ i = ground arith in
            absurd (
              let taken = holder-is_locked q.workers v p i before in
              let unlocked' = subst (λ j. is_locked q.workers j ≡ false) one unlocked in
              ground (arith, taken, unlocked'))
        | inr before' ↦ k.alone v u p r i before before'
      ]
    ];
  }

complete_job-other :
    (id i : ℕ) (worker : String) (jobs : Table ℕ Job)
    → (id == i) ≡ false
    → lookup i (complete_job id worker jobs) ≡ lookup i jobs
unfolding complete_job
complete_job-other id i worker jobs apart = elim (Option-cases (lookup id jobs)) [
  | inl missing ↦ rw (complete_job, missing) refl
  | inr (job, there) ↦
      rw
        (
          complete_job,
          there,
          lookup-put id i
              (record job {
                status = JobStatus.done;
                processed_count = job.processed_count + 1;
                worker_id = some worker;
              })
              jobs,
          apart,
        )
        refl
]

pending-zero :
    (jobs : Table ℕ Job) (id : ℕ) (job : Job)
    → lookup id jobs ≡ some job
    → is_pending (lookup id jobs) ≡ true
    → done_once job.status ≡ 0
unfolding is_pending
pending-zero jobs id job there waiting = go job.status (rw there at waiting)
  where
    go :
        (s : JobStatus)
        → (elim s [ JobStatus.pending ↦ true | JobStatus.done ↦ false ]) ≡ true
        → done_once s ≡ 0
    go JobStatus.pending e = refl
    go JobStatus.done e = absurd (ground arith)

pending-there : (o : Option Job) → is_pending o ≡ true → o ≢ none
unfolding is_pending
pending-there none h e = ground arith
pending-there (some job) h e = ground arith

-- A job is done after its completion; one that was pending has been processed once.
complete_job-once :
    (id : ℕ) (worker : String) (jobs : Table ℕ Job) (after : Job)
    → ((job : Job) → lookup id jobs ≡ some job → job.processed_count ≡ done_once job.status)
    → is_pending (lookup id jobs) ≡ true
    → lookup id (complete_job id worker jobs) ≡ some after
    → after.processed_count ≡ done_once after.status
unfolding complete_job
complete_job-once id worker jobs after once waiting h = elim (Option-cases (lookup id jobs)) [
  | inl missing ↦ absurd (pending-there (lookup id jobs) waiting missing)
  | inr (job, there) ↦
      let before = once job there in
      let zero_before : done_once job.status ≡ 0 = pending-zero jobs id job there waiting in
      let own = (nat_beq_iff id id).1 refl in
      let finished : Job = record job {
        status = JobStatus.done;
        processed_count = job.processed_count + 1;
        worker_id = some worker;
      } in
      let same : finished ≡ after =
        let h' = rw (complete_job, there, lookup-put id id finished jobs, own) at h in
        ground arith in
      subst (λ (j : Job). j.processed_count ≡ done_once j.status) same
        (omega (arith, before, zero_before))
]

module _ (q : Queue) (w : String) (k : Exclusive q) where
  Exclusive-commits :
      (processed : List ℕ) (id : ℕ)
      → lookup w q.workers ≡ some (working processed id)
      → Exclusive
          (move w (looping (processed ++ id ∷ [])) (record q { jobs = complete_job id w q.jobs }))
  Exclusive-commits processed id mine = record {
    once = λ i job there. elim (Bool-cases (id == i)) [
      | inl same ↦
          let one = (nat_beq_iff id i).0 same in
          complete_job-once id w q.jobs job (k.once id) (k.held w processed id mine)
            (subst (λ j. lookup j (complete_job id w q.jobs) ≡ some job) (sym one) there)
      | inr apart ↦ k.once i job (rw (complete_job-other id i w q.jobs apart) at there)
    ];
    held = λ v p i h. elim (Bool-cases (w == v)) [
      | inl same ↦ absurd (
          let h' = rw (lookup-put w v (looping (processed ++ id ∷ [])) q.workers, same) at h in
          ground arith)
      | inr apart ↦
          let before = rw (lookup-put w v (looping (processed ++ id ∷ [])) q.workers, apart) at h in
          elim (Bool-cases (id == i)) [
            | inl same ↦
                let one = (nat_beq_iff id i).0 same in
                let mine' = subst (λ j. lookup w q.workers ≡ some (working processed j)) one mine in
                let both = k.alone w v processed p i mine' before in
                absurd (ground (arith, (eq_iff w v).1 both, apart))
            | inr other ↦ rw (complete_job-other id i w q.jobs other) (k.held v p i before)
          ]
    ];
    alone = λ v u p r i h g.
        elim (found_put q w k v (looping (processed ++ id ∷ [])) (working p i) h) [
          | inl (_, same) ↦ absurd (ground arith)
          | inr before ↦ elim (found_put q w k u (looping (processed ++ id ∷ [])) (working r i) g) [
            | inl (_, same) ↦ absurd (ground arith)
            | inr before' ↦ k.alone v u p r i before before'
          ]
        ];
  }

Exclusive-Step : (ids : List ℕ) (q r : Queue) → Step ids q r → Exclusive q → Exclusive r
Exclusive-Step ids q _ (claims w processed id at found) k =
    let (waiting, unlocked) =
      claimable-parts (is_locked q.workers) id q.jobs
        (claim_job-some (is_locked q.workers) ids q.jobs id found) in
    Exclusive-claims q w k processed id waiting unlocked
Exclusive-Step ids q _ (finds_none w processed at none_found) k =
    Exclusive-free q w k (found_none processed) (λ p id e. ground arith)
Exclusive-Step ids q _ (commits w processed id at) k = Exclusive-commits q w k processed id at
Exclusive-Step ids q _ (aborts w place at) k = Exclusive-free q w k failed (λ p id e. ground arith)
Exclusive-Step ids q _ (stops w processed at count) k =
    Exclusive-free q w k (returned processed) (λ p id e. ground arith)
Exclusive-Step ids q _ (retries w processed at) k =
    Exclusive-free q w k (looping processed) (λ p id e. ground arith)

-- From any state where each job was processed once if done and not at all if pending, and no
-- worker holds a job that is not pending or that another holds: after any interleaving of the
-- workers' steps, aborted transactions included, this still holds.
pub Steps-Exclusive : (ids : List ℕ) (q r : Queue) → Steps ids q r → Exclusive q → Exclusive r
Steps-Exclusive ids q _ start k = k
Steps-Exclusive ids q s (then_step r _ before last) k =
    Exclusive-Step ids r s last (Steps-Exclusive ids q r before k)
