-- ===== src/Messaging/Relay/AtLeastOnce.antt =====
-- What a relay cycle publishes and what it marks.
use mathlib.Core.List.{append-nil, append_assoc}
use marketplace_template.Prelude.{
  ℕ, ◌+◌, String, ◌≡◌, refl, sym, ap, subst, ◌∙◌, inl, inr, ◌⊎◌, Option, none, some, List, [], ◌∷◌,
  ◌++◌, Result, ok, err, arith, length, ◌==◌, nat_eq, Table, lookup, lookup-put, nat_beq_iff,
  Bool-cases, Option-cases,
}
use marketplace_template.Json.{Json}
use marketplace_template.Db.{OutboxRow}
use marketplace_template.Messaging.Relay.{
  RelayOptions, RelayError, Confirm, accepted, refused, unconfirmed, Cycle, Relay, Row, claim,
  as_order_placed_event, mark_published, count_attempt, publish_rows, publish_claimed, commit,
  end_cycle, publish_pending,
}

-- The payloads of the claimed rows, in order.
abbrev pub payloads : List Row → List Json
payloads [] = []
payloads ((id, row) ∷ rows) = row.payload ∷ payloads rows

-- Each of the rows marked, in order.
abbrev pub mark_all : ℕ → List Row → Table ℕ OutboxRow → Table ℕ OutboxRow
mark_all now [] outbox = outbox
mark_all now ((id, row) ∷ rows) outbox = mark_all now rows (mark_published now id outbox)

-- When row `id` was published, if it was.
abbrev pub published_of : ℕ → Table ℕ OutboxRow → Option (Option ℕ)
published_of id outbox = elim (lookup id outbox) [ none ↦ none | some row ↦ some row.published_at ]

as_order_placed_event-some :
    (payload event : Json) → as_order_placed_event payload ≡ some event → event ≡ payload
unfolding as_order_placed_event
as_order_placed_event-some payload event h = ground arith

Confirm-cases :
    (c : Confirm)
    → (c ≡ accepted) ⊎ ((e : String) × (c ≡ refused e)) ⊎ ((e : String) × (c ≡ unconfirmed e))
Confirm-cases accepted = inl refl
Confirm-cases (refused e) = inr (inl (e, refl))
Confirm-cases (unconfirmed e) = inr (inr (e, refl))

module _ (options : RelayOptions) (cycle : Cycle) where
  publish_rows-ok :
      (rows : List Row) (k n : ℕ) (s t : Relay)
      → publish_rows options cycle rows k s ≡ (ok n, t)
      → (n ≡ k + length rows)
        × (t.broker ≡ s.broker ++ payloads rows)
        × (t.outbox ≡ mark_all cycle.now rows s.outbox)
  unfolding publish_rows
  publish_rows-ok [] k n s t h =
      let same = ap (λ p. p.1) h in
      let count : k ≡ n = ground arith in
      (omega arith, rw (sym same) (sym (append-nil s.broker)), rw (sym same) refl)
  publish_rows-ok ((id, row) ∷ rows) k n s t h =
      elim (Option-cases (as_order_placed_event row.payload)) [
        | inl bad ↦ absurd (let h' = rw (publish_rows, bad) at h in ground arith)
        | inr (event, good) ↦ elim (Confirm-cases (cycle.confirm id)) [
          | inr (inl (e, no_way)) ↦
              absurd (let h' = rw (publish_rows, good, no_way) at h in ground arith)
          | inr (inr (e, no_way)) ↦
              absurd (let h' = rw (publish_rows, good, no_way) at h in ground arith)
          | inl fine ↦ elim (Bool-cases options.crash_after_publish) [
            | inl stop ↦ absurd (let h' = rw (publish_rows, good, fine, stop) at h in ground arith)
            | inr go_on ↦ elim (Option-cases (cycle.mark_fault id)) [
              | inr (e, failed) ↦
                  absurd
                    (let h' = rw (publish_rows, good, fine, go_on, failed) at h in ground arith)
              | inl calm ↦
                  let h' = rw (publish_rows, good, fine, go_on, calm) at h in
                  let (count, sent, marked) =
                    publish_rows-ok rows (k + 1) n
                      (record s {
                        broker = s.broker ++ event ∷ [];
                        outbox = mark_published cycle.now id s.outbox;
                      })
                      t h' in
                  let own = as_order_placed_event-some row.payload event good in
                  (
                    omega arith,
                    sent
                        ∙ append_assoc s.broker (event ∷ []) (payloads rows)
                        ∙ ap (λ e. s.broker ++ e ∷ payloads rows) own,
                    marked,
                  )
            ]
          ]
        ]
      ]

  publish_claimed-ok :
      (rows : List Row) (n : ℕ) (s t : Relay)
      → publish_claimed options cycle rows s ≡ (ok n, t)
      → (n ≡ length rows)
        × (t.broker ≡ s.broker ++ payloads rows)
        × (t.outbox ≡ mark_all cycle.now rows s.outbox)
  unfolding publish_claimed
  publish_claimed-ok [] n s t h =
      let same = ap (λ p. p.1) h in
      let count : 0 ≡ n = ground arith in
      (omega arith, rw (sym same) (sym (append-nil s.broker)), rw (sym same) refl)
  publish_claimed-ok (row ∷ rows) n s t h = elim (Option-cases cycle.connection) [
    | inr (e, down) ↦ absurd (let h' = rw (publish_claimed, down) at h in ground arith)
    | inl up ↦
        let (count, sent, marked) =
          publish_rows-ok (row ∷ rows) 0 n s t (rw (publish_claimed, up) at h) in
        (omega arith, sent, marked)
  ]

  commit-ok :
      (r : Result RelayError ℕ × Relay) (n : ℕ) (t : Relay)
      → commit options cycle r ≡ (ok n, t)
      → r ≡ (ok n, t)
  unfolding commit
  commit-ok (ok m, s) n t h = elim (Option-cases cycle.commit_fault) [
    | inl calm ↦ rw (commit, calm) at h
    | inr (e, failed) ↦ absurd (let h' = rw (commit, failed) at h in ground arith)
  ]
  commit-ok (err e, s) n t h = absurd (ground arith)

  commit-broker : (r : Result RelayError ℕ × Relay) → (commit options cycle r).1.broker ≡ r.1.broker
  unfolding commit
  commit-broker (ok m, s) = elim (Option-cases cycle.commit_fault) [
    | inl calm ↦ rw (commit, calm) refl
    | inr (e, failed) ↦ rw (commit, failed) refl
  ]
  commit-broker (err e, s) = refl

  end_cycle-ok :
      (before : Table ℕ OutboxRow) (r : Result RelayError ℕ × Relay) (n : ℕ) (t : Relay)
      → end_cycle options cycle before r ≡ (ok n, t)
      → r ≡ (ok n, t)
  unfolding end_cycle
  end_cycle-ok before (ok m, s) n t h = h
  end_cycle-ok before (err e, s) n t h = absurd (ground arith)

  -- A cycle that does not throw returns the number of rows claimed; the broker has their payloads,
  -- in their order, after what it had; and just these rows are marked.
  pub publish_pending-ok :
      (n : ℕ) (s t : Relay)
      → publish_pending options cycle s ≡ (ok n, t)
      → (n ≡ length (claim options cycle s.outbox))
        × (t.broker ≡ s.broker ++ payloads (claim options cycle s.outbox))
        × (t.outbox ≡ mark_all cycle.now (claim options cycle s.outbox) s.outbox)
  unfolding publish_pending
  publish_pending-ok n s t h =
      let start = record s { failed_attempt_id = none } in
      let rows = claim options cycle s.outbox in
      publish_claimed-ok rows n start t (
        commit-ok (publish_claimed options cycle rows start) n t (
          end_cycle-ok s.outbox (commit options cycle (publish_claimed options cycle rows start)) n
            t h))

  publish_rows-sent :
      (rows : List Row) (k : ℕ) (s : Relay)
      → (sent : List Json) × ((publish_rows options cycle rows k s).1.broker ≡ s.broker ++ sent)
  unfolding publish_rows
  publish_rows-sent [] k s = ([], sym (append-nil s.broker))
  publish_rows-sent ((id, row) ∷ rows) k s =
      elim (Option-cases (as_order_placed_event row.payload)) [
        | inl bad ↦ ([], rw (publish_rows, bad) (sym (append-nil s.broker)))
        | inr (event, good) ↦ elim (Confirm-cases (cycle.confirm id)) [
          | inr (inl (e, failed)) ↦
              ([], rw (publish_rows, good, failed) (sym (append-nil s.broker)))
          | inr (inr (e, failed)) ↦ (event ∷ [], rw (publish_rows, good, failed) refl)
          | inl fine ↦ elim (Bool-cases options.crash_after_publish) [
            | inl stop ↦ (event ∷ [], rw (publish_rows, good, fine, stop) refl)
            | inr go_on ↦ elim (Option-cases (cycle.mark_fault id)) [
              | inr (e, failed) ↦ (event ∷ [], rw (publish_rows, good, fine, go_on, failed) refl)
              | inl calm ↦
                  let (more, rest) = publish_rows-sent rows (k + 1) (record s {
                    broker = s.broker ++ event ∷ [];
                    outbox = mark_published cycle.now id s.outbox;
                  }) in
                  (
                    event ∷ more,
                    rw (publish_rows, good, fine, go_on, calm)
                        (rest ∙ append_assoc s.broker (event ∷ []) more),
                  )
            ]
          ]
        ]
      ]

  publish_claimed-connected :
      (row : Row) (rows : List Row) (s : Relay)
      → cycle.connection ≡ none
      → publish_claimed options cycle (row ∷ rows) s ≡ publish_rows options cycle (row ∷ rows) 0 s
  unfolding publish_claimed publish_rows
  publish_claimed-connected row rows s up = rw (publish_claimed, up) refl

  publish_claimed-sent :
      (rows : List Row) (s : Relay)
      → (sent : List Json) × ((publish_claimed options cycle rows s).1.broker ≡ s.broker ++ sent)
  unfolding publish_claimed
  publish_claimed-sent [] s = ([], sym (append-nil s.broker))
  publish_claimed-sent (row ∷ rows) s = elim (Option-cases cycle.connection) [
    | inr (e, down) ↦ ([], rw (publish_claimed, down) (sym (append-nil s.broker)))
    | inl up ↦
        let (sent, grown) = publish_rows-sent (row ∷ rows) 0 s in
        (sent, ap (λ p. p.1.broker) (publish_claimed-connected row rows s up) ∙ grown)
  ]

  published_of-count_attempt :
      (id failed : ℕ) (outbox : Table ℕ OutboxRow)
      → published_of id (count_attempt failed outbox) ≡ published_of id outbox
  unfolding count_attempt
  published_of-count_attempt id failed outbox = elim (Option-cases (lookup failed outbox)) [
    | inl missing ↦ rw (count_attempt, missing) refl
    | inr (row, there) ↦
        let counted : OutboxRow = record row { attempts = row.attempts + 1 } in
        elim (Bool-cases (failed == id)) [
          | inl same ↦
              let there' : lookup id outbox ≡ some row =
                subst (λ x. lookup x outbox ≡ some row) ((nat_beq_iff failed id).0 same) there in
              rw
                (
                  count_attempt,
                  there,
                  published_of,
                  lookup-put failed id counted outbox,
                  same,
                  there',
                )
                refl
          | inr other ↦
              rw (count_attempt, there, published_of, lookup-put failed id counted outbox, other)
                refl
        ]
  ]

  end_cycle-err :
      (before : Table ℕ OutboxRow) (r : Result RelayError ℕ × Relay) (e : RelayError) (t : Relay)
      → end_cycle options cycle before r ≡ (err e, t)
      → (t.broker ≡ r.1.broker) × ((id : ℕ) → published_of id t.outbox ≡ published_of id before)
  unfolding end_cycle
  end_cycle-err before (ok m, s) e t h = absurd (ground arith)
  end_cycle-err before (err x, s) e t h = elim (Option-cases s.failed_attempt_id) [
    | inl none_failed ↦
        let h' = rw (end_cycle, none_failed) at h in
        let state = ap (λ p. p.1) h' in (rw (sym state) refl, λ id. rw (sym state) refl)
    | inr (failed, some_failed) ↦
        let h' = rw (end_cycle, some_failed) at h in
        let state = ap (λ p. p.1) h' in
        (rw (sym state) refl, λ id. rw (sym state) (published_of-count_attempt id failed before))
  ]

  -- A cycle that fails, at a publish, a mark or the commit, or crashes between a publish and its
  -- mark: no row's `published_at` changes,
  -- and the broker keeps what it had, followed by what it accepted in this cycle.
  pub publish_pending-err :
      (e : RelayError) (s t : Relay)
      → publish_pending options cycle s ≡ (err e, t)
      → ((sent : List Json) × (t.broker ≡ s.broker ++ sent))
        × ((id : ℕ) → published_of id t.outbox ≡ published_of id s.outbox)
  unfolding publish_pending
  publish_pending-err e s t h =
      let start = record s { failed_attempt_id = none } in
      let rows = claim options cycle s.outbox in
      let (sent, grown) = publish_claimed-sent rows start in
      let (kept, marks) =
        end_cycle-err s.outbox (commit options cycle (publish_claimed options cycle rows start)) e t
          h in
      ((sent, kept ∙ commit-broker (publish_claimed options cycle rows start) ∙ grown), marks)
