-- ===== src/Messaging/Relay.antt =====
-- src/messaging/outbox-relay.ts with the publish of order-placed.publisher.ts. One cycle of the
-- relay: the rows it locks, the publishes, the marks, and the transaction's end. What the broker
-- and the other relays do is the cycle's environment. The transaction's rollback takes back the
-- marks and not the messages. `payload->>'userId'` is read where it is a text, and the column
-- never holds a JSON text, which the source would parse.
pub mod AtLeastOnce
pub mod Tests
use marketplace_template.Prelude.{
  ℕ, ◌+◌, String, Bool, true, false, ◌&&◌, ◌||◌, not, Option, none, some, List, [], ◌∷◌, ◌++◌,
  Result, ok, err, Action, ltb, nat_beq, if◌then◌else◌, ◌==◌, text_eq, nat_eq, Table, lookup, put,
  take,
}
use marketplace_template.Json.{Json, property, as_text}
use marketplace_template.Db.{OutboxRow}

pub record RelayOptions : Type 0 where
  pub limit : Option ℕ
  pub crash_after_publish : Bool
  pub user_id : Option String

pub data RelayError : Type 0 where
  invalid_payload crashed : RelayError
  publish_failed no_channel query_failed : String → RelayError

-- What a publish with confirms comes to. Without a confirm the broker may have the message.
pub data Confirm : Type 0 where
  accepted : Confirm
  refused unconfirmed : String → Confirm

-- The rows that other relays hold, the confirm of each row's publish, an error of the connection,
-- of the mark of a row and of the COMMIT, which the server has then aborted, and the time.
pub record Cycle : Type 0 where
  pub is_locked : ℕ → Bool
  pub confirm : ℕ → Confirm
  pub connection : Option String
  pub mark_fault : ℕ → Option String
  pub commit_fault : Option String
  pub now : ℕ

-- The outbox, what the broker accepted, and `failedAttemptId`.
pub record Relay : Type 0 where
  pub outbox : Table ℕ OutboxRow
  pub broker : List Json
  pub failed_attempt_id : Option ℕ

abbrev pub Row : Type 0
Row = ℕ × OutboxRow

unfoldable pub is_unpublished : OutboxRow → Bool
is_unpublished row = elim row.published_at [ none ↦ true | some _ ↦ false ]

unfoldable pub is_of_user : Option String → OutboxRow → Bool
is_of_user none row = true
is_of_user (some user_id) row = elim (as_text (property "userId" row.payload)) [
  | none ↦ false
  | some own ↦ own == user_id
]

-- `ORDER BY created_at, id`
unfoldable pub is_before : Row → Row → Bool
is_before (i, a) (j, b) =
    ltb a.created_at b.created_at || (nat_beq a.created_at b.created_at && ltb i j)

unfoldable pub insert_row : Row → List Row → List Row
insert_row r [] = r ∷ []
insert_row r (s ∷ rows) =
    let rest = insert_row r rows in if is_before r s then r ∷ s ∷ rows else s ∷ rest

unfoldable pub claimable : RelayOptions → Cycle → Table ℕ OutboxRow → List Row
claimable options cycle [] = []
claimable options cycle ((id, row) ∷ outbox) =
    let rest = claimable options cycle outbox in
    if is_unpublished row && is_of_user options.user_id row && not (cycle.is_locked id)
    then insert_row (id, row) rest
    else rest

abbrev pub row_limit : Option ℕ → ℕ
row_limit none = 20
row_limit (some limit) = limit

unfoldable pub claim : RelayOptions → Cycle → Table ℕ OutboxRow → List Row
claim options cycle outbox = take (row_limit options.limit) (claimable options cycle outbox)

unfoldable pub as_order_placed_event : Json → Option Json
as_order_placed_event payload = elim (as_text (property "eventId" payload)) [
  | none ↦ none
  | some _ ↦ elim (as_text (property "type" payload)) [
    | none ↦ none
    | some type ↦ if type == "order.placed" then some payload else none
  ]
]

-- UPDATE outbox SET published_at = now(), attempts = attempts + 1 WHERE id = $1
unfoldable pub mark_published : ℕ → ℕ → Table ℕ OutboxRow → Table ℕ OutboxRow
mark_published now id outbox = elim (lookup id outbox) [
  | none ↦ outbox
  | some row ↦ put id (record row { published_at = some now; attempts = row.attempts + 1 }) outbox
]

-- UPDATE outbox SET attempts = attempts + 1 WHERE id = $1
unfoldable pub count_attempt : ℕ → Table ℕ OutboxRow → Table ℕ OutboxRow
count_attempt id outbox = elim (lookup id outbox) [
  | none ↦ outbox
  | some row ↦ put id (record row { attempts = row.attempts + 1 }) outbox
]

module _ (options : RelayOptions) (cycle : Cycle) where
  -- The loop over the claimed rows.
  unfoldable pub publish_rows : List Row → ℕ → Action RelayError Relay ℕ
  publish_rows [] published s = (ok published, s)
  publish_rows ((id, row) ∷ rows) published s = elim (as_order_placed_event row.payload) [
    | none ↦ (err invalid_payload, s)
    | some event ↦
        let sent = record s { broker = s.broker ++ event ∷ [] } in
        let rest =
          publish_rows rows (published + 1)
            (record sent { outbox = mark_published cycle.now id s.outbox }) in
        elim (cycle.confirm id) [
          | refused e ↦ (err (publish_failed e), record s { failed_attempt_id = some id })
          | unconfirmed e ↦ (err (publish_failed e), record sent { failed_attempt_id = some id })
          | accepted ↦
              if options.crash_after_publish
              then (err crashed, sent)
              else elim (cycle.mark_fault id) [
                | some e ↦ (err (query_failed e), sent)
                | none ↦ rest
              ]
        ]
  ]

  -- The transaction's callback.
  unfoldable pub publish_claimed : List Row → Action RelayError Relay ℕ
  publish_claimed [] s = (ok 0, s)
  publish_claimed (row ∷ rows) s = elim cycle.connection [
    | some e ↦ (err (no_channel e), s)
    | none ↦ publish_rows (row ∷ rows) 0 s
  ]

  unfoldable pub commit : Result RelayError ℕ × Relay → Result RelayError ℕ × Relay
  commit (ok n, s) = elim cycle.commit_fault [
    | none ↦ (ok n, s)
    | some e ↦ (err (query_failed e), s)
  ]
  commit (err e, s) = (err e, s)

  -- The transaction's end, or the rollback and the `catch` that counts a failed attempt.
  unfoldable pub end_cycle :
      Table ℕ OutboxRow → Result RelayError ℕ × Relay → Result RelayError ℕ × Relay
  end_cycle before (ok n, s) = (ok n, s)
  end_cycle before (err e, s) = (
    err e,
    record s {
      outbox = elim s.failed_attempt_id [ none ↦ before | some id ↦ count_attempt id before ];
    },
  )

  unfoldable pub publish_pending : Action RelayError Relay ℕ
  publish_pending s =
      let start = record s { failed_attempt_id = none } in
      end_cycle s.outbox (commit (publish_claimed (claim options cycle s.outbox) start))
