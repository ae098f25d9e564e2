-- ===== src/Messaging/Consumer.antt =====
-- The handler of src/messaging/order-placed.consumer.ts for one delivery. The body of a message is
-- what `JSON.parse` makes of it. Each of the three calls of the store can fail with any error,
-- before it wrote anything or after the write was committed. The casts are those of Effects, and
-- `as_parameter` is the driver's text of a value that is neither a text nor null.
pub mod Outcome
pub mod Rows
pub mod Keeps
pub mod Accepts
pub mod Deliveries
pub mod FirstWrite
pub mod Settles
pub mod Tests
use marketplace_template.Prelude.{
  ℕ, ◌+◌, String, Bool, true, false, ◌&&◌, not, Option, none, some, List, [], ◌∷◌, ◌++◌, Result, ok,
  err, Action, ◌>>=◌, ◌>>◌, pure, throw, lift, modify, if◌then◌else◌, ◌==◌, text_eq,
}
use marketplace_template.Json.{Json, null, text, property, as_text, is_truthy}
use marketplace_template.Messaging.Event.{OrderPlacedEvent}
use marketplace_template.Messaging.Effects.{EffectStore, record_delivery, apply_effect, mark_acked}
use marketplace_template.Messaging.Transient.{ErrorObject, Heap, is_transient_consumer_error}

-- A thrown value and the objects it leads to.
pub record Thrown : Type 0 where
  pub heap : Heap
  pub value : Option ℕ

abbrev pub thrown : Option String → Option String → Thrown
thrown code message = record {
  heap = (0, record { code = code; message = message; driver_error = none; cause = none }) ∷ [];
  value = some 0;
}

unfoldable pub is_transient : Thrown → Bool
is_transient e = is_transient_consumer_error e.heap e.value

-- A body that is no JSON comes with the message of the `SyntaxError`.
pub data Content : Type 0 where
  parsed : Json → Content
  malformed : String → Content

pub record PlacedMessage : Type 0 where
  pub event_id : String
  pub order_id : String
  pub occurred_at : Option Json
  pub poison : Bool

abbrev pub invalid_payload : Thrown
invalid_payload = thrown none (some "Invalid order.placed payload")

-- Reading a property of null throws.
unfoldable pub parse_event : Content → Result Thrown PlacedMessage
parse_event (malformed message) = err (thrown none (some message))
parse_event (parsed null) =
    err (thrown none (some "Cannot read properties of null (reading 'eventId')"))
parse_event (parsed raw) = elim (as_text (property "eventId" raw)) [
  | none ↦ err invalid_payload
  | some event_id ↦ elim (as_text (property "orderId" raw)) [
    | none ↦ err invalid_payload
    | some order_id ↦ elim (as_text (property "type" raw)) [
      | none ↦ err invalid_payload
      | some type ↦
          if type == "order.placed"
          then ok (record {
            event_id = event_id;
            order_id = order_id;
            occurred_at = property "occurredAt" raw;
            poison = is_truthy (property "poison" raw);
          })
          else err invalid_payload
    ]
  ]
]

pub data Fault : Type 0 where
  calm : Fault
  refused lost : Thrown → Fault

-- What happens around one delivery.
pub record Attempt : Type 0 where
  pub record_fault : Fault
  pub apply_fault : Fault
  pub mark_fault : Fault
  pub now : ℕ

pub data Settlement : Type 0 where
  acked requeued rejected : Settlement

-- The process: the store, how it settled messages so far, `handle.rejected`, and whether it runs.
pub record Consumer : Type 0 where
  pub store : EffectStore
  pub settlements : List Settlement
  pub rejected_count : ℕ
  pub is_running : Bool

abbrev pub settle : Settlement → Consumer → Consumer
settle s c = record c { settlements = c.settlements ++ s ∷ [] }

unfoldable pub reject_permanent : Consumer → Consumer
reject_permanent c = record (settle rejected c) { rejected_count = c.rejected_count + 1 }

abbrev pub as_thrown : {A : Type 0} → Result String A → Result Thrown A
as_thrown (ok a) = ok a
as_thrown (err code) = err (thrown (some code) none)

-- A call of the store. A commit whose answer is lost has written, and the process has not counted.
unfoldable pub call_store :
    {A : Type 0} → Fault → Action String EffectStore A → Action Thrown Consumer A
call_store calm call c = let (r, store) = call c.store in (as_thrown r, record c { store = store })
call_store (refused e) call c = (err e, c)
call_store (lost e) call c =
    let (r, store) = call c.store in
    (err e, record c { store = record c.store { tables = store.tables } })

-- The `catch`.
unfoldable pub catch_message : Result Thrown (Unit {0}) × Consumer → Consumer
catch_message (ok _, c) = c
catch_message (err e, c) = if is_transient e then settle requeued c else reject_permanent c

module _ (uuid_of : String → Option String) (timestamp_of : String → Option ℕ)
    (as_parameter : Json → String) where
  -- The parameter of `$3`; `undefined` is sent as null.
  unfoldable pub occurred_at_parameter : Option Json → Option String
  occurred_at_parameter none = none
  occurred_at_parameter (some null) = none
  occurred_at_parameter (some (text s)) = some s
  occurred_at_parameter (some other) = some (as_parameter other)

  -- `store.applyEffect(event)`, which reads these three fields; null violates NOT NULL.
  unfoldable pub apply_message : PlacedMessage → Action String EffectStore Bool
  apply_message m store = elim (occurred_at_parameter m.occurred_at) [
    | none ↦ (err (elim (uuid_of m.event_id) [ none ↦ "22P02" | some _ ↦ "23502" ]), store)
    | some occurred_at ↦
        apply_effect uuid_of timestamp_of
          (record {
            event_id = m.event_id;
            type = "order.placed";
            occurred_at = occurred_at;
            order_id = m.order_id;
            user_id = "";
            total_cents = 0;
            poison = none;
          })
          store
  ]

  module _ (crash_before_ack : Bool) (attempt : Attempt) where
    -- From `applyEffect` to the end of the `try`.
    unfoldable pub ack_or_crash : PlacedMessage → Bool → Action Thrown Consumer (Unit {0})
    ack_or_crash m applied c =
        if crash_before_ack && applied
        then (ok tt, record c { is_running = false })
        else call_store attempt.mark_fault (mark_acked uuid_of timestamp_of attempt.now m.event_id)
            (settle acked c)

    unfoldable pub apply_and_ack : PlacedMessage → Action Thrown Consumer (Unit {0})
    apply_and_ack m = do
      applied ← call_store attempt.apply_fault (apply_message m)
      ack_or_crash m applied

    unfoldable pub reject_or_apply : PlacedMessage → Action Thrown Consumer (Unit {0})
    reject_or_apply m = if m.poison then (λ c. (ok tt, reject_permanent c)) else apply_and_ack m

    -- The `try`.
    unfoldable pub try_message : Content → Action Thrown Consumer (Unit {0})
    try_message content = do
      m ← lift (parse_event content)
      _ ← call_store attempt.record_fault (record_delivery uuid_of timestamp_of m.event_id)
      reject_or_apply m

    unfoldable pub handle_message : Content → Consumer → Consumer
    handle_message content c = catch_message (try_message content c)
