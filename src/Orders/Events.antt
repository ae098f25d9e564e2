-- ===== src/Orders/Events.antt =====
-- src/orders/order-events.service.ts and the stream of order-events.controller.ts. Publishing and
-- the replay of a stream run to their ends between two events of the loop, so a bus goes from one
-- call to the next. What the subject has sent is kept as the list of its events.
pub mod History
pub mod Replays
pub mod Tests
use marketplace_template.Prelude.{
  ℕ, ◌+◌, ◌-◌, String, Bool, Option, none, some, List, [], ◌∷◌, ◌++◌, ltb, ◌==◌, text_eq,
  if◌then◌else◌, length, drop, keep, Table, lookup, put,
}

pub record OrderStatusEvent : Type 0 where
  pub id : ℕ
  pub order_id : String
  pub status : String

abbrev pub buffer_limit : ℕ
buffer_limit = 50

pub record OrderEventStream : Type 0 where
  pub next_id : ℕ
  pub buffer : List OrderStatusEvent

pub record Bus : Type 0 where
  pub streams : Table String OrderEventStream
  pub sent : List OrderStatusEvent

abbrev pub empty : Bus
empty = record { streams = []; sent = [] }

-- A new stream is only stored by the write that follows in `publish`.
unfoldable pub stream_for : String → Bus → OrderEventStream
stream_for order_id bus = elim (lookup order_id bus.streams) [
  | some existing ↦ existing
  | none ↦ record { next_id = 1; buffer = [] }
]

-- `splice(0, length - BUFFER_LIMIT)` past the limit.
unfoldable pub trim : List OrderStatusEvent → List OrderStatusEvent
trim buffer =
    if ltb buffer_limit (length buffer) then drop (length buffer - buffer_limit) buffer else buffer

unfoldable pub publish : String → String → Bus → OrderStatusEvent × Bus
publish order_id status bus =
    let stream = stream_for order_id bus in
    let event : OrderStatusEvent = record {
      id = stream.next_id;
      order_id = order_id;
      status = status;
    } in
    (
      event,
      record {
        streams =
            put order_id
              (record { next_id = stream.next_id + 1; buffer = trim (stream.buffer ++ event ∷ []) })
              bus.streams;
        sent = bus.sent ++ event ∷ [];
      },
    )

unfoldable pub replay_after : String → ℕ → Bus → List OrderStatusEvent
replay_after order_id last_event_id bus = elim (lookup order_id bus.streams) [
  | none ↦ []
  | some stream ↦ keep (λ event. ltb last_event_id event.id) stream.buffer
]

-- What a subscriber of `changes$` receives of the events that are sent while it listens.
unfoldable pub changes : String → List OrderStatusEvent → List OrderStatusEvent
changes order_id = keep (λ event. event.order_id == order_id)

-- The frames of `streamEvents`: the replay, if there is a cursor, then the live events.
unfoldable pub stream_frames :
    String → Option ℕ → Bus → List OrderStatusEvent → List OrderStatusEvent
stream_frames order_id none bus live = changes order_id live
stream_frames order_id (some cursor) bus live =
    replay_after order_id cursor bus ++ changes order_id live

-- A history of calls of `publish`: order and status, in order.
unfoldable pub publish_all : List (String × String) → Bus → Bus
publish_all [] bus = bus
publish_all ((order_id, status) ∷ calls) bus = publish_all calls (publish order_id status bus).1

-- The events those calls send, for a subscriber that listens from `bus` on.
unfoldable pub emitted : List (String × String) → Bus → List OrderStatusEvent
emitted [] bus = []
emitted ((order_id, status) ∷ calls) bus =
    let (event, next) = publish order_id status bus in event ∷ emitted calls next
