-- ===== src/Orders/Http.antt =====
-- src/orders/orders.controller.ts, src/orders/order-events.controller.ts and
-- src/orders/orders.gateway.ts: what the routes and the socket make of the orders API. A stream is
-- given as all that is written to it while `live` is sent.
pub mod Resume
use marketplace_template.Prelude.{
  ℕ, String, Bool, Option, none, some, List, [], ◌∷◌, ◌++◌, ◌==◌, text_eq, if◌then◌else◌, ◌<>◌,
  show_nat, Result, ok, err, Action, ◌>>=◌, ◌>>◌, pure, gets,
}
use marketplace_template.Json.{Json, num, text, object, field, end}
use marketplace_template.Checkout.{Turn}
use marketplace_template.Store.{Order, Page}
use marketplace_template.Orders.Events.{OrderStatusEvent, stream_frames}
use marketplace_template.Orders.Ids.{canonical_order_id}
use marketplace_template.Orders.Cursor.{parse_last_event_id}
use marketplace_template.Orders.Service.{
  Runtime, OrdersError, problem, Service, Api, assert_can_read, get_by_id, update_status, list,
}
use marketplace_template.Orders.Create.{Body, create}

abbrev or_blank : Option String → String
or_blank none = ""
or_blank (some s) = s

pub record Response : Type 0 where
  pub headers : List (String × String)
  pub body : Order

pub data Joined : Type 0 where
  joined : String → Joined
  refused : String → Joined

-- The three writes of a frame, with `JSON.stringify`.
unfoldable pub write_sse_frame : (Json → String) → OrderStatusEvent → List String
write_sse_frame stringify event =
    ("id: " <> show_nat event.id <> "\n")
    ∷ "event: order.status\n"
    ∷ ("data: "
        <> stringify
            (object (field "id" (text event.order_id) (field "status" (text event.status) end)))
        <> "\n\n")
    ∷ []

unfoldable pub write_frames : (Json → String) → List OrderStatusEvent → List String
unfolding write_sse_frame
write_frames stringify [] = []
write_frames stringify (event ∷ events) =
    write_sse_frame stringify event ++ write_frames stringify events

-- A room of the socket server, and the message to it.
unfoldable pub emit_change : OrderStatusEvent → String × Json
emit_change event = (
  "orders:" <> event.order_id,
  object (
      field "id" (text event.order_id)
        (field "status" (text event.status) (field "eventId" (num event.id) end))),
)

module _ {B : Type 0} (env : ℕ → Turn) (rt : Runtime B) where
  -- The error text of a refused join; `message_of` is the message of any other error.
  unfoldable pub join_error : (OrdersError → String) → OrdersError → String
  join_error message_of (problem p) = p.detail
  join_error message_of e = message_of e

  abbrev join_result :
      (OrdersError → String) → String → Result OrdersError (Unit {0}) × Service → Joined × Service
  join_result message_of canonical (ok a, s) = (joined ("orders:" <> canonical), s)
  join_result message_of canonical (err e, s) = (refused (join_error message_of e), s)

  unfoldable pub join :
      (OrdersError → String)
      → Option String
      → Option String
      → Option String
      → Service
      → Joined × Service
  unfolding join_error assert_can_read canonical_order_id
  join message_of order_id user_id role s =
      let canonical = canonical_order_id (or_blank order_id) in
      join_result message_of canonical
        (assert_can_read env rt canonical (or_blank user_id) (or_blank role) s)

  unfoldable pub stream_events :
      (String → String)
      → (Json → String)
      → List OrderStatusEvent
      → String
      → Option String
      → Option String
      → Option String
      → Api (List String)
  unfolding canonical_order_id assert_can_read write_frames stream_frames parse_last_event_id
  stream_events trim stringify live id header user_id role = do
    assert_can_read env rt (canonical_order_id id) (or_blank user_id) (or_blank role)
    bus ← gets (λ s. s.bus)
    pure (
        "retry: 1000\n\n"
        ∷ write_frames stringify
            (stream_frames (canonical_order_id id) (parse_last_event_id trim header) bus live))

module _ (env : ℕ → Turn) (rt : Runtime Body) where
  unfoldable pub post_order : String → String → String → Body → Api Response
  unfolding create
  post_order user_id role key body = do
    result ← create env rt user_id role key body
    pure (record {
      headers =
          ("Location", result.location)
          ∷ (if result.replay then ("Idempotency-Replay", "true") ∷ [] else []);
      body = result.order;
    })

-- `limit ? Number(limit) : undefined`
unfoldable pub get_orders :
    (String → ℕ) → String → String → Option String → Option String → Api (Page Order)
unfolding list
get_orders number user_id role none cursor = list user_id role none cursor
get_orders number user_id role (some limit) cursor =
    list user_id role (if limit == "" then none else some (number limit)) cursor
