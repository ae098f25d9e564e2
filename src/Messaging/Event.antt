-- ===== src/Messaging/Event.antt =====
-- src/messaging/order-placed.event.ts: the order.placed contract. The random UUID and the clock
-- reading that fill a missing field are arguments.
use marketplace_template.Prelude.{ℕ, String, Bool, true, false, Option, none, some, if◌then◌else◌}
use marketplace_template.Json.{Json, num, text, bool, object, Fields, end, field}

pub record OrderPlacedEvent : Type 0 where
  pub event_id : String
  pub type : String
  pub occurred_at : String
  pub order_id : String
  pub user_id : String
  pub total_cents : ℕ
  pub poison : Option Bool

pub record EventInput : Type 0 where
  pub order_id : String
  pub user_id : String
  pub total_cents : ℕ
  pub event_id : Option String
  pub occurred_at : Option String
  pub poison : Option Bool

abbrev or_else {ℓ} : {A : Type ℓ} → Option A → A → A
or_else none a = a
or_else (some b) a = b

unfoldable pub create_order_placed_event : EventInput → String → String → OrderPlacedEvent
create_order_placed_event input random_uuid now_iso = record {
  event_id = or_else input.event_id random_uuid;
  type = "order.placed";
  occurred_at = or_else input.occurred_at now_iso;
  order_id = input.order_id;
  user_id = input.user_id;
  total_cents = input.total_cents;
  poison = if or_else input.poison false then some true else none;
}

-- The three scalars of an order, with no `eventId`, `occurredAt` or `poison` given.
unfoldable pub to_order_placed_event : String → String → ℕ → String → String → OrderPlacedEvent
unfolding create_order_placed_event
to_order_placed_event order_id user_id total_cents = create_order_placed_event (record {
  order_id = order_id;
  user_id = user_id;
  total_cents = total_cents;
  event_id = none;
  occurred_at = none;
  poison = none;
})

-- The fields that `JSON.stringify` writes; an absent `poison` is left out.
abbrev poison_field : Option Bool → Fields
poison_field none = end
poison_field (some b) = field "poison" (bool b) end

unfoldable pub event_json : OrderPlacedEvent → Json
event_json e = object (
    field "eventId" (text e.event_id) (
      field "type" (text e.type) (
        field "occurredAt" (text e.occurred_at) (
          field "orderId" (text e.order_id) (
            field "userId" (text e.user_id)
              (field "totalCents" (num e.total_cents) (poison_field e.poison)))))))
