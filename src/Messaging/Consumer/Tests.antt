-- ===== src/Messaging/Consumer/Tests.antt =====
-- Deliveries of one event, sound, poisoned, and malformed.
use marketplace_template.Prelude.{
  ℕ, String, ◌≡◌, ◌⊎◌, refl, true, false, Option, none, some, List, [], ◌∷◌, if◌then◌else◌, ◌==◌,
  text_eq, lookup, put, strip_prefix, text_length, starts_folded, contains_folded,
}
use marketplace_template.Json.{
  Json, text, bool, null, object, field, end, find_field, property, as_text, is_truthy,
}
use marketplace_template.Messaging.Effects.{
  EffectRow, EffectTables, no_rows, reset_store, record_delivery, insert_processed, insert_effect,
  apply_effect, mark_acked,
}
use marketplace_template.Messaging.Transient.{
  read_pg_code, is_transient_code, is_transient_message, is_transient_object, visit,
  is_transient_consumer_error,
}
use marketplace_template.Messaging.Consumer.{
  Content, parsed, malformed, parse_event, calm, lost, Attempt, Settlement, acked, requeued,
  rejected, Consumer, thrown, is_transient, reject_permanent, call_store, occurred_at_parameter,
  apply_message, ack_or_crash, apply_and_ack, reject_or_apply, try_message, catch_message,
  handle_message,
}
use marketplace_template.Messaging.Consumer.Rows.{Stands}
use marketplace_template.Messaging.Consumer.Deliveries.{Delivery, deliver_all, deliver_all-keeps}
use marketplace_template.Messaging.Consumer.FirstWrite.{FirstOf, NoneAccepted, deliver_all-FirstOf}

abbrev uuid_cast : String → Option String
uuid_cast s = if s == "e1" then some "e1" else none

abbrev timestamp_cast : String → Option ℕ
timestamp_cast s = if s == "2026-01-01" then some 1767225600000 else none

abbrev other_text : Json → String
other_text j = "{}"

abbrev body : Json → Content
body poison = parsed (
    object (
      field "eventId" (text "e1") (
        field "type" (text "order.placed") (
          field "occurredAt" (text "2026-01-01")
            (field "orderId" (text "ord_1") (field "poison" poison end))))))

abbrev idle : Consumer
idle = record { store = reset_store; settlements = []; rejected_count = 0; is_running = true }

abbrev quiet : Attempt
quiet = record { record_fault = calm; apply_fault = calm; mark_fault = calm; now = 5 }

abbrev reset_on_mark : Attempt
reset_on_mark = record quiet { mark_fault = lost (thrown (some "ECONNRESET") none) }

abbrev handled : Attempt → Content → List Settlement
handled attempt content =
    (handle_message uuid_cast timestamp_cast other_text false attempt content idle).settlements

abbrev running : ℕ
unfolding handle_message try_message catch_message reject_or_apply apply_and_ack ack_or_crash
    apply_message occurred_at_parameter call_store reject_permanent parse_event is_transient
    find_field property as_text is_truthy record_delivery insert_processed insert_effect
    apply_effect mark_acked read_pg_code is_transient_code is_transient_message is_transient_object
    visit is_transient_consumer_error lookup put strip_prefix text_length starts_folded
    contains_folded
running = 0

settlements_of_each :
    (handled quiet (body (bool false)) ≡ acked ∷ [])
    × (handled quiet (body (bool true)) ≡ rejected ∷ [])
    × (handled quiet (parsed null) ≡ rejected ∷ [])
    × (handled reset_on_mark (body (bool false)) ≡ acked ∷ requeued ∷ [])
unfolding running
settlements_of_each = (refl, refl, refl, refl)

-- The parser's message quotes the body, and so can read as a lost connection.
quoted_body_requeued :
    handled quiet (malformed "Unexpected token 'n', \"not queryable\" is not valid JSON")
    ≡ requeued ∷ []
unfolding running
quoted_body_requeued = refl

-- The effect commits and its answer is lost.
abbrev lost_commit : Attempt
lost_commit = record quiet { apply_fault = lost (thrown (some "ECONNRESET") none) }

abbrev delivery : Attempt → Content → Delivery
delivery attempt content = record {
  process = idle;
  crash_before_ack = false;
  attempt = attempt;
  content = content;
}

-- A poisoned message, the first sound one, a broken body, and the redelivery.
abbrev deliveries : List Delivery
deliveries =
    delivery quiet (body (bool true))
    ∷ delivery lost_commit (body (bool false))
    ∷ delivery quiet (parsed null)
    ∷ delivery quiet (body (bool false))
    ∷ []

abbrev after_deliveries : EffectTables
after_deliveries = deliver_all uuid_cast timestamp_cast other_text deliveries no_rows

one_row :
    lookup "e1" after_deliveries.effects
    ≡ some (record { order_id = "ord_1"; occurred_at = 1767225600000; acked_at = some 5 })
unfolding running
one_row = refl

no_row_yet : lookup "e1" no_rows.effects ≡ none
unfolding lookup
no_row_yet = refl

deliver_all-FirstOf_example :
    ((lookup "e1" after_deliveries.effects ≡ none)
      × NoneAccepted uuid_cast timestamp_cast other_text "e1" deliveries)
    ⊎ ((row : EffectRow) × (lookup "e1" after_deliveries.effects ≡ some row)
        × FirstOf uuid_cast timestamp_cast other_text "e1" deliveries no_rows row)
deliver_all-FirstOf_example =
    deliver_all-FirstOf uuid_cast timestamp_cast other_text "e1" deliveries no_rows no_row_yet

abbrev acked_row : EffectRow
acked_row = record { order_id = "ord_1"; occurred_at = 1767225600000; acked_at = some 5 }

abbrev again : Delivery
again = delivery (record quiet { now = 9 }) (body (bool false))

deliver_all-keeps_example :
    Stands "e1" acked_row
      (deliver_all uuid_cast timestamp_cast other_text (again ∷ []) after_deliveries).effects
deliver_all-keeps_example =
    deliver_all-keeps uuid_cast timestamp_cast other_text "e1" acked_row (again ∷ [])
      after_deliveries one_row
