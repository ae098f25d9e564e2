-- ===== src/Messaging/Effects/Tests.antt =====
-- The effect store on a few messages.
use marketplace_template.Prelude.{
  ℕ, String, ◌≡◌, refl, true, false, none, some, Option, [], ◌∷◌, if◌then◌else◌, ◌==◌, text_eq, ok,
  lookup, put,
}
use marketplace_template.Messaging.Event.{OrderPlacedEvent}
use marketplace_template.Messaging.Effects.{
  EffectStore, reset_store, insert_processed, insert_effect, apply_effect, counts, is_acked,
}
use marketplace_template.Messaging.Effects.Once.{apply_effect-again}

-- Casts of the few texts used here: two spellings of one id, and one date.
abbrev uuid_cast : String → Option String
uuid_cast s = if s == "E1" then some "e1" else if s == "e1" then some "e1" else none

abbrev timestamp_cast : String → Option ℕ
timestamp_cast s = if s == "2026-01-01" then some 1767225600000 else none

abbrev placed : String → String → OrderPlacedEvent
placed event_id order_id = record {
  event_id = event_id;
  type = "order.placed";
  occurred_at = "2026-01-01";
  order_id = order_id;
  user_id = "1";
  total_cents = 700;
  poison = none;
}

abbrev applied_store : EffectStore
applied_store = record {
  tables = record {
    deliveries = [];
    processed = (("e1", "order-placed"), tt) ∷ [];
    effects =
        ("e1", record { order_id = "ord_1"; occurred_at = 1767225600000; acked_at = none }) ∷ [];
  };
  successful_applies = 1;
}

first_apply :
    apply_effect uuid_cast timestamp_cast (placed "e1" "ord_1") reset_store
    ≡ (ok true, applied_store)
unfolding apply_effect insert_processed insert_effect lookup put
first_apply = refl

apply_effect-again_example :
    apply_effect uuid_cast timestamp_cast (placed "E1" "ord_2") applied_store
    ≡ (ok false, applied_store)
apply_effect-again_example =
    apply_effect-again uuid_cast timestamp_cast (placed "e1" "ord_1") (placed "E1" "ord_2")
      reset_store applied_store true 1767225600000 first_apply refl refl

abbrev received_twice : EffectStore
received_twice = record applied_store {
  tables = record applied_store.tables { deliveries = "e1" ∷ "e1" ∷ [] };
}

two_deliveries :
    counts received_twice ≡ record { deliveries = 2; effect = 1; acked = 0; skipped = 1 }
unfolding counts is_acked
two_deliveries = refl
