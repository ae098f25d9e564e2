-- ===== src/Messaging/Relay/Tests.antt =====
-- Relay cycles over two rows.
use marketplace_template.Prelude.{
  ℕ, ◌+◌, String, ◌≡◌, refl, true, false, none, some, List, [], ◌∷◌, ◌++◌, ok, err, length, lookup,
  put,
}
use marketplace_template.Json.{Json, text, object, field, end, find_field, property, as_text}
use marketplace_template.Db.{OutboxRow}
use marketplace_template.Messaging.Relay.{
  RelayOptions, crashed, accepted, Cycle, Relay, is_unpublished, is_of_user, is_before, insert_row,
  claimable, claim, as_order_placed_event, mark_published, publish_rows, publish_claimed, commit,
  end_cycle, publish_pending,
}
use marketplace_template.Messaging.Relay.AtLeastOnce.{
  payloads, mark_all, published_of, publish_pending-ok, publish_pending-err,
}

abbrev payload : String → Json
payload event_id = object (field "eventId" (text event_id) (field "type" (text "order.placed") end))

abbrev row : String → ℕ → OutboxRow
row event_id created_at = record {
  aggregate_id = "1";
  type = "order.placed";
  payload = payload event_id;
  created_at = created_at;
  published_at = none;
  attempts = 0;
}

abbrev marked : OutboxRow → OutboxRow
marked r = record r { published_at = some 90; attempts = r.attempts + 1 }

abbrev waiting : Relay
waiting = record {
  outbox = (1, row "late" 50) ∷ (2, row "early" 40) ∷ [];
  broker = [];
  failed_attempt_id = none;
}

abbrev calm : Cycle
calm = record {
  is_locked = λ id. false;
  confirm = λ id. accepted;
  connection = none;
  mark_fault = λ id. none;
  commit_fault = none;
  now = 90;
}

abbrev plain : RelayOptions
plain = record { limit = none; crash_after_publish = false; user_id = none }

abbrev crashing : RelayOptions
crashing = record plain { crash_after_publish = true }

abbrev relayed : Relay
relayed = record {
  outbox = (1, marked (row "late" 50)) ∷ (2, marked (row "early" 40)) ∷ [];
  broker = payload "early" ∷ payload "late" ∷ [];
  failed_attempt_id = none;
}

relay_runs : publish_pending plain calm waiting ≡ (ok 2, relayed)
unfolding publish_pending publish_claimed publish_rows commit end_cycle claim claimable insert_row
    is_before is_unpublished is_of_user as_order_placed_event mark_published property find_field
    as_text lookup put
relay_runs = refl

publish_pending-ok_example :
    (2 ≡ length (claim plain calm waiting.outbox))
    × (relayed.broker ≡ waiting.broker ++ payloads (claim plain calm waiting.outbox))
    × (relayed.outbox ≡ mark_all 90 (claim plain calm waiting.outbox) waiting.outbox)
publish_pending-ok_example = publish_pending-ok plain calm 2 waiting relayed relay_runs

abbrev halfway : Relay
halfway = record waiting { broker = payload "early" ∷ [] }

relay_crashes : publish_pending crashing calm waiting ≡ (err crashed, halfway)
unfolding publish_pending publish_claimed publish_rows commit end_cycle claim claimable insert_row
    is_before is_unpublished is_of_user as_order_placed_event mark_published property find_field
    as_text lookup put
relay_crashes = refl

publish_pending-err_example :
    ((sent : List Json) × (halfway.broker ≡ waiting.broker ++ sent))
    × ((id : ℕ) → published_of id halfway.outbox ≡ published_of id waiting.outbox)
publish_pending-err_example =
    publish_pending-err crashing calm crashed waiting halfway relay_crashes
