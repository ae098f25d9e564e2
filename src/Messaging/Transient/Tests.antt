-- ===== src/Messaging/Transient/Tests.antt =====
-- A query error round a connection reset, whose cause leads back to it.
use marketplace_template.Prelude.{
  ◌≡◌, ◌↔◌, refl, true, false, none, some, [], ◌∷◌, lookup, strip_prefix, text_length,
  starts_folded, contains_folded,
}
use marketplace_template.Messaging.Transient.{
  Heap, read_pg_code, is_transient_code, is_transient_message, is_transient_object, visit,
  is_transient_consumer_error,
}
use marketplace_template.Messaging.Transient.Search.{LeadsToTransient}
use marketplace_template.Messaging.Transient.Correct.{is_transient_iff}

abbrev wrapped : Heap
wrapped =
    (0, record { code = none; message = some "failed"; driver_error = none; cause = some 1 })
    ∷ (1, record { code = some "ECONNRESET"; message = none; driver_error = none; cause = some 0 })
    ∷ []

wrapped_transient : is_transient_consumer_error wrapped (some 0) ≡ true
unfolding is_transient_consumer_error visit is_transient_object read_pg_code is_transient_code
    is_transient_message text_length starts_folded contains_folded strip_prefix lookup
wrapped_transient = refl

serialization_codes :
    (is_transient_code "40001" ≡ true)
    × (is_transient_code "23505" ≡ false)
    × (is_transient_code "0800" ≡ false)
unfolding is_transient_code text_length strip_prefix
serialization_codes = (refl, refl, refl)

shouted_message : is_transient_message "Error: Connection TERMINATED unexpectedly" ≡ true
unfolding is_transient_message contains_folded starts_folded
shouted_message = refl

is_transient_iff_example :
    (is_transient_consumer_error wrapped (some 0) ≡ true) ↔ LeadsToTransient wrapped (some 0)
is_transient_iff_example = is_transient_iff wrapped (some 0)
