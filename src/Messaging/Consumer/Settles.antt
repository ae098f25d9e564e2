-- ===== src/Messaging/Consumer/Settles.antt =====
-- How a delivery is settled, on every path of the handler.
use marketplace_template.Prelude.{
  ℕ, ◌+◌, String, Bool, true, false, ◌≡◌, ◌≢◌, ◌⊎◌, Option, some, [], ◌∷◌, ◌++◌, ok, err,
  if◌then◌else◌,
}
use marketplace_template.Json.{Json}
use marketplace_template.Messaging.Effects.Once.{Applied}
use marketplace_template.Messaging.Consumer.{
  Thrown, is_transient, Content, PlacedMessage, parse_event, calm, Attempt, acked, requeued,
  rejected, Consumer, try_message,
}

module _ (uuid_of : String → Option String) (timestamp_of : String → Option ℕ)
    (as_parameter : Json → String) where
  -- The effect of the event of `content` is committed.
  abbrev pub Stored : Content → Consumer → Type 0
  Stored content d =
      (m : PlacedMessage) × (parse_event content ≡ ok m)
      × (id : String) × (uuid_of m.event_id ≡ some id)
      × Applied id d.store

  -- The `try` of the handler threw this.
  abbrev pub Throws : Bool → Attempt → Content → Consumer → Thrown → Type 0
  Throws crash_before_ack attempt content c e =
      (u : Consumer) × (try_message uuid_of timestamp_of as_parameter crash_before_ack attempt
          content c
        ≡ (err e, u))

  -- The ways in which the handler leaves a delivery.
  pub data Outcome (crash_before_ack : Bool) (attempt : Attempt) (content : Content)
      (c d : Consumer) : Type 0 where
    acknowledges :
        Stored content d
        → d.settlements ≡ c.settlements ++ acked ∷ []
        → d.rejected_count ≡ c.rejected_count
        → Outcome crash_before_ack attempt content c d
    settles_twice :
        (e : Thrown)
        → Throws crash_before_ack attempt content c e
        → Stored content d
        → attempt.mark_fault ≢ calm
        → d.settlements
          ≡ (c.settlements ++ acked ∷ []) ++ (if is_transient e then requeued else rejected) ∷ []
        → Outcome crash_before_ack attempt content c d
    requeues :
        (e : Thrown)
        → Throws crash_before_ack attempt content c e
        → is_transient e ≡ true
        → d.settlements ≡ c.settlements ++ requeued ∷ []
        → d.rejected_count ≡ c.rejected_count
        → Outcome crash_before_ack attempt content c d
    rejects :
        ((e : Thrown) × Throws crash_before_ack attempt content c e × (is_transient e ≡ false))
          ⊎ ((m : PlacedMessage) × (parse_event content ≡ ok m) × (m.poison ≡ true))
        → d.settlements ≡ c.settlements ++ rejected ∷ []
        → d.rejected_count ≡ c.rejected_count + 1
        → Outcome crash_before_ack attempt content c d
    dies :
        crash_before_ack ≡ true
        → Stored content d
        → d.settlements ≡ c.settlements
        → d.is_running ≡ false
        → Outcome crash_before_ack attempt content c d
