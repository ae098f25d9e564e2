-- ===== src/Messaging/Consumer/Accepts.antt =====
-- A message that leaves a row.
use marketplace_template.Prelude.{
  ℕ, String, Bool, ◌≡◌, refl, sym, ap, subst, ◌∙◌, ◌⊎◌, inl, inr, false, Option, none, some, [],
  ◌∷◌, ◌++◌, ok, Result-cases, arith, Table, lookup, put, lookup-put, text_eq, ◌==◌, Bool-cases,
}
use marketplace_template.Json.{Json}
use marketplace_template.Messaging.Event.{OrderPlacedEvent}
use marketplace_template.Messaging.Effects.{EffectRow, EffectStore, ack_row, record_delivery}
use marketplace_template.Messaging.Effects.Once.{committed, apply_effect-committed}
use marketplace_template.Messaging.Consumer.{
  Thrown, Content, PlacedMessage, parse_event, Fault, calm, lost, Attempt, Consumer, call_store,
  apply_message, apply_and_ack, reject_or_apply, try_message, handle_message,
}
use marketplace_template.Messaging.Consumer.Outcome.{apply_message-Applied}
use marketplace_template.Messaging.Consumer.Rows.{Inserts, fresh_row}
use marketplace_template.Messaging.Consumer.Keeps.{ack_or_crash-Keeps, catch_message-store}

-- The call reached the database.
abbrev pub Reaches : Fault → Type 0
Reaches fault = (fault ≡ calm) ⊎ ((e : Thrown) × (fault ≡ lost e))

abbrev pub HasRow : String → Table String EffectRow → Type 0
HasRow id effects = (row : EffectRow) × (lookup id effects ≡ some row)

HasRow-put :
    (id own : String) (new : EffectRow) (effects : Table String EffectRow)
    → HasRow id effects
    → HasRow id (put own new effects)
HasRow-put id own new effects (row, there) = elim (Bool-cases (own == id)) [
  | inl same ↦ (new, rw (lookup-put own id new effects, same) refl)
  | inr other ↦ (row, rw (lookup-put own id new effects, other) there)
]

module _ (uuid_of : String → Option String) (timestamp_of : String → Option ℕ)
    (as_parameter : Json → String) (id : String) (crash : Bool) (attempt : Attempt)
    (content : Content) where
  -- A sound message of the id that the casts take, whose two first calls reach the database.
  pub record Accepted : Type 0 where
    pub message : PlacedMessage
    pub at : ℕ
    pub read : parse_event content ≡ ok message
    pub sound : message.poison ≡ false
    pub inserts : Inserts uuid_of timestamp_of as_parameter message id at
    pub recorded : attempt.record_fault ≡ calm
    pub applied : Reaches attempt.apply_fault

  module _ (a : Accepted) where
    apply_message-HasRow :
        (s : EffectStore)
        → HasRow id (apply_message uuid_of timestamp_of as_parameter a.message s).1.tables.effects
    unfolding apply_message
    apply_message-HasRow s =
        let i = a.inserts in
        let event : OrderPlacedEvent = record {
          event_id = a.message.event_id;
          type = "order.placed";
          occurred_at = i.text_of;
          order_id = a.message.order_id;
          user_id = "";
          total_cents = 0;
          poison = none;
        } in
        let done = apply_effect-committed uuid_of timestamp_of event s id a.at i.named i.dated in
        let whole : apply_message uuid_of timestamp_of as_parameter a.message s ≡ (
          ok (committed id a.message.order_id a.at s).0,
          (committed id a.message.order_id a.at s).1,
        ) =
          rw (apply_message, i.given) done in
        let (own, named, present) =
          apply_message-Applied uuid_of timestamp_of as_parameter a.message s _ _ whole in
        let both = sym named ∙ i.named in
        let same : own ≡ id = ground arith in
        rw whole (
          present.row,
          subst
              (λ x.
                lookup x (committed id a.message.order_id a.at s).1.tables.effects
                ≡ some present.row)
              same present.effect,
        )

    -- The call of `applyEffect`, whether its answer arrives or not.
    call_store-HasRow :
        (c : Consumer)
        → HasRow id
            (call_store attempt.apply_fault
              (apply_message uuid_of timestamp_of as_parameter a.message)
              c).1.store.tables.effects
    unfolding call_store
    call_store-HasRow c = elim a.applied [
      | inl calmly ↦ rw calmly (apply_message-HasRow c.store)
      | inr (e, lost_answer) ↦ rw lost_answer (apply_message-HasRow c.store)
    ]

    apply_and_ack-HasRow :
        (c : Consumer)
        → HasRow id
            (apply_and_ack uuid_of timestamp_of as_parameter crash attempt a.message
              c).1.store.tables.effects
    unfolding apply_and_ack
    apply_and_ack-HasRow c =
        let there = call_store-HasRow c in
        elim (Result-cases (
          call_store attempt.apply_fault (apply_message uuid_of timestamp_of as_parameter a.message)
            c)) [
              | inr (x, d, e) ↦
                  rw (apply_and_ack, e) (subst (λ p. HasRow id p.1.store.tables.effects) e there)
              | inl (b, d, e) ↦
                  rw (apply_and_ack, e)
                    (ack_or_crash-Keeps (HasRow id) uuid_of timestamp_of as_parameter
                      (λ own now old effects _ h. HasRow-put id own (ack_row now old) effects h)
                      crash attempt content
                      (λ m own at effects _ _ _ _ h.
                        HasRow-put id own (fresh_row m.order_id at) effects h)
                      a.message b d (subst (λ p. HasRow id p.1.store.tables.effects) e there))
            ]

    -- After the delivery was recorded.
    abbrev recorded_at : Consumer → Consumer
    recorded_at c = record c {
      store = record c.store {
        tables = record c.store.tables { deliveries = c.store.tables.deliveries ++ id ∷ [] };
      };
    }

    record_delivery-recorded :
        (c : Consumer)
        → call_store attempt.record_fault
            (record_delivery uuid_of timestamp_of a.message.event_id)
            c
          ≡ (ok tt, recorded_at c)
    unfolding call_store record_delivery
    record_delivery-recorded c = rw (a.recorded, record_delivery, a.inserts.named) refl

    try_message-recorded :
        (c : Consumer)
        → try_message uuid_of timestamp_of as_parameter crash attempt content c
          ≡ apply_and_ack uuid_of timestamp_of as_parameter crash attempt a.message (recorded_at c)
    unfolding try_message reject_or_apply
    try_message-recorded c =
        rw (try_message, a.read, record_delivery-recorded c) (simp (a.sound) refl)

    pub handle_message-HasRow :
        (c : Consumer)
        → HasRow id
            (handle_message uuid_of timestamp_of as_parameter crash attempt content
              c).store.tables.effects
    unfolding handle_message
    handle_message-HasRow c =
        subst (λ (s : EffectStore). HasRow id s.tables.effects)
          (ap (λ p. p.1.store) (sym (try_message-recorded c))
            ∙ sym (
                catch_message-store
                  (try_message uuid_of timestamp_of as_parameter crash attempt content c)))
          (apply_and_ack-HasRow (recorded_at c))
