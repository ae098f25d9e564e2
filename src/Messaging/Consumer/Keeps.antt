-- ===== src/Messaging/Consumer/Keeps.antt =====
-- What every call of the store keeps, the handler keeps, whatever fails and however it ends.
use marketplace_template.Prelude.{
  ℕ, String, Bool, ◌≡◌, refl, sym, subst, inl, inr, false, Option, none, some, Result, ok, err,
  Action, ◌>>=◌, Result-cases, Result-split, Table, lookup, put, text_eq, Bool-cases, ◌&&◌,
}
use marketplace_template.Json.{Json}
use marketplace_template.Messaging.Effects.{
  EffectRow, EffectStore, ack_row, record_delivery, mark_acked,
}
use marketplace_template.Messaging.Consumer.{
  Thrown, Content, PlacedMessage, parse_event, Fault, calm, refused, lost, Attempt, Consumer,
  call_store, apply_message, ack_or_crash, apply_and_ack, reject_or_apply, try_message,
  catch_message, handle_message, reject_permanent, is_transient, settle, acked,
}
use marketplace_template.Messaging.Consumer.Rows.{
  Inserts, fresh_row, apply_message-effects, mark_acked-effects, record_delivery-effects,
}

pub catch_message-store :
    (p : Result Thrown (Unit {0}) × Consumer) → (catch_message p).store ≡ p.1.store
unfolding catch_message reject_permanent
catch_message-store (ok _, c) = refl
catch_message-store (err e, c) = elim (Bool-cases (is_transient e)) [
  | inl transient ↦ rw (catch_message, transient) refl
  | inr permanent ↦ rw (catch_message, permanent) refl
]

-- Something that holds of the rows before and after a call.
module _ (P : Table String EffectRow → Type 0) where
  abbrev pub Keeps : {A : Type 0} → Action Thrown Consumer A → Type 0
  Keeps m = (c : Consumer) → P c.store.tables.effects → P (m c).1.store.tables.effects

  Keeps-bind :
      {A B : Type 0} (m : Action Thrown Consumer A) (f : A → Action Thrown Consumer B)
      → Keeps m
      → ((a : A) → Keeps (f a))
      → Keeps (m >>= f)
  Keeps-bind m f hm hf c h = elim (Result-cases (m c)) [
    | inl (a, d, e) ↦ rw e (hf a d (subst (λ p. P p.1.store.tables.effects) e (hm c h)))
    | inr (x, d, e) ↦ rw e (subst (λ p. P p.1.store.tables.effects) e (hm c h))
  ]

  call_store-Keeps :
      {A : Type 0} (fault : Fault) (call : Action String EffectStore A)
      → ((s : EffectStore) → P s.tables.effects → P (call s).1.tables.effects)
      → Keeps (call_store fault call)
  unfolding call_store
  call_store-Keeps calm call k c h = k c.store h
  call_store-Keeps (refused e) call k c h = h
  call_store-Keeps (lost e) call k c h = k c.store h

  module _ (uuid_of : String → Option String) (timestamp_of : String → Option ℕ)
      (as_parameter : Json → String)
      (acks : (own : String) (now : ℕ) (old : EffectRow) (effects : Table String EffectRow)
        → lookup own effects ≡ some old
        → P effects
        → P (put own (ack_row now old) effects)) where
    mark_acked-Keeps :
        (now : ℕ) (event_id : String) (s : EffectStore)
        → P s.tables.effects
        → P (mark_acked uuid_of timestamp_of now event_id s).1.tables.effects
    mark_acked-Keeps now event_id s h =
        elim (mark_acked-effects uuid_of timestamp_of as_parameter now event_id s) [
          | inl same ↦ subst P (sym same) h
          | inr (own, old, there, acked_row) ↦
              subst P (sym acked_row) (acks own now old s.tables.effects there h)
        ]

    module _ (crash : Bool) (attempt : Attempt) (content : Content)
        (inserts : (m : PlacedMessage) (own : String) (at : ℕ) (effects : Table String EffectRow)
          → parse_event content ≡ ok m
          → m.poison ≡ false
          → Inserts uuid_of timestamp_of as_parameter m own at
          → lookup own effects ≡ none
          → P effects
          → P (put own (fresh_row m.order_id at) effects)) where
      apply_message-Keeps :
          (m : PlacedMessage)
          → parse_event content ≡ ok m
          → m.poison ≡ false
          → (s : EffectStore) → P s.tables.effects
          → P (apply_message uuid_of timestamp_of as_parameter m s).1.tables.effects
      apply_message-Keeps m read sound s h =
          elim (apply_message-effects uuid_of timestamp_of as_parameter m s) [
            | inl same ↦ subst P (sym same) h
            | inr (own, at, i, fresh, inserted) ↦
                subst P (sym inserted) (inserts m own at s.tables.effects read sound i fresh h)
          ]

      pub ack_or_crash-Keeps :
          (m : PlacedMessage) (applied : Bool)
          → Keeps (ack_or_crash uuid_of timestamp_of as_parameter crash attempt m applied)
      unfolding ack_or_crash
      ack_or_crash-Keeps m applied c h = elim (Bool-cases (crash && applied)) [
        | inl dies ↦ rw (ack_or_crash, dies) h
        | inr runs ↦
            rw (ack_or_crash, runs)
              (call_store-Keeps attempt.mark_fault
                (mark_acked uuid_of timestamp_of attempt.now m.event_id)
                (mark_acked-Keeps attempt.now m.event_id) (settle acked c) h)
      ]

      reject_or_apply-Keeps :
          (m : PlacedMessage)
          → parse_event content ≡ ok m
          → Keeps (reject_or_apply uuid_of timestamp_of as_parameter crash attempt m)
      unfolding reject_or_apply reject_permanent apply_and_ack ack_or_crash apply_message
      reject_or_apply-Keeps m read c h = elim (Bool-cases m.poison) [
        | inl poisoned ↦ rw (reject_or_apply, poisoned) h
        | inr sound ↦
            rw (reject_or_apply, sound)
              (Keeps-bind
                (call_store attempt.apply_fault (apply_message uuid_of timestamp_of as_parameter m))
                (ack_or_crash uuid_of timestamp_of as_parameter crash attempt m)
                (call_store-Keeps attempt.apply_fault
                  (apply_message uuid_of timestamp_of as_parameter m)
                  (apply_message-Keeps m read sound))
                (ack_or_crash-Keeps m) c h)
      ]

      try_message-Keeps :
          Keeps (try_message uuid_of timestamp_of as_parameter crash attempt content)
      unfolding try_message
      try_message-Keeps c h = elim (Result-split (parse_event content)) [
        | inr (e, bad) ↦ rw (try_message, bad) h
        | inl (m, read) ↦
            rw (try_message, read)
              (Keeps-bind
                (call_store attempt.record_fault (record_delivery uuid_of timestamp_of m.event_id))
                (λ _. reject_or_apply uuid_of timestamp_of as_parameter crash attempt m)
                (call_store-Keeps attempt.record_fault
                  (record_delivery uuid_of timestamp_of m.event_id)
                  (λ s k.
                    subst P
                      (sym (record_delivery-effects uuid_of timestamp_of as_parameter m.event_id s))
                      k))
                (λ _. reject_or_apply-Keeps m read) c h)
      ]

      pub handle_message-Keeps :
          (c : Consumer)
          → P c.store.tables.effects
          → P
              (handle_message uuid_of timestamp_of as_parameter crash attempt content
                c).store.tables.effects
      unfolding handle_message
      handle_message-Keeps c h =
          subst (λ (s : EffectStore). P s.tables.effects)
            (sym (
              catch_message-store
                (try_message uuid_of timestamp_of as_parameter crash attempt content c)))
            (try_message-Keeps c h)
