-- ===== src/Messaging/Consumer/Outcome.antt =====
-- What a delivery comes to.
use marketplace_template.Prelude.{
  ℕ, String, Bool, ◌≡◌, refl, ap, ◌∙◌, inl, inr, Option, some, ok, Action, Result-cases, arith,
  lookup, lookup-put, text_eq, ◌==◌, Bool-cases, Option-cases,
}
use marketplace_template.Json.{Json}
use marketplace_template.Messaging.Effects.{EffectStore, ack_row, mark_acked}
use marketplace_template.Messaging.Effects.Once.{Applied, apply_effect-ok}
use marketplace_template.Messaging.Consumer.{
  PlacedMessage, Fault, calm, refused, lost, Consumer, call_store, occurred_at_parameter,
  apply_message,
}

-- All but the store is the same.
pub record Frame (c d : Consumer) : Type 0 where
  pub settlements : d.settlements ≡ c.settlements
  pub rejected_count : d.rejected_count ≡ c.rejected_count
  pub is_running : d.is_running ≡ c.is_running

module _ {A : Type 0} (call : Action String EffectStore A) (c : Consumer) where
  pub call_store-Frame : (f : Fault) → Frame c (call_store f call c).1
  unfolding call_store
  call_store-Frame calm = record { settlements = refl; rejected_count = refl; is_running = refl }
  call_store-Frame (refused e) = record {
    settlements = refl;
    rejected_count = refl;
    is_running = refl;
  }
  call_store-Frame (lost e) = record {
    settlements = refl;
    rejected_count = refl;
    is_running = refl;
  }

  -- A call that returned was made, and returned this.
  pub call_store-ok :
      (f : Fault) (a : A) (d : Consumer)
      → call_store f call c ≡ (ok a, d)
      → call c.store ≡ (ok a, d.store)
  unfolding call_store
  call_store-ok calm a d h = elim (Result-cases (call c.store)) [
    | inl (b, s, e) ↦
        let h' = rw (call_store, e) at h in
        let value : b ≡ a = ground arith in
        let store = ap (λ p. p.1.store) h' in e ∙ (λ i. (ok (value i), store i))
    | inr (x, s, e) ↦ absurd (let h' = rw (call_store, e) at h in ground arith)
  ]
  call_store-ok (refused e) a d h = absurd (ground arith)
  call_store-ok (lost e) a d h = absurd (ground arith)

module _ (uuid_of : String → Option String) (timestamp_of : String → Option ℕ) where
  pub mark_acked-Applied :
      (now : ℕ) (event_id id : String) (store : EffectStore)
      → Applied id store
      → Applied id (mark_acked uuid_of timestamp_of now event_id store).1
  unfolding mark_acked
  mark_acked-Applied now event_id id store a = elim (Option-cases (uuid_of event_id)) [
    | inl bad ↦ rw (mark_acked, bad) a
    | inr (own, named) ↦ elim (Option-cases (lookup own store.tables.effects)) [
      | inl missing ↦ rw (mark_acked, named, missing) a
      | inr (row, there) ↦
          rw (mark_acked, named, there)
            (elim (Bool-cases (own == id)) [
              | inl same ↦ record {
                mark = a.mark;
                row = ack_row now row;
                effect = rw (lookup-put own id (ack_row now row) store.tables.effects, same) refl;
              }
              | inr other ↦ record {
                mark = a.mark;
                row = a.row;
                effect =
                    rw (lookup-put own id (ack_row now row) store.tables.effects, other) a.effect;
              }
            ])
    ]
  ]

  pub mark_acked-ok :
      (now : ℕ) (event_id id : String) (store : EffectStore)
      → uuid_of event_id ≡ some id
      → (mark_acked uuid_of timestamp_of now event_id store).0 ≡ ok tt
  unfolding mark_acked
  mark_acked-ok now event_id id store named = rw (mark_acked, named) refl

  pub apply_message-Applied :
      (as_parameter : Json → String) (m : PlacedMessage) (store after : EffectStore)
      (applied : Bool)
      → apply_message uuid_of timestamp_of as_parameter m store ≡ (ok applied, after)
      → (id : String) × (uuid_of m.event_id ≡ some id) × Applied id after
  unfolding apply_message
  apply_message-Applied as_parameter m store after applied h =
      elim (Option-cases (occurred_at_parameter uuid_of timestamp_of as_parameter m.occurred_at)) [
        | inl none_given ↦ absurd (let h' = rw (apply_message, none_given) at h in ground arith)
        | inr (t, given) ↦
            apply_effect-ok uuid_of timestamp_of _ store after applied
              (rw (apply_message, given) at h)
      ]
