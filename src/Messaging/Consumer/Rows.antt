-- ===== src/Messaging/Consumer/Rows.antt =====
-- What each call of the store does to the rows of the effects.
use marketplace_template.Prelude.{
  ℕ, String, ◌≡◌, refl, sym, ap, subst, ◌∙◌, ◌⊎◌, inl, inr, Option, none, some, arith, Table,
  lookup, put, lookup-put, text_eq, ◌==◌, eq_iff, Bool-cases, Option-cases,
}
use marketplace_template.Json.{Json}
use marketplace_template.Messaging.Effects.{
  EffectRow, EffectStore, apply_effect, ack_row, record_delivery, mark_acked, insert_processed,
}
use marketplace_template.Messaging.Effects.Once.{
  committed, insert_processed-some, insert_effect-idle, insert_effect-fresh,
}
use marketplace_template.Messaging.Consumer.{PlacedMessage, occurred_at_parameter, apply_message}

-- A later state of the row: the order and the time are kept, and so is the first acknowledgement.
pub record Stands (id : String) (row : EffectRow) (effects : Table String EffectRow) : Type 0 where
  pub now_row : EffectRow
  pub found : lookup id effects ≡ some now_row
  pub order_id : now_row.order_id ≡ row.order_id
  pub occurred_at : now_row.occurred_at ≡ row.occurred_at
  pub acked_at : (time : ℕ) → row.acked_at ≡ some time → now_row.acked_at ≡ some time

ack_row-keeps :
    (now : ℕ) (row : EffectRow)
    → ((ack_row now row).order_id ≡ row.order_id)
      × ((ack_row now row).occurred_at ≡ row.occurred_at)
      × ((time : ℕ) → row.acked_at ≡ some time → (ack_row now row).acked_at ≡ some time)
ack_row-keeps now row = elim (Option-cases row.acked_at) [
  | inl unacked ↦ rw (ack_row, unacked) (refl, refl, λ time h. absurd (ground arith))
  | inr (_, done) ↦ rw (ack_row, done) (refl, refl, λ time h. done ∙ h)
]

module _ (id : String) (row : EffectRow) (effects : Table String EffectRow)
    (s : Stands id row effects) where
  -- A row is inserted only for an id that has none.
  pub Stands-insert :
      (own : String) (new : EffectRow)
      → lookup own effects ≡ none
      → Stands id row (put own new effects)
  Stands-insert own new fresh = elim (Bool-cases (own == id)) [
    | inl same ↦
        let missing : lookup id effects ≡ none =
          subst (λ x. lookup x effects ≡ none) ((eq_iff own id).0 same) fresh in
        let clash = sym missing ∙ s.found in absurd (ground arith)
    | inr other ↦ record {
      now_row = s.now_row;
      found = rw (lookup-put own id new effects, other) s.found;
      order_id = s.order_id;
      occurred_at = s.occurred_at;
      acked_at = s.acked_at;
    }
  ]

  pub Stands-ack :
      (own : String) (now : ℕ) (old : EffectRow)
      → lookup own effects ≡ some old
      → Stands id row (put own (ack_row now old) effects)
  Stands-ack own now old there = elim (Bool-cases (own == id)) [
    | inl same ↦
        let found : lookup id effects ≡ some old =
          subst (λ x. lookup x effects ≡ some old) ((eq_iff own id).0 same) there in
        let both = sym s.found ∙ found in
        let one : s.now_row ≡ old = ground arith in
        let (order, time, acked) = ack_row-keeps now old in
        record {
          now_row = ack_row now old;
          found = rw (lookup-put own id (ack_row now old) effects, same) refl;
          order_id = order ∙ ap (λ (r : EffectRow). r.order_id) (sym one) ∙ s.order_id;
          occurred_at = time ∙ ap (λ (r : EffectRow). r.occurred_at) (sym one) ∙ s.occurred_at;
          acked_at = λ t h. acked t (ap (λ (r : EffectRow). r.acked_at) (sym one) ∙ s.acked_at t h);
        }
    | inr other ↦ record {
      now_row = s.now_row;
      found = rw (lookup-put own id (ack_row now old) effects, other) s.found;
      order_id = s.order_id;
      occurred_at = s.occurred_at;
      acked_at = s.acked_at;
    }
  ]

abbrev pub fresh_row : String → ℕ → EffectRow
fresh_row order_id occurred_at = record {
  order_id = order_id;
  occurred_at = occurred_at;
  acked_at = none;
}

committed-effects :
    (own order_id : String) (at : ℕ) (store : EffectStore)
    → ((committed own order_id at store).1.tables.effects ≡ store.tables.effects)
      ⊎ ((lookup own store.tables.effects ≡ none)
          × ((committed own order_id at store).1.tables.effects
              ≡ put own (fresh_row order_id at) store.tables.effects))
committed-effects own order_id at store =
    let t = insert_processed own store.tables in
    let (_, same, _) = insert_processed-some own store.tables in
    elim (Option-cases (lookup own t.effects)) [
      | inl fresh ↦ inr (
        ap (lookup own) (sym same) ∙ fresh,
        rw (insert_effect-fresh own order_id at t fresh)
            (ap (put own (fresh_row order_id at)) same),
      )
      | inr (old, there) ↦ inl (rw (insert_effect-idle own order_id at t there) same)
    ]

module _ (uuid_of : String → Option String) (timestamp_of : String → Option ℕ)
    (as_parameter : Json → String) where
  abbrev pub effects_of : EffectStore → Table String EffectRow
  effects_of store = store.tables.effects

  -- What a message inserts: the id and the time that the casts read in it.
  pub record Inserts (m : PlacedMessage) (own : String) (at : ℕ) : Type 0 where
    pub named : uuid_of m.event_id ≡ some own
    pub text_of : String
    pub given : occurred_at_parameter uuid_of timestamp_of as_parameter m.occurred_at ≡ some text_of
    pub dated : timestamp_of text_of ≡ some at

  pub apply_message-effects :
      (m : PlacedMessage) (store : EffectStore)
      → (effects_of (apply_message uuid_of timestamp_of as_parameter m store).1 ≡ effects_of store)
        ⊎ ((own : String) × (at : ℕ) × Inserts m own at
            × (lookup own (effects_of store) ≡ none)
            × (effects_of (apply_message uuid_of timestamp_of as_parameter m store).1
                ≡ put own (fresh_row m.order_id at) (effects_of store)))
  unfolding apply_message apply_effect
  apply_message-effects m store =
      elim (Option-cases (occurred_at_parameter uuid_of timestamp_of as_parameter m.occurred_at)) [
        | inl missing ↦ inl (rw (apply_message, missing) refl)
        | inr (t, given) ↦ elim (Option-cases (uuid_of m.event_id)) [
          | inl bad ↦ inl (rw (apply_message, given, apply_effect, bad) refl)
          | inr (own, named) ↦ elim (Option-cases (timestamp_of t)) [
            | inl bad ↦ inl (rw (apply_message, given, apply_effect, named, bad) refl)
            | inr (at, dated) ↦ elim (committed-effects own m.order_id at store) [
              | inl same ↦ inl (rw (apply_message, given, apply_effect, named, dated) same)
              | inr (fresh, put_there) ↦ inr (
                own,
                at,
                record { named = named; text_of = t; given = given; dated = dated },
                fresh,
                rw (apply_message, given, apply_effect, named, dated) put_there,
              )
            ]
          ]
        ]
      ]

  pub mark_acked-effects :
      (now : ℕ) (event_id : String) (store : EffectStore)
      → (effects_of (mark_acked uuid_of timestamp_of now event_id store).1 ≡ effects_of store)
        ⊎ ((own : String) × (old : EffectRow) × (lookup own (effects_of store) ≡ some old)
            × (effects_of (mark_acked uuid_of timestamp_of now event_id store).1
                ≡ put own (ack_row now old) (effects_of store)))
  unfolding mark_acked
  mark_acked-effects now event_id store = elim (Option-cases (uuid_of event_id)) [
    | inl bad ↦ inl (rw (mark_acked, bad) refl)
    | inr (own, named) ↦ elim (Option-cases (lookup own store.tables.effects)) [
      | inl missing ↦ inl (rw (mark_acked, named, missing) refl)
      | inr (old, there) ↦ inr (own, old, there, rw (mark_acked, named, there) refl)
    ]
  ]

  pub record_delivery-effects :
      (event_id : String) (store : EffectStore)
      → effects_of (record_delivery uuid_of timestamp_of event_id store).1 ≡ effects_of store
  unfolding record_delivery
  record_delivery-effects event_id store = elim (Option-cases (uuid_of event_id)) [
    | inl bad ↦ rw (record_delivery, bad) refl
    | inr (own, named) ↦ rw (record_delivery, named) refl
  ]
