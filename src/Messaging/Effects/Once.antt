-- ===== src/Messaging/Effects/Once.antt =====
-- What the transaction of an effect leaves, the first time and again.
use marketplace_template.Prelude.{
  ℕ, ◌+◌, String, Bool, ◌≡◌, refl, sym, ap, subst, ◌∙◌, inl, inr, true, false, Option, none, some,
  ok, if◌then◌else◌, lookup, lookup-put, put, text_eq, pair_eq, eq_iff, arith, Option-cases,
}
use marketplace_template.Messaging.Event.{OrderPlacedEvent}
use marketplace_template.Messaging.Effects.{
  EffectRow, EffectTables, EffectStore, order_placed_consumer, insert_processed, insert_effect,
  apply_effect,
}

pub insert_processed-some :
    (id : String) (t : EffectTables)
    → (lookup (id, order_placed_consumer) (insert_processed id t).processed ≡ some tt)
      × ((insert_processed id t).effects ≡ t.effects)
      × ((insert_processed id t).deliveries ≡ t.deliveries)
unfolding insert_processed
insert_processed-some id t = elim (Option-cases (lookup (id, order_placed_consumer) t.processed)) [
  | inl fresh ↦
      rw
        (
          insert_processed,
          fresh,
          lookup-put (id, order_placed_consumer) (id, order_placed_consumer) tt t.processed,
          (eq_iff id id).1 refl,
        )
        (refl, refl, refl)
  | inr (_, there) ↦ rw (insert_processed, there) (there, refl, refl)
]

insert_processed-idle :
    (id : String) (t : EffectTables) {u : Unit {0}}
    → lookup (id, order_placed_consumer) t.processed ≡ some u
    → insert_processed id t ≡ t
unfolding insert_processed
insert_processed-idle id t there = rw (insert_processed, there) refl

pub insert_effect-idle :
    (id order_id : String) (at : ℕ) (t : EffectTables) {row : EffectRow}
    → lookup id t.effects ≡ some row
    → insert_effect id order_id at t ≡ (false, t)
unfolding insert_effect
insert_effect-idle id order_id at t there = rw (insert_effect, there) refl

pub insert_effect-fresh :
    (id order_id : String) (at : ℕ) (t : EffectTables)
    → lookup id t.effects ≡ none
    → insert_effect id order_id at t ≡ (
      true,
      record t {
        effects =
            put id (record { order_id = order_id; occurred_at = at; acked_at = none }) t.effects;
      },
    )
unfolding insert_effect
insert_effect-fresh id order_id at t fresh = rw (insert_effect, fresh) refl

-- The store after a transaction that commits.
abbrev pub committed : String → String → ℕ → EffectStore → Bool × EffectStore
committed id order_id at store =
    let (applied, tables) = insert_effect id order_id at (insert_processed id store.tables) in
    (
      applied,
      record {
        tables = tables;
        successful_applies =
            if applied then store.successful_applies + 1 else store.successful_applies;
      },
    )

-- The id is marked and has its row.
pub record Applied (id : String) (store : EffectStore) : Type 0 where
  pub mark : lookup (id, order_placed_consumer) store.tables.processed ≡ some tt
  pub row : EffectRow
  pub effect : lookup id store.tables.effects ≡ some row

committed-Applied :
    (id order_id : String) (at : ℕ) (store : EffectStore)
    → Applied id (committed id order_id at store).1
committed-Applied id order_id at store =
    let (marked, same, _) = insert_processed-some id store.tables in
    let t = insert_processed id store.tables in
    elim (Option-cases (lookup id t.effects)) [
      | inl fresh ↦ rw (insert_effect-fresh id order_id at t fresh) (record {
        mark = marked;
        row = record { order_id = order_id; occurred_at = at; acked_at = none };
        effect =
            rw
              (
                lookup-put id id (record { order_id = order_id; occurred_at = at; acked_at = none })
                    t.effects,
                (eq_iff id id).1 refl,
              )
              refl;
      })
      | inr (row, there) ↦
          rw (insert_effect-idle id order_id at t there)
            (record { mark = marked; row = row; effect = there })
    ]

committed-again :
    (id order_id : String) (at : ℕ) (store : EffectStore)
    → Applied id store
    → committed id order_id at store ≡ (false, store)
committed-again id order_id at store a =
    rw
      (
        insert_processed-idle id store.tables a.mark,
        insert_effect-idle id order_id at store.tables a.effect,
      )
      refl

module _ (uuid_of : String → Option String) (timestamp_of : String → Option ℕ) where
  pub apply_effect-committed :
      (event : OrderPlacedEvent) (store : EffectStore) (id : String) (at : ℕ)
      → uuid_of event.event_id ≡ some id
      → timestamp_of event.occurred_at ≡ some at
      → apply_effect uuid_of timestamp_of event store
        ≡ (ok (committed id event.order_id at store).0, (committed id event.order_id at store).1)
  unfolding apply_effect
  apply_effect-committed event store id at named dated = rw (apply_effect, named, dated) refl

  pub apply_effect-ok :
      (event : OrderPlacedEvent) (store after : EffectStore) (applied : Bool)
      → apply_effect uuid_of timestamp_of event store ≡ (ok applied, after)
      → (id : String) × (uuid_of event.event_id ≡ some id) × Applied id after
  unfolding apply_effect
  apply_effect-ok event store after applied h = elim (Option-cases (uuid_of event.event_id)) [
    | inl bad ↦ absurd (let h' = rw (apply_effect, bad) at h in ground arith)
    | inr (id, named) ↦ elim (Option-cases (timestamp_of event.occurred_at)) [
      | inl bad ↦ absurd (let h' = rw (apply_effect, named, bad) at h in ground arith)
      | inr (at, dated) ↦
          let result = sym (apply_effect-committed event store id at named dated) ∙ h in
          (
            id,
            named,
            subst (Applied id) (ap (λ p. p.1) result)
                (committed-Applied id event.order_id at store),
          )
    ]
  ]

  -- The same event again, under any spelling of its id and with any other fields: it is no
  -- first delivery, and the store stays as it is.
  pub apply_effect-again :
      (event again : OrderPlacedEvent) (store after : EffectStore) (applied : Bool)
      (occurred_at : ℕ)
      → apply_effect uuid_of timestamp_of event store ≡ (ok applied, after)
      → uuid_of again.event_id ≡ uuid_of event.event_id
      → timestamp_of again.occurred_at ≡ some occurred_at
      → apply_effect uuid_of timestamp_of again after ≡ (ok false, after)
  apply_effect-again event again store after applied occurred_at first same dated =
      let (id, named, present) = apply_effect-ok event store after applied first in
      apply_effect-committed again after id occurred_at (same ∙ named) dated
      ∙ ap (λ (p : Bool × EffectStore). (ok p.0, p.1))
          (committed-again id again.order_id occurred_at after present)
