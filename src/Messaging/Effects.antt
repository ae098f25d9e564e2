-- ===== src/Messaging/Effects.antt =====
-- src/messaging/effect-store.ts, on the tables of AddOrderPlacedEffects and AddOutboxAndInbox:
-- order_placed_deliveries as the list of its event ids, processed_messages and
-- order_placed_effects by their primary keys. The casts `::uuid` and `::timestamptz` are
-- PostgreSQL's: parameters that return the value, or none for a text they refuse.
pub mod Once
pub mod Tests
use marketplace_template.Prelude.{
  ℕ, ◌+◌, ◌-◌, String, Bool, true, false, not, Option, none, some, List, [], ◌∷◌, ◌++◌, Result, ok,
  err, Action, ◌>>=◌, ◌>>◌, pure, throw, lift, gets, modify, if◌then◌else◌, length, keep, Table,
  lookup, put, values, text_eq, pair_eq,
}
use marketplace_template.Messaging.Event.{OrderPlacedEvent}

abbrev pub order_placed_consumer : String
order_placed_consumer = "order-placed"

pub record EffectRow : Type 0 where
  pub order_id : String
  pub occurred_at : ℕ
  pub acked_at : Option ℕ

pub record EffectTables : Type 0 where
  pub deliveries : List String
  pub processed : Table (String × String) (Unit {0})
  pub effects : Table String EffectRow

-- The store: the tables, which replicas share, and the counter of this process.
pub record EffectStore : Type 0 where
  pub tables : EffectTables
  pub successful_applies : ℕ

pub record EffectCounts : Type 0 where
  pub deliveries : ℕ
  pub effect : ℕ
  pub acked : ℕ
  pub skipped : ℕ

abbrev pub no_rows : EffectTables
no_rows = record { deliveries = []; processed = []; effects = [] }

abbrev pub reset_store : EffectStore
reset_store = record { tables = no_rows; successful_applies = 0 }

unfoldable pub reset : Action String EffectStore (Unit {0})
reset store = (ok tt, reset_store)

-- `INSERT INTO processed_messages … ON CONFLICT DO NOTHING`
unfoldable pub insert_processed : String → EffectTables → EffectTables
insert_processed id tables = elim (lookup (id, order_placed_consumer) tables.processed) [
  | some _ ↦ tables
  | none ↦ record tables { processed = put (id, order_placed_consumer) tt tables.processed }
]

-- `INSERT INTO order_placed_effects … ON CONFLICT DO NOTHING RETURNING event_id`: whether a
-- row came back.
unfoldable pub insert_effect : String → String → ℕ → EffectTables → Bool × EffectTables
insert_effect id order_id occurred_at tables = elim (lookup id tables.effects) [
  | some _ ↦ (false, tables)
  | none ↦ (
    true,
    record tables {
      effects =
          put id (record { order_id = order_id; occurred_at = occurred_at; acked_at = none })
            tables.effects;
    },
  )
]

abbrev pub ack_row : ℕ → EffectRow → EffectRow
ack_row now row = elim row.acked_at [ none ↦ record row { acked_at = some now } | some _ ↦ row ]

module _ (uuid_of : String → Option String) (timestamp_of : String → Option ℕ) where
  unfoldable pub record_delivery : String → Action String EffectStore (Unit {0})
  record_delivery event_id store = elim (uuid_of event_id) [
    | none ↦ (err "22P02", store)
    | some id ↦ (
      ok tt,
      record store {
        tables = record store.tables { deliveries = store.tables.deliveries ++ id ∷ [] };
      },
    )
  ]

  -- The transaction; it writes nothing unless both inserts run.
  unfoldable pub apply_effect : OrderPlacedEvent → Action String EffectStore Bool
  apply_effect event store = elim (uuid_of event.event_id) [
    | none ↦ (err "22P02", store)
    | some id ↦
        let marked = insert_processed id store.tables in
        elim (timestamp_of event.occurred_at) [
          | none ↦ (err "22007", store)
          | some occurred_at ↦
              let (applied, tables) = insert_effect id event.order_id occurred_at marked in
              (
                ok applied,
                record {
                  tables = tables;
                  successful_applies =
                      if applied then store.successful_applies + 1 else store.successful_applies;
                },
              )
        ]
  ]

  -- `now` is the transaction's clock.
  unfoldable pub mark_acked : ℕ → String → Action String EffectStore (Unit {0})
  mark_acked now event_id store = elim (uuid_of event_id) [
    | none ↦ (err "22P02", store)
    | some id ↦ (
      ok tt,
      elim (lookup id store.tables.effects) [
        | none ↦ store
        | some row ↦ record store {
          tables = record store.tables { effects = put id (ack_row now row) store.tables.effects };
        }
      ],
    )
  ]

unfoldable pub is_acked : EffectRow → Bool
is_acked row = elim row.acked_at [ none ↦ false | some _ ↦ true ]

unfoldable pub counts : EffectStore → EffectCounts
counts store =
    let deliveries = length store.tables.deliveries in
    let effect = length store.tables.effects in
    record {
      deliveries = deliveries;
      effect = effect;
      acked = length (keep is_acked (values store.tables.effects));
      skipped = deliveries - effect;
    }
