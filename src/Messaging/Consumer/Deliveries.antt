-- ===== src/Messaging/Consumer/Deliveries.antt =====
-- Any deliveries: redeliveries, other spellings, poison, malformed bodies, failing calls and
-- crashes, to any number of processes on one database. One message is handled to its end before
-- the next one.
use marketplace_template.Prelude.{
  ℕ, String, Bool, ◌≡◌, refl, Option, some, List, [], ◌∷◌, lookup, text_eq,
}
use marketplace_template.Json.{Json}
use marketplace_template.Messaging.Effects.{EffectRow, EffectTables}
use marketplace_template.Messaging.Consumer.{Content, Attempt, Consumer, handle_message}
use marketplace_template.Messaging.Consumer.Rows.{Stands, Stands-insert, Stands-ack, fresh_row}
use marketplace_template.Messaging.Consumer.Keeps.{handle_message-Keeps}

-- One message at one process; its counters and settlements are its own, the tables are shared.
pub record Delivery : Type 0 where
  pub process : Consumer
  pub crash_before_ack : Bool
  pub attempt : Attempt
  pub content : Content

module _ (uuid_of : String → Option String) (timestamp_of : String → Option ℕ)
    (as_parameter : Json → String) where
  abbrev pub deliver : Delivery → EffectTables → EffectTables
  deliver d tables =
      let process = record d.process { store = record d.process.store { tables = tables } } in
      (handle_message uuid_of timestamp_of as_parameter d.crash_before_ack d.attempt d.content
        process).store.tables

  abbrev pub deliver_all : List Delivery → EffectTables → EffectTables
  deliver_all [] tables = tables
  deliver_all (d ∷ ds) tables = deliver_all ds (deliver d tables)

  module _ (id : String) where
    deliver-Stands :
        (row : EffectRow) (d : Delivery) (tables : EffectTables)
        → Stands id row tables.effects
        → Stands id row (deliver d tables).effects
    deliver-Stands row d tables s =
        handle_message-Keeps (Stands id row) uuid_of timestamp_of as_parameter
          (λ own now old effects there h. Stands-ack id row effects h own now old there)
          d.crash_before_ack d.attempt d.content
          (λ m own at effects _ _ _ fresh h.
            Stands-insert id row effects h own (fresh_row m.order_id at) fresh)
          (record d.process { store = record d.process.store { tables = tables } }) s

    pub deliver_all-Stands :
        (row : EffectRow) (ds : List Delivery) (tables : EffectTables)
        → Stands id row tables.effects
        → Stands id row (deliver_all ds tables).effects
    deliver_all-Stands row [] tables s = s
    deliver_all-Stands row (d ∷ ds) tables s =
        deliver_all-Stands row ds (deliver d tables) (deliver-Stands row d tables s)

    -- A row that is there stays, with its order, its time and its first acknowledgement, through
    -- any deliveries, with whatever failures and crashes.
    pub deliver_all-keeps :
        (row : EffectRow) (ds : List Delivery) (tables : EffectTables)
        → lookup id tables.effects ≡ some row
        → Stands id row (deliver_all ds tables).effects
    deliver_all-keeps row ds tables there = deliver_all-Stands row ds tables (record {
      now_row = row;
      found = there;
      order_id = refl;
      occurred_at = refl;
      acked_at = λ time h. h;
    })
