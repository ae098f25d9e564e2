-- ===== src/Messaging/Consumer/FirstWrite.antt =====
-- Which message the row of an effect is made of.
use marketplace_template.Prelude.{
  ℕ, String, ◌≡◌, refl, sym, ap, subst, ◌∙◌, ◌⊎◌, inl, inr, false, Option, none, some, List, [],
  ◌∷◌, ◌++◌, ok, arith, Table, lookup, put, lookup-put, text_eq, ◌==◌, eq_iff, Bool-cases,
}
use marketplace_template.Json.{Json}
use marketplace_template.Messaging.Effects.{EffectRow, EffectTables, ack_row}
use marketplace_template.Messaging.Consumer.{Content, PlacedMessage, parse_event}
use marketplace_template.Messaging.Consumer.Rows.{
  Stands, Stands-insert, Stands-ack, Inserts, fresh_row,
}
use marketplace_template.Messaging.Consumer.Keeps.{handle_message-Keeps}
use marketplace_template.Messaging.Consumer.Accepts.{Accepted, handle_message-HasRow}
use marketplace_template.Messaging.Consumer.Deliveries.{
  Delivery, deliver, deliver_all, deliver_all-Stands,
}

module _ (uuid_of : String → Option String) (timestamp_of : String → Option ℕ)
    (as_parameter : Json → String) where
  abbrev run : Delivery → EffectTables → EffectTables
  run = deliver uuid_of timestamp_of as_parameter

  abbrev run_all : List Delivery → EffectTables → EffectTables
  run_all = deliver_all uuid_of timestamp_of as_parameter

  module _ (id : String) where
    -- The row was made of a message, which the casts take and which is not poison.
    pub record MadeOf (content : Content) (row : EffectRow) : Type 0 where
      pub message : PlacedMessage
      pub read : parse_event content ≡ ok message
      pub sound : message.poison ≡ false
      pub order_id : row.order_id ≡ message.order_id
      pub inserts : Inserts uuid_of timestamp_of as_parameter message id row.occurred_at

    -- No row yet, or one of this message.
    abbrev Started : Content → Table String EffectRow → Type 0
    Started content effects =
        (lookup id effects ≡ none)
        ⊎ ((row : EffectRow) × MadeOf content row × Stands id row effects)

    Started-ack :
        (content : Content) (own : String) (now : ℕ) (old : EffectRow)
        (effects : Table String EffectRow)
        → lookup own effects ≡ some old
        → Started content effects
        → Started content (put own (ack_row now old) effects)
    Started-ack content own now old effects there (inr (row, made, s)) =
        inr (row, made, Stands-ack id row effects s own now old there)
    Started-ack content own now old effects there (inl missing) = elim (Bool-cases (own == id)) [
      | inl same ↦
          let clash : none ≡ some old =
            sym missing ∙ subst (λ x. lookup x effects ≡ some old) ((eq_iff own id).0 same) there in
          absurd (ground arith)
      | inr other ↦ inl (rw (lookup-put own id (ack_row now old) effects, other) missing)
    ]

    Started-insert :
        (content : Content) (m : PlacedMessage) (own : String) (at : ℕ)
        (effects : Table String EffectRow)
        → parse_event content ≡ ok m
        → m.poison ≡ false
        → Inserts uuid_of timestamp_of as_parameter m own at
        → lookup own effects ≡ none
        → Started content effects
        → Started content (put own (fresh_row m.order_id at) effects)
    Started-insert content m own at effects read sound i fresh (inr (row, made, s)) =
        inr (row, made, Stands-insert id row effects s own (fresh_row m.order_id at) fresh)
    Started-insert content m own at effects read sound i fresh (inl missing) =
        let row = fresh_row m.order_id at in
        elim (Bool-cases (own == id)) [
          | inl same ↦
              let its = (eq_iff own id).0 same in
              inr (
                row,
                record {
                  message = m;
                  read = read;
                  sound = sound;
                  order_id = refl;
                  inserts = subst (λ x. Inserts uuid_of timestamp_of as_parameter m x at) its i;
                },
                record {
                  now_row = row;
                  found = rw (lookup-put own id row effects, same) refl;
                  order_id = refl;
                  occurred_at = refl;
                  acked_at = λ t h. h;
                },
              )
          | inr other ↦ inl (rw (lookup-put own id row effects, other) missing)
        ]

    deliver-Started :
        (d : Delivery) (tables : EffectTables)
        → lookup id tables.effects ≡ none
        → Started d.content (run d tables).effects
    deliver-Started d tables missing =
        handle_message-Keeps (Started d.content) uuid_of timestamp_of as_parameter
          (Started-ack d.content) d.crash_before_ack d.attempt d.content (Started-insert d.content)
          (record d.process { store = record d.process.store { tables = tables } }) (inl missing)

    -- The delivery that made the row: before it there was none, and after it there was one.
    pub record FirstOf (ds : List Delivery) (tables : EffectTables) (row : EffectRow) : Type 0 where
      pub before : List Delivery
      pub first : Delivery
      pub later : List Delivery
      pub all : ds ≡ before ++ first ∷ later
      pub none_before : lookup id (run_all before tables).effects ≡ none
      pub written : EffectRow
      pub some_after : lookup id (run first (run_all before tables)).effects ≡ some written
      pub made : MadeOf first.content row

    -- None of the deliveries is a sound one whose writes reached the database.
    abbrev pub NoneAccepted : List Delivery → Type 0
    NoneAccepted [] = Unit
    NoneAccepted (d ∷ ds) =
        (¬ Accepted uuid_of timestamp_of as_parameter id d.crash_before_ack d.attempt d.content)
        × NoneAccepted ds

    -- A delivery that leaves no row is not such a one.
    deliver-none :
        (d : Delivery) (tables : EffectTables)
        → lookup id (run d tables).effects ≡ none
        → ¬ Accepted uuid_of timestamp_of as_parameter id d.crash_before_ack d.attempt d.content
    deliver-none d tables missing a =
        let (row, there) =
          handle_message-HasRow uuid_of timestamp_of as_parameter id d.crash_before_ack d.attempt
            d.content a (record d.process { store = record d.process.store { tables = tables } }) in
        let clash : none ≡ some row = sym missing ∙ there in absurd (ground arith)

    -- From tables without a row for an id, after any deliveries, with whatever failures and
    -- crashes, either there still is none, and no sound message for the id had its record and its
    -- effect reach the database, or the row has the order and the time of the first message that
    -- made one, which is not poison; no later message has changed them.
    pub deliver_all-FirstOf :
        (ds : List Delivery) (tables : EffectTables)
        → lookup id tables.effects ≡ none
        → ((lookup id (run_all ds tables).effects ≡ none) × NoneAccepted ds)
          ⊎ ((row : EffectRow) × (lookup id (run_all ds tables).effects ≡ some row)
              × FirstOf ds tables row)
    deliver_all-FirstOf [] tables missing = inl (missing, tt)
    deliver_all-FirstOf (d ∷ ds) tables missing = elim (deliver-Started d tables missing) [
      | inl still ↦ elim (deliver_all-FirstOf ds (run d tables) still) [
        | inl (never, refused) ↦ inl (never, (deliver-none d tables still, refused))
        | inr (row, found, f) ↦ inr (
          row,
          found,
          record {
            before = d ∷ f.before;
            first = f.first;
            later = f.later;
            all = ap (λ xs. d ∷ xs) f.all;
            none_before = f.none_before;
            written = f.written;
            some_after = f.some_after;
            made = f.made;
          },
        )
      ]
      | inr (row, made, s) ↦
          let t = deliver_all-Stands uuid_of timestamp_of as_parameter id row ds (run d tables) s in
          inr (
            t.now_row,
            t.found,
            record {
              before = [];
              first = d;
              later = ds;
              all = refl;
              none_before = missing;
              written = s.now_row;
              some_after = s.found;
              made = record {
                message = made.message;
                read = made.read;
                sound = made.sound;
                order_id = t.order_id ∙ made.order_id;
                inserts =
                    subst (Inserts uuid_of timestamp_of as_parameter made.message id)
                      (sym t.occurred_at) made.inserts;
              };
            },
          )
    ]
