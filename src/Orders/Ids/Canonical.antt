-- ===== src/Orders/Ids/Canonical.antt =====
-- One order has one canonical id, however a client spells it.
use marketplace_template.Prelude.{
  ℕ, ◌↔◌, if◌then◌else◌, String, ◌≡◌, refl, sym, ap, ◌∙◌, true, inl, inr, some, arith, text_eq,
  ◌<>◌, Bool-cases, Option-cases, show_nat, all_digits-show_nat, show_nat-Written, strip_prefix,
  strip_prefix-some, strip_prefix-append,
}
use marketplace_template.Orders.Ids.{is_number, order_number, canonical_order_id, to_db_order_id}

pub is_number-show_nat : (n : ℕ) → is_number (show_nat n) ≡ true
unfolding is_number
is_number-show_nat n = rw (show_nat-Written n, all_digits-show_nat n)

order_number-prefix : (d : String) → is_number d ≡ true → order_number ("order-" <> d) ≡ some d
unfolding order_number
order_number-prefix d h = rw (order_number, strip_prefix-append "order-" d, h)

order_number-some :
    (id d : String) → order_number id ≡ some d → (id ≡ "order-" <> d) × (is_number d ≡ true)
unfolding order_number
order_number-some id d h = elim (Option-cases (strip_prefix "order-" id)) [
  | inl e ↦ ground arith
  | inr (r, e) ↦
      let whole = strip_prefix-some "order-" id r e in
      let both : (r ≡ d) × (is_number r ≡ true) = ground arith in
      (whole ∙ ap (λ t. "order-" <> t) both.0, ap is_number (sym both.0) ∙ both.1)
]

canonical-number :
    (id d : String) → order_number id ≡ some d → canonical_order_id id ≡ "order-" <> d
unfolding canonical_order_id
canonical-number id d h = rw (canonical_order_id, h)

pub canonical_db_id :
    (d : String) → is_number d ≡ true → canonical_order_id ("order-" <> d) ≡ "order-" <> d
canonical_db_id d h = canonical-number ("order-" <> d) d (order_number-prefix d h)

-- An id under which an order of the database is found has the order's own id as canonical id.
pub canonical-db_id :
    (id : String) (n : ℕ)
    → to_db_order_id id ≡ show_nat n
    → canonical_order_id id ≡ "order-" <> show_nat n
unfolding canonical_order_id to_db_order_id
canonical-db_id id n h = elim (Option-cases (order_number id)) [
  | inr (d, e) ↦
      let same : d ≡ show_nat n = ground arith in
      canonical-number id d e ∙ ap (λ t. "order-" <> t) same
  | inl e ↦
      let same : id ≡ show_nat n = ground arith in
      let digits = ap is_number same ∙ is_number-show_nat n in
      rw (canonical_order_id, e, digits) (ap (λ t. "order-" <> t) same)
]

to_db-prefix : (d : String) → is_number d ≡ true → to_db_order_id ("order-" <> d) ≡ d
unfolding to_db_order_id
to_db-prefix d h = rw (to_db_order_id, order_number-prefix d h)

canonical_order_id-stable :
    (id : String)
    → (canonical_order_id (canonical_order_id id) ≡ canonical_order_id id)
      × (to_db_order_id (canonical_order_id id) ≡ to_db_order_id id)
unfolding canonical_order_id to_db_order_id
canonical_order_id-stable id = elim (Option-cases (order_number id)) [
  | inr (d, e) ↦
      let whole = canonical-number id d e in
      let number = (order_number-some id d e).1 in
      rw whole (canonical_db_id d number, to_db-prefix d number ∙ sym (rw (to_db_order_id, e)))
  | inl e ↦ elim (Bool-cases (is_number id)) [
    | inl number ↦
        let whole : canonical_order_id id ≡ "order-" <> id = rw (canonical_order_id, e, number) in
        rw whole (canonical_db_id id number, to_db-prefix id number ∙ sym (rw (to_db_order_id, e)))
    | inr word ↦
        let whole : canonical_order_id id ≡ id = rw (canonical_order_id, e, word) in
        (ap canonical_order_id whole, ap to_db_order_id whole)
  ]
]

-- The canonical id, from the id of the database.
canonical_order_id-db :
    (id : String)
    → canonical_order_id id
      ≡ (if is_number (to_db_order_id id) then "order-" <> to_db_order_id id else to_db_order_id id)
unfolding canonical_order_id to_db_order_id
canonical_order_id-db id = elim (Option-cases (order_number id)) [
  | inr (d, e) ↦
      let number = (order_number-some id d e).1 in
      let db : to_db_order_id id ≡ d = rw (to_db_order_id, e) refl in
      canonical-number id d e ∙ sym (rw (db, number) refl)
  | inl e ↦
      let db : to_db_order_id id ≡ id = rw (to_db_order_id, e) refl in
      rw (canonical_order_id, e, db) refl
]

-- Two spellings have one canonical id, and so one stream of events and one room, exactly if they
-- name one order of the database.
pub canonical_order_id_iff :
    (a b : String)
    → (canonical_order_id a ≡ canonical_order_id b) ↔ (to_db_order_id a ≡ to_db_order_id b)
canonical_order_id_iff a b = (
  λ h. sym (canonical_order_id-stable a).1 ∙ ap to_db_order_id h ∙ (canonical_order_id-stable b).1,
  λ h.
      canonical_order_id-db a
      ∙ ap (λ d. if is_number d then "order-" <> d else d) h
      ∙ sym (canonical_order_id-db b),
)
