-- ===== src/Orders/Cursor/RoundTrip.antt =====
-- The id of an event, sent back in `Last-Event-ID`, is read as that id.
use marketplace_template.Prelude.{
  ℕ, zero, suc, String, ◌≡◌, refl, inl, inr, true, none, some, leb, ◌==◌, text_eq, arith,
  if◌then◌else◌, Bool-cases, all_digits-show_nat, show_nat-Written, starts_zero-show_nat,
  decimal-show_nat, show_nat,
}
use marketplace_template.Orders.Cursor.{is_cursor, max_safe, parse_last_event_id}

is_cursor-show_nat : (n : ℕ) → is_cursor (show_nat n) ≡ true
unfolding is_cursor show_nat
is_cursor-show_nat zero = refl
is_cursor-show_nat (suc n) =
    let written = show_nat-Written (suc n) in
    let digits = all_digits-show_nat (suc n) in
    let first = starts_zero-show_nat (suc n) (omega arith) in
    elim (Bool-cases (show_nat (suc n) == "0")) [
      | inl e ↦ rw (is_cursor, e) refl
      | inr e ↦ rw (is_cursor, e, written, digits, first) refl
    ]

-- An id that was sent to a client and comes back in its `Last-Event-ID` header is the cursor, up
-- to the last safe integer; past it the header counts as none, and the stream starts from now.
pub parse_last_event_id-show_nat :
    (trim : String → String) (n : ℕ)
    → trim (show_nat n) ≡ show_nat n
    → parse_last_event_id trim (some (show_nat n)) ≡ (if leb n max_safe then some n else none)
unfolding parse_last_event_id
parse_last_event_id-show_nat trim n h =
    rw (parse_last_event_id, h, is_cursor-show_nat n, decimal-show_nat n) refl
