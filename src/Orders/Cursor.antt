-- ===== src/Orders/Cursor.antt =====
-- src/orders/order-events.controller.ts, `parseLastEventId`: the cursor that a stream resumes from.
pub mod RoundTrip
use Prim.Native.Nat.{◌-◌}
use Prim.Native.Char.{code}
use marketplace_template.Prelude.{
  ℕ, zero, suc, ◌+◌, ◌*◌, String, Bool, true, false, not, ◌&&◌, ◌||◌, Option, none, some, leb, ◌==◌,
  text_eq, if◌then◌else◌, all_digits, decimal, starts_zero,
}

-- `Number.MAX_SAFE_INTEGER`
abbrev pub max_safe : ℕ
max_safe = 9007199254740991

-- `/^(0|[1-9]\d*)$/`
unfoldable pub is_cursor : String → Bool
is_cursor s = s == "0" || not (s == "") && not (starts_zero s) && all_digits s

module _ (trim : String → String) where
  -- A double past the last safe integer stays past it when it is rounded.
  unfoldable pub parse_last_event_id : Option String → Option ℕ
  unfolding is_cursor
  parse_last_event_id none = some 0
  parse_last_event_id (some header) =
      let value = trim header in
      if is_cursor value
      then if leb (decimal value) max_safe then some (decimal value) else none
      else none
