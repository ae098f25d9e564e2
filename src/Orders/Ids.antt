-- ===== src/Orders/Ids.antt =====
-- src/orders/orders.service.ts: the spellings of an order id. A client writes `order-7` or `7`.
pub mod Canonical
use marketplace_template.Prelude.{
  String, Bool, not, ◌&&◌, Option, none, some, ◌==◌, text_eq, if◌then◌else◌, ◌<>◌, all_digits,
  strip_prefix,
}

-- `/^\d+$/`
unfoldable pub is_number : String → Bool
is_number s = not (s == "") && all_digits s

-- `/^order-(\d+)$/.exec(id)?.[1]`
unfoldable pub order_number : String → Option String
unfolding is_number
order_number id = elim (strip_prefix "order-" id) [
  | none ↦ none
  | some digits ↦ if is_number digits then some digits else none
]

unfoldable pub canonical_order_id : String → String
unfolding order_number is_number
canonical_order_id id = elim (order_number id) [
  | some digits ↦ "order-" <> digits
  | none ↦ if is_number id then "order-" <> id else id
]

unfoldable pub to_db_order_id : String → String
unfolding order_number
to_db_order_id id = elim (order_number id) [ some digits ↦ digits | none ↦ id ]
