-- ===== src/Json.antt =====
-- JSON values as `JSON.parse` returns them, and the `typeof` tests that the program makes on them.
use marketplace_template.Prelude.{
  ℕ, String, Bool, true, false, Option, none, some, ◌==◌, text_eq, nat_beq, not, if◌then◌else◌,
}

-- Numbers are the non-negative integers, the only ones that the program writes.
mutual
  pub data Json : Type 0 where
    null : Json
    bool : Bool → Json
    num : ℕ → Json
    text : String → Json
    array : Items → Json
    object : Fields → Json

  pub data Items : Type 0 where
    nil : Items
    cons : Json → Items → Items

  pub data Fields : Type 0 where
    end : Fields
    field : String → Json → Fields → Fields

-- `value.key`, and `none` for `undefined`; of two equal keys the last one counts.
unfoldable pub find_field : String → Fields → Option Json
find_field key end = none
find_field key (field k v rest) = elim (find_field key rest) [
  | some w ↦ some w
  | none ↦ if k == key then some v else none
]

unfoldable pub property : String → Json → Option Json
unfolding find_field
property key (object fields) = find_field key fields
property key null = none
property key (bool b) = none
property key (num n) = none
property key (text s) = none
property key (array xs) = none

-- `typeof value === 'string'`, with the string.
unfoldable pub as_text : Option Json → Option String
as_text (some (text s)) = some s
as_text _ = none

-- `if (value)`.
unfoldable pub is_truthy : Option Json → Bool
is_truthy none = false
is_truthy (some null) = false
is_truthy (some (bool b)) = b
is_truthy (some (num n)) = not (nat_beq n 0)
is_truthy (some (text s)) = not (s == "")
is_truthy (some (array xs)) = true
is_truthy (some (object fields)) = true
