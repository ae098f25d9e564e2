-- ===== src/Messaging/Transient.antt =====
-- `isTransientConsumerError` of src/messaging/order-placed.consumer.ts, with `readPgCode` of
-- src/common/with-retry.ts. The objects that an error leads to are a heap: `driverError` and
-- `cause` are references into it, and may lead in circles. What is no object, or no `Error` with a
-- message, is none.
pub mod Search
pub mod Correct
pub mod Tests
use marketplace_template.Prelude.{
  ℕ, zero, suc, ◌+◌, String, Bool, true, false, ◌&&◌, ◌||◌, Option, none, some, List, [], ◌∷◌,
  text_length, contains_folded, leb, ltb, nat_beq, ◌==◌, text_eq, nat_eq, if◌then◌else◌, length,
  Table, lookup, strip_prefix, is_some,
}

pub record ErrorObject : Type 0 where
  pub code : Option String
  pub message : Option String
  pub driver_error : Option ℕ
  pub cause : Option ℕ

abbrev pub Heap : Type 0
Heap = Table ℕ ErrorObject

abbrev pub object_at : Heap → Option ℕ → Option ErrorObject
object_at heap none = none
object_at heap (some ref) = lookup ref heap

abbrev code_at : Option ErrorObject → Option String
code_at none = none
code_at (some object) = object.code

-- `readPgCode` of an object.
unfoldable pub read_pg_code : Heap → ErrorObject → Option String
read_pg_code heap object = elim object.code [
  | some own ↦ some own
  | none ↦ code_at (object_at heap object.driver_error)
]

abbrev pub contains : List String → String → Bool
contains [] s = false
contains (t ∷ ts) s = s == t || contains ts s

abbrev pub transient_node : List String
transient_node =
    "EAI_AGAIN" ∷ "ECONNABORTED" ∷ "ECONNREFUSED" ∷ "ECONNRESET" ∷ "EHOSTUNREACH" ∷ "ENETDOWN"
    ∷ "ENETUNREACH" ∷ "ENOTFOUND" ∷ "EPIPE" ∷ "ETIMEDOUT" ∷ []

abbrev pub starts_with : String → String → Bool
starts_with p s = is_some (strip_prefix p s)

unfoldable pub is_transient_code : String → Bool
is_transient_code code =
    contains transient_node code
    || code == "55P03"
    || (nat_beq (text_length code) 5
        && (starts_with "08" code
            || starts_with "40" code
            || starts_with "53" code
            || starts_with "57" code))

-- TRANSIENT_MESSAGE
unfoldable pub is_transient_message : String → Bool
is_transient_message message =
    contains_folded "connection terminated" message
    || contains_folded "not queryable" message
    || contains_folded "could not connect to server" message
    || contains_folded "the database system is starting up" message
    || contains_folded "the database system is shutting down" message
    || contains_folded "sorry, too many clients already" message

abbrev test_some : (String → Bool) → Option String → Bool
test_some p none = false
test_some p (some s) = p s

-- What `visit` tests of one object.
unfoldable pub is_transient_object : Heap → ErrorObject → Bool
is_transient_object heap object =
    test_some is_transient_code (read_pg_code heap object)
    || test_some is_transient_message object.message

abbrev pub has_ref : List ℕ → ℕ → Bool
has_ref [] ref = false
has_ref (r ∷ refs) ref = r == ref || has_ref refs ref

module _ (heap : Heap) where
  -- `visit`: the answer, and what `seen` holds after. Each call that goes on adds an object of
  -- the heap to `seen`, so one more call than there are objects is enough depth.
  unfoldable pub visit : ℕ → List ℕ → Option ℕ → Bool × List ℕ
  visit zero seen current = (false, seen)
  visit (suc depth) seen none = (false, seen)
  visit (suc depth) seen (some ref) = elim (lookup ref heap) [
    | none ↦ (false, seen)
    | some object ↦
        let (driver, seen_driver) = visit depth (ref ∷ seen) object.driver_error in
        let (caused, seen_cause) = visit depth seen_driver object.cause in
        if has_ref seen ref
        then (false, seen)
        else if is_transient_object heap object
        then (true, ref ∷ seen)
        else if driver
        then (true, seen_driver)
        else (caused, seen_cause)
  ]

  unfoldable pub is_transient_consumer_error : Option ℕ → Bool
  is_transient_consumer_error err = (visit (length heap + 1) [] err).0
