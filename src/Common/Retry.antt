-- ===== src/Common/Retry.antt =====
-- src/common/with-retry.ts: the retry loop round a transaction. The callback is an action on any
-- state; its errors are of any type with a reading of their SQLSTATE. A wait is recorded as its
-- length in milliseconds, and no time passes otherwise.
pub mod Settles
pub mod Tests
use marketplace_template.Prelude.{
  ℕ, zero, suc, ◌+◌, ◌-◌, ◌*◌, ◌^◌, String, Bool, false, ◌&&◌, ◌||◌, Option, none, some, List, [],
  ◌∷◌, ◌++◌, ltb, ◌==◌, text_eq, if◌then◌else◌, Result, ok, err, Action,
}

-- `RETRYABLE`: serialization_failure and deadlock_detected.
unfoldable pub is_retryable : Option String → Bool
is_retryable none = false
is_retryable (some code) = code == "40001" || code == "40P01"

abbrev pub default_attempts : ℕ
default_attempts = 5

-- The state of the callback, with the waits made so far, the first one first.
pub record Paced (S : Type 0) : Type 0 where
  pub inner : S
  pub waits : List ℕ

unfoldable pub wait_ms : ℕ → ℕ
wait_ms attempt = 10 * 2 ^ (attempt - 1)

module _ {E S A : Type 0} (read_code : E → Option String) (unreachable : E)
    (fn : Action E S A) where
  -- The loop at `attempt` of `max_attempts`, with `left` rounds left.
  unfoldable pub retry_from : ℕ → ℕ → ℕ → S → List ℕ → Result E A × Paced S
  retry_from zero attempt max_attempts s waits =
      (err unreachable, record { inner = s; waits = waits })
  retry_from (suc left) attempt max_attempts s waits =
      let (r, t) = fn s in
      let again = retry_from left (attempt + 1) max_attempts t (waits ++ wait_ms attempt ∷ []) in
      elim r [
        | ok a ↦ (ok a, record { inner = t; waits = waits })
        | err e ↦
            if is_retryable (read_code e) && ltb attempt max_attempts
            then again
            else (err e, record { inner = t; waits = waits })
      ]

  unfoldable pub with_retry : ℕ → S → Result E A × Paced S
  unfolding retry_from
  with_retry max_attempts s = retry_from max_attempts 1 max_attempts s []
