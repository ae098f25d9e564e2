-- ===== src/Common/Retry/Tests.antt =====
-- The retry loop round an action that fails twice.
use marketplace_template.Prelude.{
  ℕ, ◌+◌, ◌-◌, ◌*◌, ◌^◌, ◌<◌, String, ◌≡◌, refl, Option, some, [], ◌∷◌, arith, ltb, if◌then◌else◌,
  ok, err, Action,
}
use marketplace_template.Common.Retry.{is_retryable, wait_ms, retry_from, with_retry}
use marketplace_template.Common.Retry.Settles.{
  sum, Settles, with_retry-Settles, with_retry-waits-lt,
}

-- A deadlock on the first two calls, counted in the state.
abbrev flaky : Action String ℕ ℕ
flaky n = if ltb n 2 then (err "40P01", n + 1) else (ok n, n)

abbrev own_code : String → Option String
own_code code = some code

flaky_waits : (with_retry own_code "unreachable" flaky 5 0).1.waits ≡ 10 ∷ 20 ∷ []
unfolding with_retry retry_from is_retryable wait_ms
flaky_waits = refl

with_retry-Settles_example :
    Settles own_code "unreachable" flaky 1 5 0 [] (with_retry own_code "unreachable" flaky 5 0)
with_retry-Settles_example = with_retry-Settles own_code "unreachable" flaky 5 0 (omega arith)

with_retry-waits-lt_example :
    sum (with_retry own_code "unreachable" flaky 5 0).1.waits < 10 * 2 ^ (5 - 1)
with_retry-waits-lt_example = with_retry-waits-lt own_code "unreachable" flaky 5 0 (omega arith)
