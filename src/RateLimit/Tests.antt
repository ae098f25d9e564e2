-- ===== src/RateLimit/Tests.antt =====
-- The limiter and its guard on concrete requests.
use marketplace_template.Prelude.{
  ℕ, false, ◌==◌, eq_iff, ◌+◌, ◌*◌, text_eq, String, ◌≡◌, ◌≢◌, ◌≤◌, refl, List, [], ◌∷◌, some, none,
  err, Option, lookup, put, arith, show_nat, show_digits, digit_text, length, max,
}
use marketplace_template.RateLimit.{
  RateLimitPolicy, Bucket, Call, Request, Exchange, no_bucket, in_window, alive, oldest,
  retry_after, sliding_window, bucket_of, consume, client_key, bucket_name, rate_limited,
  can_activate,
}
use marketplace_template.RateLimit.Window.{Arrival, admitted, within, admitted-within}
use marketplace_template.RateLimit.RetryAfter.{retry_after-honest}
use marketplace_template.RateLimit.Guard.{left_for, can_activate-err}

abbrev two_per_second : RateLimitPolicy
two_per_second = record { limit = 2; window_ms = 1000 }

abbrev burst : List Arrival
burst =
    record { at = 900; member = "a" }
    ∷ record { at = 1000; member = "b" }
    ∷ record { at = 1100; member = "c" }
    ∷ record { at = 1900; member = "d" }
    ∷ []

burst-admitted : admitted two_per_second burst no_bucket ≡ 900 ∷ 1000 ∷ 1900 ∷ []
unfolding admitted sliding_window in_window alive retry_after oldest lookup put
burst-admitted = refl

differ : (s t : String) → (s == t) ≡ false → s ≢ t
differ s t h e = ground (arith, (eq_iff s t).1 e, h)

admitted-within_example : within 950 1000 (admitted two_per_second burst no_bucket) ≤ 2
admitted-within_example = admitted-within two_per_second burst 950 (
  omega arith,
  (differ "a" "b" refl, (differ "a" "c" refl, (differ "a" "d" refl, tt))),
  (
    omega arith,
    (differ "b" "c" refl, (differ "b" "d" refl, tt)),
    (omega arith, (differ "c" "d" refl, tt), (omega arith, tt, tt)),
  ),
)

abbrev full_bucket : Bucket
full_bucket = record { entries = ("a", 900) ∷ ("b", 1000) ∷ []; expires_at = 2000 }

refused_at_1100 : sliding_window 1100 two_per_second "c" full_bucket ≡ ((0, 1), full_bucket)
unfolding sliding_window in_window alive retry_after oldest put
refused_at_1100 = refl

retry_after-honest_example :
    (1 ≤ 1)
    × ((later : ℕ) (other : String)
        → 1100 + 1000 * 1 ≤ later
        → (sliding_window later two_per_second other full_bucket).0.0 ≡ 1)
    × ((early : ℕ) (other : String)
        → early + 1000 ≤ 1100 + 1000 * 1
        → (sliding_window early two_per_second other full_bucket).0.0 ≡ 0)
retry_after-honest_example =
    retry_after-honest two_per_second 1100 1 "c" full_bucket full_bucket (omega arith) (omega arith)
      (omega arith, (omega arith, tt)) refused_at_1100

abbrev call : Call
call = record { member_at = 1099; random = "9f"; now = 1100; outage = none }

abbrev anonymous : Request
anonymous = record {
  class_name = "SessionsController";
  handler_name = "create";
  x_user_id = none;
  session_user_id = none;
  ip = "::1";
  original_url = "/sessions";
}

abbrev exchange : Exchange
exchange = record {
  redis = ("rl:SessionsController.create:ip:::1", full_bucket) ∷ [];
  headers = [];
}

abbrev refused_exchange : Exchange
refused_exchange = record {
  redis = ("rl:SessionsController.create:ip:::1", full_bucket) ∷ [];
  headers = ("Retry-After", "1") ∷ [];
}

refused_request :
    can_activate (some two_per_second) call anonymous exchange
    ≡ (err (rate_limited two_per_second anonymous), refused_exchange)
unfolding can_activate consume bucket_of bucket_name client_key sliding_window in_window alive
    retry_after oldest lookup put show_nat show_digits digit_text
refused_request = refl

can_activate-err_example :
    (p : RateLimitPolicy) × (let some_policy : Option RateLimitPolicy = some two_per_second in
      some_policy ≡ some p)
    × (call.outage ≡ none)
    × (p.limit ≤ length (left_for p call anonymous exchange))
    × (rate_limited two_per_second anonymous ≡ rate_limited p anonymous)
    × (lookup "Retry-After" refused_exchange.headers
        ≡ some (
            show_nat
              (max 1 (retry_after call.now p.window_ms (left_for p call anonymous exchange)))))
can_activate-err_example =
    can_activate-err (some two_per_second) call anonymous exchange refused_exchange
      (rate_limited two_per_second anonymous) refused_request
