-- ===== src/RateLimit/Guard.antt =====
-- When the guard of rate-limit.guard.ts refuses a request.
use marketplace_template.Prelude.{
  ℕ, max, String, ◌≡◌, ◌≤◌, ◌<◌, refl, sym, ap, ◌∙◌, true, false, Option, none, some, List, [], ◌∷◌,
  ok, err, arith, length, ltb, Bool-cases, Option-cases, inl, inr, lookup, lookup-put_self,
  show_nat, ◌<>◌, text_eq,
}
use marketplace_template.RateLimit.RetryAfter.{answer-room, answer-full}
use marketplace_template.RateLimit.{
  RateLimitPolicy, LimitResponse, Call, Request, ProblemException, Exchange, bucket_of, bucket_name,
  in_window, alive, retry_after, consume, rate_limited, can_activate,
}

-- What the sweep leaves of the bucket of a request.
abbrev pub left_for : RateLimitPolicy → Call → Request → Exchange → List (String × ℕ)
left_for policy call req exchange =
    in_window call.now policy.window_ms
      (alive call.now (bucket_of ("rl:" <> bucket_name req) exchange.redis))

abbrev refusal : RateLimitPolicy → Call → Request → Exchange → LimitResponse
refusal p call req exchange = record {
  allowed = false;
  status = 429;
  headers =
      (
        "Retry-After",
        show_nat (max 1 (retry_after call.now p.window_ms (left_for p call req exchange))),
      )
      ∷ [];
}

module _ (p : RateLimitPolicy) (call : Call) (req : Request) (exchange : Exchange) where
  consume-outage :
      (message : String)
      → call.outage ≡ some message
      → (consume call (bucket_name req) p exchange.redis).0 ≡ err message
  unfolding consume
  consume-outage message h = rw h refl

  consume-room :
      call.outage ≡ none
      → length (left_for p call req exchange) < p.limit
      → (consume call (bucket_name req) p exchange.redis).0
        ≡ ok (record { allowed = true; status = 200; headers = [] })
  unfolding consume
  consume-room up room =
      let member = show_nat call.member_at <> "-" <> call.random in
      let answer =
        answer-room p call.now member (bucket_of ("rl:" <> bucket_name req) exchange.redis) room in
      rw (up, answer) refl

  consume-full :
      call.outage ≡ none
      → p.limit ≤ length (left_for p call req exchange)
      → (consume call (bucket_name req) p exchange.redis).0 ≡ ok (refusal p call req exchange)
  unfolding consume
  consume-full up full =
      let member = show_nat call.member_at <> "-" <> call.random in
      let answer =
        answer-full p call.now member (bucket_of ("rl:" <> bucket_name req) exchange.redis) full in
      rw (up, answer) refl

-- A request is refused only under a policy, with Redis in reach and the bucket full; the answer
-- is then the 429 problem of that policy, and `Retry-After` holds the wait, at least 1.
pub can_activate-err :
    (policy : Option RateLimitPolicy) (call : Call) (req : Request) (exchange after : Exchange)
    (problem : ProblemException)
    → can_activate policy call req exchange ≡ (err problem, after)
    → (p : RateLimitPolicy) × (policy ≡ some p)
      × (call.outage ≡ none)
      × (p.limit ≤ length (left_for p call req exchange))
      × (problem ≡ rate_limited p req)
      × (lookup "Retry-After" after.headers
          ≡ some
              (show_nat (max 1 (retry_after call.now p.window_ms (left_for p call req exchange)))))
unfolding can_activate
can_activate-err none call req exchange after problem h = absurd (ground arith)
can_activate-err (some p) call req exchange after problem h = elim (Option-cases call.outage) [
  | inr (message, down) ↦ absurd (
      let h' = rw (can_activate, consume-outage p call req exchange message down) at h in
      ground arith)
  | inl up ↦ elim (Bool-cases (ltb (length (left_for p call req exchange)) p.limit)) [
    | inl room ↦
        let answer = consume-room p call req exchange up (ground arith) in
        absurd (let h' = rw (can_activate, answer) at h in ground arith)
    | inr full ↦
        let most : p.limit ≤ length (left_for p call req exchange) = ground arith in
        let answer = consume-full p call req exchange up most in
        let h' = rw (can_activate, answer) at h in
        (
          p,
          refl,
          up,
          most,
          ground arith,
          ap (λ q. lookup "Retry-After" q.1.headers) (sym h')
              ∙ lookup-put_self "Retry-After"
                  (show_nat
                    (max 1 (retry_after call.now p.window_ms (left_for p call req exchange))))
                  exchange.headers,
        )
  ]
]
