-- ===== src/RateLimit.antt =====
-- src/ratelimit: the sliding window of sliding-window-limiter.ts, its Lua script included, and the
-- guard of rate-limit.guard.ts.
-- A script runs alone in Redis, so it is one function. A sorted set is the list of its members
-- with their scores; a key that has expired is read as an empty one. Redis and the pods that send
-- `now` are taken to share a clock. Times and scores are milliseconds, so never negative.
pub mod Window
pub mod RetryAfter
pub mod Guard
pub mod Tests
use marketplace_template.Prelude.{
  ℕ, zero, suc, ◌+◌, ◌-◌, ◌*◌, ◌/◌, ◌%◌, min, max, String, Bool, true, false, not, Option, none,
  some, List, [], ◌∷◌, Result, ok, err, Action, ◌>>=◌, ◌>>◌, pure, throw, ltb, leb, nat_beq,
  if◌then◌else◌, length, keep, Table, lookup, put, ◌<>◌, show_nat, text_eq, ◌==◌,
}

pub record RateLimitPolicy : Type 0 where
  pub limit : ℕ
  pub window_ms : ℕ

pub record LimitResponse : Type 0 where
  pub allowed : Bool
  pub status : ℕ
  pub headers : List (String × String)

-- The sorted set of one bucket, by member, and the time its key expires.
pub record Bucket : Type 0 where
  pub entries : Table String ℕ
  pub expires_at : ℕ

abbrev pub no_bucket : Bucket
no_bucket = record { entries = []; expires_at = 0 }

abbrev pub Scores : Type 0
Scores = List (String × ℕ)

-- `ZREMRANGEBYSCORE key -inf (now - windowMs)`: a score at most `now - windowMs` goes.
unfoldable pub in_window : ℕ → ℕ → Scores → Scores
in_window now window_ms entries = keep (λ entry. not (leb (entry.1 + window_ms) now)) entries

unfoldable pub alive : ℕ → Bucket → Scores
alive now bucket = if leb bucket.expires_at now then [] else bucket.entries

-- `ZRANGE key 0 0 WITHSCORES`
unfoldable pub oldest : Scores → Option ℕ
oldest [] = none
oldest ((member, score) ∷ rest) = elim (oldest rest) [
  | none ↦ some score
  | some other ↦ some (min score other)
]

unfoldable pub retry_after : ℕ → ℕ → Scores → ℕ
retry_after now window_ms entries =
    let retry : ℕ = elim (oldest entries) [
      | none ↦ 1
      | some score ↦
          let wait_ms = score + window_ms - now in
          if ltb 0 wait_ms then (wait_ms + 999) / 1000 else 1
    ] in
    if ltb retry 1 then 1 else retry

-- SLIDING_WINDOW_LUA
unfoldable pub sliding_window : ℕ → RateLimitPolicy → String → Bucket → (ℕ × ℕ) × Bucket
sliding_window now policy member bucket =
    let window_ms = policy.window_ms in
    let kept = in_window now window_ms (alive now bucket) in
    if ltb (length kept) policy.limit
    then ((1, 0), record { entries = put member now kept; expires_at = now + window_ms })
    else (
      (0, retry_after now window_ms kept),
      record { entries = kept; expires_at = bucket.expires_at },
    )

-- What one call reads besides the store: the clock, twice, a random text, and whether Redis
-- answers.
pub record Call : Type 0 where
  pub member_at : ℕ
  pub random : String
  pub now : ℕ
  pub outage : Option String

abbrev pub Redis : Type 0
Redis = Table String Bucket

unfoldable pub bucket_of : String → Redis → Bucket
bucket_of key redis = elim (lookup key redis) [ none ↦ no_bucket | some bucket ↦ bucket ]

unfoldable pub consume : Call → String → RateLimitPolicy → Action String Redis LimitResponse
consume call bucket policy redis = elim call.outage [
  | some message ↦ (err message, redis)
  | none ↦
      let member = show_nat call.member_at <> "-" <> call.random in
      let key = "rl:" <> bucket in
      let (raw, after) = sliding_window call.now policy member (bucket_of key redis) in
      let redis' = put key after redis in
      if nat_beq raw.0 1
      then (ok (record { allowed = true; status = 200; headers = [] }), redis')
      else (
        ok (record {
          allowed = false;
          status = 429;
          headers = ("Retry-After", show_nat (max 1 raw.1)) ∷ [];
        }),
        redis',
      )
]

pub record Request : Type 0 where
  pub class_name : String
  pub handler_name : String
  pub x_user_id : Option String
  pub session_user_id : Option String
  pub ip : String
  pub original_url : String

-- `??` skips a missing header, not an empty one; an empty user id counts as none.
unfoldable pub client_key : Request → String
client_key req =
    let by_ip = "ip:" <> req.ip in
    let of_user : String → String = λ id. if id == "" then by_ip else "user:" <> id in
    elim req.x_user_id [
      | some id ↦ of_user id
      | none ↦ elim req.session_user_id [ some id ↦ of_user id | none ↦ by_ip ]
    ]

-- `${ms / 1000}`
unfoldable pub seconds_text : ℕ → String
seconds_text ms =
    let whole = show_nat (ms / 1000) in
    let tenth = show_nat (ms / 100 % 10) in
    let hundredth = show_nat (ms / 10 % 10) in
    if nat_beq (ms % 1000) 0
    then whole
    else if nat_beq (ms % 100) 0
    then whole <> "." <> tenth
    else if nat_beq (ms % 10) 0
    then whole <> "." <> tenth <> hundredth
    else whole <> "." <> tenth <> hundredth <> show_nat (ms % 10)

pub record ProblemException : Type 0 where
  pub status : ℕ
  pub type : String
  pub title : String
  pub detail : String
  pub instance_url : String

-- What the guard changes: the store, and the headers of the response.
pub record Exchange : Type 0 where
  pub redis : Redis
  pub headers : List (String × String)

unfoldable pub bucket_name : Request → String
bucket_name req = req.class_name <> "." <> req.handler_name <> ":" <> client_key req

unfoldable pub rate_limited : RateLimitPolicy → Request → ProblemException
rate_limited policy req = record {
  status = 429;
  type = "https://marketplace.local/problems/rate-limited";
  title = "Too many requests";
  detail =
      "Limit is "
      <> show_nat policy.limit
      <> " requests per "
      <> seconds_text policy.window_ms
      <> "s";
  instance_url = req.original_url;
}

abbrev set_headers : List (String × String) → List (String × String) → List (String × String)
set_headers [] headers = headers
set_headers ((name, value) ∷ more) headers = set_headers more (put name value headers)

-- Redis out of reach: the request passes.
unfoldable pub can_activate :
    Option RateLimitPolicy → Call → Request → Action ProblemException Exchange Bool
can_activate none call req exchange = (ok true, exchange)
can_activate (some policy) call req exchange =
    let (response, redis) = consume call (bucket_name req) policy exchange.redis in
    elim response [
      | err message ↦ (ok true, record { redis = redis; headers = exchange.headers })
      | ok limit ↦
          if limit.allowed
          then (ok true, record { redis = redis; headers = exchange.headers })
          else (
            err (rate_limited policy req),
            record { redis = redis; headers = set_headers limit.headers exchange.headers },
          )
    ]
