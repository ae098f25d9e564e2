-- ===== src/RateLimit/Window.antt =====
-- How many requests the limiter lets through in any window of time.
use marketplace_template.Prelude.{
  ℕ, ◌+◌, ◌≤◌, ◌<◌, String, ◌≡◌, ◌≢◌, refl, ◌&&◌, none, List, [], ◌∷◌, arith, ltb, leb, nat_beq,
  if◌then◌else◌, eq_iff, inl, inr, Bool-cases, text_eq, length, keep, All, lookup, put, lookup-put,
}
use marketplace_template.RateLimit.{
  RateLimitPolicy, Bucket, Scores, no_bucket, in_window, alive, sliding_window,
}

pub record Arrival : Type 0 where
  pub at : ℕ
  pub member : String

-- The times at which the script lets a request through, for one bucket.
unfoldable pub admitted : RateLimitPolicy → List Arrival → Bucket → List ℕ
admitted policy [] bucket = []
admitted policy (a ∷ more) bucket =
    let (raw, bucket') = sliding_window a.at policy a.member bucket in
    let rest = admitted policy more bucket' in if nat_beq raw.0 1 then a.at ∷ rest else rest

-- Time does not run back, and no two requests have the same member.
abbrev pub Arrivals : ℕ → List Arrival → Type 0
Arrivals last [] = Unit {0}
Arrivals last (a ∷ more) =
    (last ≤ a.at) × All (λ (b : Arrival). a.member ≢ b.member) more × Arrivals a.at more

abbrev pub within : ℕ → ℕ → List ℕ → ℕ
within start window_ms times = length (keep (λ t. leb start t && ltb t (start + window_ms)) times)

abbrev at_least : ℕ → Scores → ℕ
at_least start entries = length (keep (λ entry. leb start entry.1) entries)

-- The key outlives its entries.
abbrev pub Covered : ℕ → ℕ → Scores → Type 0
Covered window_ms expires_at = All (λ entry. entry.1 + window_ms ≤ expires_at)

at_least-length : (start : ℕ) (entries : Scores) → at_least start entries ≤ length entries
at_least-length start [] = omega arith
at_least-length start ((m, t) ∷ rest) = ground (arith, at_least-length start rest)

at_least-put :
    (start now : ℕ) (member : String) (entries : Scores)
    → lookup member entries ≡ none
    → at_least start (put member now entries)
      ≡ at_least start entries + (if leb start now then 1 else 0)
unfolding lookup put
at_least-put start now member [] h = ground arith
at_least-put start now member ((m, t) ∷ rest) h =
    let shorter = at_least-put start now member rest in ground (arith, shorter)

at_least-in_window :
    (start now window_ms : ℕ) (entries : Scores)
    → now < start + window_ms
    → at_least start (in_window now window_ms entries) ≡ at_least start entries
unfolding in_window
at_least-in_window start now window_ms [] h = refl
at_least-in_window start now window_ms ((m, t) ∷ rest) h =
    ground (arith, at_least-in_window start now window_ms rest h)

at_least-expired :
    (start window_ms expires_at : ℕ) (entries : Scores)
    → Covered window_ms expires_at entries
    → expires_at < start + window_ms
    → at_least start entries ≡ 0
at_least-expired start window_ms expires_at [] h e = refl
at_least-expired start window_ms expires_at ((m, t) ∷ rest) (h, hs) e =
    ground (arith, at_least-expired start window_ms expires_at rest hs e)

at_least-alive :
    (start now window_ms : ℕ) (bucket : Bucket)
    → Covered window_ms bucket.expires_at bucket.entries
    → now < start + window_ms
    → at_least start (alive now bucket) ≡ at_least start bucket.entries
unfolding alive
at_least-alive start now window_ms bucket h e =
    let expired = at_least-expired start window_ms bucket.expires_at bucket.entries h in
    ground (arith, expired)

pub Covered-kept :
    (now window_ms expires_at : ℕ) (entries : Scores)
    → Covered window_ms expires_at entries
    → Covered window_ms expires_at (in_window now window_ms entries)
unfolding in_window
Covered-kept now window_ms expires_at [] h = tt
Covered-kept now window_ms expires_at ((m, t) ∷ rest) (h, hs) =
    let tail = Covered-kept now window_ms expires_at rest hs in ground (arith, h, tail)

Covered-put :
    (member : String) (now window_ms expires_at : ℕ) (entries : Scores)
    → now + window_ms ≤ expires_at
    → Covered window_ms expires_at entries
    → Covered window_ms expires_at (put member now entries)
unfolding put
Covered-put member now window_ms expires_at [] p h = (p, tt)
Covered-put member now window_ms expires_at ((m, t) ∷ rest) p (h, hs) =
    let tail = Covered-put member now window_ms expires_at rest p hs in
    ground (arith, h, hs, p, tail)

Covered-weaken :
    (window_ms early late : ℕ) (entries : Scores)
    → early ≤ late
    → Covered window_ms early entries
    → Covered window_ms late entries
Covered-weaken window_ms early late [] e h = tt
Covered-weaken window_ms early late ((m, t) ∷ rest) e (h, hs) =
    (omega arith, Covered-weaken window_ms early late rest e hs)

absent-in_window :
    (member : String) (now window_ms : ℕ) (entries : Scores)
    → lookup member entries ≡ none
    → lookup member (in_window now window_ms entries) ≡ none
unfolding in_window lookup
absent-in_window member now window_ms [] h = refl
absent-in_window member now window_ms ((m, t) ∷ rest) h =
    let shorter = absent-in_window member now window_ms rest in ground (arith, shorter)

absent-alive :
    (member : String) (now : ℕ) (bucket : Bucket)
    → lookup member bucket.entries ≡ none
    → lookup member (alive now bucket) ≡ none
unfolding alive lookup
absent-alive member now bucket h = ground arith

pub Covered-alive :
    (now window_ms : ℕ) (bucket : Bucket)
    → Covered window_ms bucket.expires_at bucket.entries
    → Covered window_ms bucket.expires_at (alive now bucket)
unfolding alive
Covered-alive now window_ms bucket h = ground (arith, h)

All-absent :
    (now window_ms : ℕ) (bucket : Bucket) (more : List Arrival)
    → All (λ a. lookup a.member bucket.entries ≡ none) more
    → All (λ a. lookup a.member (in_window now window_ms (alive now bucket)) ≡ none) more
All-absent now window_ms bucket [] h = tt
All-absent now window_ms bucket (a ∷ more) (h, hs) = (
  absent-in_window a.member now window_ms (alive now bucket) (absent-alive a.member now bucket h),
  All-absent now window_ms bucket more hs,
)

All-absent_put :
    (member : String) (now : ℕ) (entries : Scores) (more : List Arrival)
    → All (λ b. member ≢ b.member) more
    → All (λ a. lookup a.member entries ≡ none) more
    → All (λ a. lookup a.member (put member now entries) ≡ none) more
All-absent_put member now entries [] d h = tt
All-absent_put member now entries (a ∷ more) (d, ds) (h, hs) = (
  ground (arith, lookup-put member a.member now entries, eq_iff member a.member, h, d),
  All-absent_put member now entries more ds hs,
)

-- What the log `times` has of a window that starts at `start`, against the bucket: `used` of it
-- are let through.
record Keeps (start : ℕ) (policy : RateLimitPolicy) (used last : ℕ) (bucket : Bucket) : Type 0 where
  in_budget : used ≤ policy.limit
  held : last < start + policy.window_ms → used ≤ at_least start bucket.entries
  covered : Covered policy.window_ms bucket.expires_at bucket.entries
  recent : bucket.expires_at ≤ last + policy.window_ms

abbrev one_if : ℕ → ℕ → ℕ → ℕ
one_if start window_ms t = if leb start t && ltb t (start + window_ms) then 1 else 0

module _ (start : ℕ) (policy : RateLimitPolicy) (used last : ℕ) (bucket : Bucket) where
  Keeps-admit :
      (now : ℕ) (member : String)
      → Keeps start policy used last bucket
      → last ≤ now
      → lookup member (in_window now policy.window_ms (alive now bucket)) ≡ none
      → length (in_window now policy.window_ms (alive now bucket)) < policy.limit
      → Keeps start policy (used + one_if start policy.window_ms now) now (record {
        entries = put member now (in_window now policy.window_ms (alive now bucket));
        expires_at = now + policy.window_ms;
      })
  Keeps-admit now member k later fresh room =
      let w = policy.window_ms in
      let kept = in_window now w (alive now bucket) in
      let grown = at_least-put start now member kept fresh in
      let swept = at_least-in_window start now w (alive now bucket) in
      let awake = at_least-alive start now w bucket k.covered in
      let small = at_least-length start kept in
      let held = k.held in
      let budget = k.in_budget in
      let recent = k.recent in
      record {
        in_budget = ground arith;
        held = λ near. ground arith;
        covered = Covered-put member now w (now + w) kept (omega arith) (
            Covered-weaken w bucket.expires_at (now + w) kept (omega arith) (
              Covered-kept now w bucket.expires_at (alive now bucket)
                (Covered-alive now w bucket k.covered)));
        recent = omega arith;
      }

  Keeps-deny :
      (now : ℕ)
      → Keeps start policy used last bucket
      → last ≤ now
      → Keeps start policy used now (record {
        entries = in_window now policy.window_ms (alive now bucket);
        expires_at = bucket.expires_at;
      })
  Keeps-deny now k later =
      let w = policy.window_ms in
      let swept = at_least-in_window start now w (alive now bucket) in
      let awake = at_least-alive start now w bucket k.covered in
      let held = k.held in
      let recent = k.recent in
      record {
        in_budget = k.in_budget;
        held = λ near. ground arith;
        covered =
            Covered-kept now w bucket.expires_at (alive now bucket)
              (Covered-alive now w bucket k.covered);
        recent = omega arith;
      }

within-cons :
    (start w t : ℕ) (times : List ℕ)
    → within start w (t ∷ times)
      ≡ (if leb start t && ltb t (start + w) then 1 else 0) + within start w times
within-cons start w t times = ground arith

admitted-within_from :
    (start : ℕ) (policy : RateLimitPolicy) (arrivals : List Arrival) (used last : ℕ)
    (bucket : Bucket)
    → Keeps start policy used last bucket
    → Arrivals last arrivals
    → All (λ a. lookup a.member bucket.entries ≡ none) arrivals
    → used + within start policy.window_ms (admitted policy arrivals bucket) ≤ policy.limit
unfolding admitted sliding_window
admitted-within_from start policy [] used last bucket k order fresh =
    let budget = k.in_budget in omega arith
admitted-within_from start policy (a ∷ more) used last bucket k (later, distinct, order) (f, fs) =
    let w = policy.window_ms in
    let kept = in_window a.at w (alive a.at bucket) in
    let fresh =
      absent-in_window a.member a.at w (alive a.at bucket) (absent-alive a.member a.at bucket f) in
    let absent = All-absent a.at w bucket more fs in
    elim (Bool-cases (ltb (length kept) policy.limit)) [
      | inl room ↦
          let next : Bucket = record { entries = put a.member a.at kept; expires_at = a.at + w } in
          let rest =
            admitted-within_from start policy more (used + one_if start w a.at) a.at next
              (Keeps-admit start policy used last bucket a.at a.member k later fresh (ground arith))
              order (All-absent_put a.member a.at kept more distinct absent) in
          rw room (omega (arith, rest, within-cons start w a.at (admitted policy more next)))
      | inr full ↦
          let next : Bucket = record { entries = kept; expires_at = bucket.expires_at } in
          rw full (
            admitted-within_from start policy more used a.at next
              (Keeps-deny start policy used last bucket a.at k later) order absent)
    ]

-- In no stretch of `windowMs` milliseconds, wherever it starts, are more than `limit` requests of
-- a bucket let through, in whatever pattern they arrive, the clock not running back and no two
-- requests having the same member.
pub admitted-within :
    (policy : RateLimitPolicy) (arrivals : List Arrival) (start : ℕ)
    → Arrivals 0 arrivals
    → within start policy.window_ms (admitted policy arrivals no_bucket) ≤ policy.limit
unfolding lookup
admitted-within policy arrivals start order =
    let used_none =
      admitted-within_from start policy arrivals 0 0 no_bucket
        (record {
          in_budget = omega arith;
          held = λ near. omega arith;
          covered = tt;
          recent = omega arith;
        })
        order (go arrivals) in
    omega (arith, used_none)
  where
    go : (all : List Arrival) → All (λ a. lookup a.member no_bucket.entries ≡ none) all
    go [] = tt
    go (a ∷ all) = (refl, go all)
