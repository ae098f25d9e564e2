-- ===== src/RateLimit/RetryAfter.antt =====
-- What the limiter promises with `Retry-After`.
use marketplace_template.Prelude.{
  ℕ, ◌+◌, ◌*◌, ◌≤◌, ◌<◌, min, String, ◌≡◌, refl, sym, ap, subst, ◌∙◌, true, false, none, some, [],
  ◌∷◌, arith, ltb, leb, Option-cases, ◌⊎◌, inl, inr, Bool-cases, text_eq, length,
}
use marketplace_template.RateLimit.{
  RateLimitPolicy, Bucket, Scores, in_window, alive, oldest, retry_after, sliding_window,
}
use marketplace_template.RateLimit.Window.{Covered, Covered-kept, Covered-alive}

-- `Retry-After` as milliseconds covers the wait of the oldest entry, and is the least that does.
retry_after-covers :
    (now window_ms score : ℕ) (entries : Scores)
    → oldest entries ≡ some score
    → now < score + window_ms
    → (score + window_ms ≤ now + 1000 * retry_after now window_ms entries)
      × (now + 1000 * retry_after now window_ms entries < score + window_ms + 1000)
unfolding retry_after
retry_after-covers now w score entries first inside = rw (first) (ground arith, ground arith)

none-some : (score : ℕ) → ¬ (oldest [] ≡ some score)
unfolding oldest
none-some score h = ground arith

in_window-le :
    (now window_ms : ℕ) (entries : Scores)
    → length (in_window now window_ms entries) ≤ length entries
unfolding in_window
in_window-le now w [] = omega arith
in_window-le now w ((m, t) ∷ rest) = ground (arith, in_window-le now w rest)

oldest-cons :
    (m : String) (t : ℕ) (rest : Scores) (score : ℕ)
    → oldest ((m, t) ∷ rest) ≡ some score
    → ((oldest rest ≡ none) × (score ≡ t))
      ⊎ ((other : ℕ) × (oldest rest ≡ some other) × (score ≡ min t other))
unfolding oldest
oldest-cons m t rest score h = elim (Option-cases (oldest rest)) [
  | inl none_eq ↦ inl (none_eq, ground arith)
  | inr (other, some_eq) ↦ inr (other, some_eq, ground arith)
]

oldest-none : (entries : Scores) → oldest entries ≡ none → entries ≡ []
unfolding oldest
oldest-none [] h = refl
oldest-none ((m, t) ∷ rest) h =
    absurd (elim (Option-cases (oldest rest)) [ inl a ↦ ground arith | inr (b, a) ↦ ground arith ])

-- Every entry that the sweep leaves is in the window.
oldest-in_window :
    (now window_ms : ℕ) (entries : Scores) (score : ℕ)
    → oldest (in_window now window_ms entries) ≡ some score
    → now < score + window_ms
unfolding in_window
oldest-in_window now w [] score h = absurd (none-some score h)
oldest-in_window now w ((m, t) ∷ rest) score h =
    let shorter = oldest-in_window now w rest in
    elim (Bool-cases (leb (t + w) now)) [
      | inl past ↦ shorter score (rw past at h)
      | inr inside ↦
          let h' : oldest ((m, t) ∷ in_window now w rest) ≡ some score = rw inside at h in
          elim (oldest-cons m t (in_window now w rest) score h') [
            | inl (none_eq, same) ↦ ground arith
            | inr (other, some_eq, least) ↦
                let inner = shorter other some_eq in ground (arith, inner)
          ]
    ]

-- Once the oldest entry is past, the sweep removes at least one.
in_window-shorter :
    (now window_ms : ℕ) (entries : Scores) (score : ℕ)
    → oldest entries ≡ some score
    → score + window_ms ≤ now
    → length (in_window now window_ms entries) < length entries
unfolding in_window
in_window-shorter now w [] score h e = absurd (none-some score h)
in_window-shorter now w ((m, t) ∷ rest) score h e =
    let shorter = in_window-shorter now w rest in
    let most = in_window-le now w rest in
    elim (oldest-cons m t rest score h) [
      | inl (none_eq, same) ↦ ground (arith, most)
      | inr (other, some_eq, least) ↦
          let inner = shorter other some_eq in ground (arith, most, inner)
    ]

-- Until then it removes none.
in_window-same :
    (now window_ms : ℕ) (entries : Scores) (score : ℕ)
    → oldest entries ≡ some score
    → now < score + window_ms
    → in_window now window_ms entries ≡ entries
unfolding in_window
in_window-same now w [] score h e = refl
in_window-same now w ((m, t) ∷ rest) score h e =
    let shorter = in_window-same now w rest in
    elim (oldest-cons m t rest score h) [
      | inl (none_eq, same) ↦ rw (oldest-none rest none_eq) (ground arith)
      | inr (other, some_eq, least) ↦
          let inner = shorter other some_eq (omega arith) in ground (arith, inner)
    ]

oldest-Covered :
    (w expires_at : ℕ) (entries : Scores) (score : ℕ)
    → Covered w expires_at entries
    → oldest entries ≡ some score
    → score + w ≤ expires_at
oldest-Covered w expires_at [] score h first = absurd (none-some score first)
oldest-Covered w expires_at ((m, t) ∷ rest) score (h, hs) first =
    elim (oldest-cons m t rest score first) [
      | inl (none_eq, same) ↦ omega arith
      | inr (other, some_eq, least) ↦
          let inner = oldest-Covered w expires_at rest other hs some_eq in omega arith
    ]

-- The answer of the script when the sweep leaves `n` entries.
pub answer-room :
    (policy : RateLimitPolicy) (now : ℕ) (member : String) (bucket : Bucket)
    → length (in_window now policy.window_ms (alive now bucket)) < policy.limit
    → (sliding_window now policy member bucket).0.0 ≡ 1
unfolding sliding_window
answer-room policy now member bucket h =
    let room : ltb (length (in_window now policy.window_ms (alive now bucket))) policy.limit
        ≡ true =
      ground arith in
    rw room refl

pub answer-full :
    (policy : RateLimitPolicy) (now : ℕ) (member : String) (bucket : Bucket)
    → policy.limit ≤ length (in_window now policy.window_ms (alive now bucket))
    → sliding_window now policy member bucket ≡ (
      (0, retry_after now policy.window_ms (in_window now policy.window_ms (alive now bucket))),
      record {
        entries = in_window now policy.window_ms (alive now bucket);
        expires_at = bucket.expires_at;
      },
    )
unfolding sliding_window
answer-full policy now member bucket h =
    let full : ltb (length (in_window now policy.window_ms (alive now bucket))) policy.limit
        ≡ false =
      ground arith in
    rw full refl

alive-le : (now : ℕ) (bucket : Bucket) → length (alive now bucket) ≤ length bucket.entries
unfolding alive
alive-le now bucket = ground arith

alive-live :
    (now : ℕ) (bucket : Bucket) → now < bucket.expires_at → alive now bucket ≡ bucket.entries
unfolding alive
alive-live now bucket h = ground arith

alive-expired :
    (now : ℕ) (bucket : Bucket) → leb bucket.expires_at now ≡ true → alive now bucket ≡ []
unfolding alive
alive-expired now bucket h = rw h refl

-- The bucket a refusal leaves: full, its oldest entry in the window.
record Full (policy : RateLimitPolicy) (now r score : ℕ) (next : Bucket) : Type 0 where
  size : length next.entries ≡ policy.limit
  first : oldest next.entries ≡ some score
  inside : now < score + policy.window_ms
  covered : score + policy.window_ms ≤ next.expires_at
  told : r ≡ retry_after now policy.window_ms next.entries

module _ (policy : RateLimitPolicy) (now r : ℕ) where
  refused-Full :
      (member : String) (bucket next : Bucket)
      → 1 ≤ policy.limit
      → length bucket.entries ≤ policy.limit
      → Covered policy.window_ms bucket.expires_at bucket.entries
      → sliding_window now policy member bucket ≡ ((0, r), next)
      → (score : ℕ) × Full policy now r score next
  refused-Full member bucket next some_limit held covered refused =
      let w = policy.window_ms in
      let kept = in_window now w (alive now bucket) in
      let most = in_window-le now w (alive now bucket) in
      let awake = alive-le now bucket in
      let room = answer-room policy now member bucket in
      let answer = ap (λ p. p.0.0) refused in
      let full : policy.limit ≤ length kept = ground arith in
      let result = sym (answer-full policy now member bucket full) ∙ refused in
      let next_eq = ap (λ p. p.1) result in
      let told = ap (λ p. p.0.1) result in
      elim (Option-cases (oldest kept)) [
        | inl none_eq ↦ let size = ap length (oldest-none kept none_eq) in absurd (omega arith)
        | inr (score, first) ↦ (
          score,
          subst (Full policy now r score) next_eq (record {
            size = omega arith;
            first = first;
            inside = oldest-in_window now w (alive now bucket) score first;
            covered =
                oldest-Covered w bucket.expires_at kept score
                  (Covered-kept now w bucket.expires_at (alive now bucket)
                    (Covered-alive now w bucket covered))
                  first;
            told = sym told;
          }),
        )
      ]

  Full-wait :
      (score later : ℕ) (other : String) (next : Bucket)
      → 1 ≤ policy.limit
      → Full policy now r score next
      → now + 1000 * r ≤ later
      → (sliding_window later policy other next).0.0 ≡ 1
  Full-wait score later other next some_limit f after =
      let w = policy.window_ms in
      let (enough, least) = retry_after-covers now w score next.entries f.first f.inside in
      let told = f.told in
      let size = f.size in
      let past : score + w ≤ later = omega arith in
      let shorter = in_window-shorter later w next.entries score f.first past in
      answer-room policy later other next (elim (Bool-cases (leb next.expires_at later)) [
        | inl expired ↦
            let gone = ap length (alive-expired later next expired) in
            let most = in_window-le later w (alive later next) in omega arith
        | inr live ↦ rw (alive-live later next (ground arith)) (omega arith)
      ])

  Full-early :
      (score early : ℕ) (other : String) (next : Bucket)
      → Full policy now r score next
      → early + 1000 ≤ now + 1000 * r
      → (sliding_window early policy other next).0.0 ≡ 0
  Full-early score early other next f before =
      let w = policy.window_ms in
      let (enough, least) = retry_after-covers now w score next.entries f.first f.inside in
      let told = f.told in
      let size = f.size in
      let covered = f.covered in
      let inside : early < score + w = omega arith in
      let same = in_window-same early w next.entries score f.first inside in
      let whole : in_window early w (alive early next) ≡ next.entries =
        rw (alive-live early next (omega arith)) same in
      let count = ap length whole in
      ap (λ p. p.0.0) (answer-full policy early other next (omega arith))

  -- A request refused with `Retry-After: r`, in a bucket of no more entries than the limit whose
  -- key outlives them: `r` is at least 1; if no other request comes between, one that comes `r`
  -- seconds later or after that is let through, and one that comes a whole second earlier than
  -- that, or before, is refused.
  pub retry_after-honest :
      (member : String) (bucket next : Bucket)
      → 1 ≤ policy.limit
      → length bucket.entries ≤ policy.limit
      → Covered policy.window_ms bucket.expires_at bucket.entries
      → sliding_window now policy member bucket ≡ ((0, r), next)
      → (1 ≤ r)
        × ((later : ℕ) (other : String)
            → now + 1000 * r ≤ later
            → (sliding_window later policy other next).0.0 ≡ 1)
        × ((early : ℕ) (other : String)
            → early + 1000 ≤ now + 1000 * r
            → (sliding_window early policy other next).0.0 ≡ 0)
  retry_after-honest member bucket next some_limit held covered refused =
      let (score, f) = refused-Full member bucket next some_limit held covered refused in
      let (enough, least) =
        retry_after-covers now policy.window_ms score next.entries f.first f.inside in
      (
        let told = f.told in let inside = f.inside in omega (arith, enough),
        λ later other after. Full-wait score later other next some_limit f after,
        λ early other before. Full-early score early other next f before,
      )
