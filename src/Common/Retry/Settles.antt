-- ===== src/Common/Retry/Settles.antt =====
-- What the retry loop returns, and how long it waits.
use marketplace_template.Prelude.{
  ℕ, zero, suc, ◌+◌, ◌-◌, ◌*◌, ◌^◌, ◌≤◌, ◌<◌, String, ◌≡◌, ◌⊎◌, ap, ◌∙◌, inl, inr, Bool, true,
  false, Option, List, [], ◌∷◌, ◌++◌, arith, nat_beq, Bool-cases, Result, ok, err, Action,
  Result-cases,
}
use mathlib.Core.List.{append-nil, append_assoc}
use native.Mathlib.Nat.{add-zero, pow-le-pow_right}
use native.Mathlib.Numerals.{towards_suc}
use marketplace_template.Common.Retry.{is_retryable, Paced, wait_ms, retry_from, with_retry}

-- The waits before the attempts `attempt + 1`, …, `attempt + k`.
abbrev pub backoffs : ℕ → ℕ → List ℕ
backoffs attempt zero = []
backoffs attempt (suc k) = wait_ms attempt ∷ backoffs (attempt + 1) k

abbrev pub sum : List ℕ → ℕ
sum [] = 0
sum (x ∷ xs) = x + sum xs

wait_ms-suc : (a : ℕ) → wait_ms (a + 1) ≡ 10 * 2 ^ a
unfolding wait_ms
wait_ms-suc a = ap (λ (n : ℕ). 10 * 2 ^ n) (omega arith)

pow-add-one : (a : ℕ) → 2 ^ (a + 1) ≡ 2 * 2 ^ a
pow-add-one a = simp towards_suc (omega arith)

-- The first `k` waits add up to ten milliseconds short of the next one but one.
pub sum-backoffs : (a k : ℕ) → sum (backoffs (a + 1) k) + 10 * 2 ^ a ≡ 10 * 2 ^ (a + k)
sum-backoffs a zero = let e : 2 ^ (a + 0) ≡ 2 ^ a = rw add-zero in omega (arith, e)
sum-backoffs a (suc k) =
    let e : 2 ^ (a + 1 + k) ≡ 2 ^ (a + suc k) = ap (λ (n : ℕ). 2 ^ n) (omega arith) in
    omega (arith, sum-backoffs (a + 1) k, pow-add-one a, wait_ms-suc a, e)

module _ {E S A : Type 0} (read_code : E → Option String) (unreachable : E)
    (fn : Action E S A) where
  -- `Fails k s t`: from `s`, `k` calls in a row fail with a retryable code and leave `t`.
  pub data Fails : ℕ → S → S → Type 0 where
    here : {s : S} → Fails zero s s
    again :
        {k : ℕ} {s t u : S} (e : E)
        → fn s ≡ (err e, t)
        → is_retryable (read_code e) ≡ true
        → Fails k t u
        → Fails (suc k) s u

  -- The result that ends the loop: a success, an error of another kind, or the last attempt's.
  pub data Decides (last : Bool) : Result E A → Type 0 where
    success : (a : A) → Decides last (ok a)
    permanent : (e : E) → is_retryable (read_code e) ≡ false → Decides last (err e)
    exhausted : (e : E) → last ≡ true → Decides last (err e)

  -- From `attempt`, some `k` retries are made, and the call after them gives the result.
  pub record Settles (attempt limit : ℕ) (s : S) (waits : List ℕ) (r : Result E A × Paced S)
      : Type 0 where
    pub retries : ℕ
    pub final : S
    pub in_limit : attempt + retries ≤ limit
    pub failed : Fails retries s final
    pub decided : Decides (nat_beq (attempt + retries) limit) (fn final).0
    pub result :
        r
        ≡ ((fn final).0, record { inner = (fn final).1; waits = waits ++ backoffs attempt retries })

  Settles-now :
      (attempt limit : ℕ) (s : S) (waits : List ℕ) (r : Result E A × Paced S)
      → attempt ≤ limit
      → Decides (nat_beq (attempt + 0) limit) (fn s).0
      → r ≡ ((fn s).0, record { inner = (fn s).1; waits = waits })
      → Settles attempt limit s waits r
  Settles-now attempt limit s waits r h d e = record {
    retries = 0;
    final = s;
    in_limit = omega arith;
    failed = here;
    decided = d;
    result = rw append-nil e;
  }

  Settles-again :
      (attempt limit : ℕ) (s t : S) (waits : List ℕ) (r : Result E A × Paced S) (x : E)
      → fn s ≡ (err x, t)
      → is_retryable (read_code x) ≡ true
      → Settles (attempt + 1) limit t (waits ++ wait_ms attempt ∷ []) r
      → Settles attempt limit s waits r
  Settles-again attempt limit s t waits r x e hit later = record {
    retries = suc later.retries;
    final = later.final;
    in_limit = omega (arith, later.in_limit);
    failed = again x e hit later.failed;
    decided =
        let n : attempt + suc later.retries ≡ attempt + 1 + later.retries = omega arith in
        rw n later.decided;
    result = later.result ∙ simp append_assoc;
  }

  step_again :
      (left attempt limit : ℕ) (s t : S) (waits : List ℕ) (x : E)
      → fn s ≡ (err x, t)
      → is_retryable (read_code x) ≡ true
      → attempt < limit
      → retry_from read_code unreachable fn (suc left) attempt limit s waits
        ≡ retry_from read_code unreachable fn left
            (attempt + 1)
            limit
            t
            (waits ++ wait_ms attempt ∷ [])
  unfolding retry_from
  step_again left attempt limit s t waits x e hit h = ground arith

  step_stop :
      (left attempt limit : ℕ) (s t : S) (waits : List ℕ) (x : E)
      → fn s ≡ (err x, t)
      → (is_retryable (read_code x) ≡ false) ⊎ (limit ≤ attempt)
      → retry_from read_code unreachable fn (suc left) attempt limit s waits
        ≡ ((fn s).0, record { inner = (fn s).1; waits = waits })
  unfolding retry_from
  step_stop left attempt limit s t waits x e h = ground arith

  returned :
      (attempt limit : ℕ) (s t : S) (waits : List ℕ) (left : ℕ) (a : A)
      → fn s ≡ (ok a, t)
      → attempt ≤ limit
      → Settles attempt limit s waits
          (retry_from read_code unreachable fn (suc left) attempt limit s waits)
  unfolding retry_from
  returned attempt limit s t waits left a e h =
      Settles-now attempt limit s waits _ h (rw e (success a)) (ground arith)

  retry_from-Settles :
      (left attempt limit : ℕ) (s : S) (waits : List ℕ)
      → attempt + left ≡ limit
      → Settles attempt limit s waits
          (retry_from read_code unreachable fn (suc left) attempt limit s waits)
  retry_from-Settles zero attempt limit s waits h = elim (Result-cases (fn s)) [
    | inl (a, t, e) ↦ returned attempt limit s t waits zero a e (omega arith)
    | inr (x, t, e) ↦
        Settles-now attempt limit s waits _ (omega arith) (rw e (exhausted x (ground arith)))
          (step_stop zero attempt limit s t waits x e (inr (omega arith)))
  ]
  retry_from-Settles (suc left) attempt limit s waits h = elim (Result-cases (fn s)) [
    | inl (a, t, e) ↦ returned attempt limit s t waits (suc left) a e (omega arith)
    | inr (x, t, e) ↦ elim (Bool-cases (is_retryable (read_code x))) [
      | inl hit ↦ rw (step_again (suc left) attempt limit s t waits x e hit (omega arith)) (
          Settles-again attempt limit s t waits _ x e hit (
            retry_from-Settles left (attempt + 1) limit t (waits ++ wait_ms attempt ∷ [])
              (omega arith)))
      | inr miss ↦
          Settles-now attempt limit s waits _ (omega arith) (rw e (permanent x miss))
            (step_stop (suc left) attempt limit s t waits x e (inl miss))
    ]
  ]

  waits-bound :
      (limit : ℕ) (s : S) (r : Result E A × Paced S)
      → Settles 1 limit s [] r
      → sum r.1.waits < 10 * 2 ^ (limit - 1)
  waits-bound limit s r z =
      let n = z.retries in
      let e : sum r.1.waits ≡ sum (backoffs (0 + 1) n) =
        ap (λ (p : Result E A × Paced S). sum p.1.waits) z.result in
      let few : 2 ^ (0 + n) ≤ 2 ^ (limit - 1) =
        pow-le-pow_right {n = 2} (omega arith) (omega (arith, z.in_limit)) in
      omega (arith, sum-backoffs 0 n, e, few)

  -- With at least one attempt allowed, the loop makes some `k < max_attempts` retries, each after
  -- a failure with a retryable code and a wait of 10, 20, 40, … milliseconds. The next call
  -- succeeds, fails with another code, or is attempt number `max_attempts`, and its result and
  -- state are those of the loop.
  pub with_retry-Settles :
      (max_attempts : ℕ) (s : S)
      → 0 < max_attempts
      → Settles 1 max_attempts s [] (with_retry read_code unreachable fn max_attempts s)
  unfolding with_retry
  with_retry-Settles zero s h = absurd (omega arith)
  with_retry-Settles (suc n) s h = retry_from-Settles n 1 (suc n) s [] (omega arith)

  -- All the waits of one call together stay below ten milliseconds times two to the attempts
  -- allowed less one.
  pub with_retry-waits-lt :
      (max_attempts : ℕ) (s : S)
      → 0 < max_attempts
      → sum (with_retry read_code unreachable fn max_attempts s).1.waits
        < 10 * 2 ^ (max_attempts - 1)
  with_retry-waits-lt max_attempts s h =
      waits-bound max_attempts _ _ (with_retry-Settles max_attempts s h)
