-- ===== src/Catalog/Wait.antt =====
-- The wait for the card of another request.
use marketplace_template.Prelude.{
  ℕ, zero, suc, ◌+◌, ◌*◌, ◌≤◌, ◌<◌, inl, inr, String, ◌≡◌, refl, sym, ap, subst, ◌∙◌, Bool, true,
  false, Option, none, some, arith, text_eq, leb, Option-cases, lookup, Result, ok, err, pure,
  ◌>>=◌,
}
use marketplace_template.Catalog.{
  ProductCard, Cache, RedisValue, Turn, World, Cards, seen, live, call, get, read_entry, payload_of,
  read_cache, set_card, write_cache, load, card_of, found_card, load_and_write, rebuild, wait_for,
  rebuild_locked, rebuild_or_wait, get_card, timed_out, wait_polls, wait_poll_ms, set_lock, unlock,
  product_card_key, product_card_lock_key, cache_ttl_seconds, lock_ttl_ms,
}
use marketplace_template.Catalog.Lock.{call-calm, missing}

module _ (bigint_of : String → Option String) (env : ℕ → Turn) (product_id : String) where
  -- What a client sees that only waits: one turn later.
  abbrev pub later : World → World
  later w = record { cache = seen bigint_of env w; time = suc w.time }

  -- None of these polls finds an entry.
  abbrev pub Missed : ℕ → World → Type 0
  Missed zero w = Unit
  Missed (suc polls) w =
      (read_entry (live (env w.time).now (product_card_key product_id) (seen bigint_of env w).cards)
        ≡ none)
      × Missed polls (later w)

  module _ (id : String) (named : bigint_of product_id ≡ some id)
      (calm : (n : ℕ) → (env n).fault ≡ none) where
    read_cache-calm :
        (w : World)
        → read_cache bigint_of env (product_card_key product_id) w ≡ (
          ok (
              read_entry
                (live (env w.time).now (product_card_key product_id) (seen bigint_of env w).cards)),
          later w,
        )
    unfolding read_cache
    read_cache-calm w =
        rw
          (call-calm bigint_of env (get bigint_of env (product_card_key product_id)) w
            (calm w.time))
          refl

    wait_for-err :
        (polls : ℕ) (w w' : World) (e : String)
        → wait_for bigint_of env product_id polls w ≡ (err e, w')
        → (e ≡ timed_out product_id) × Missed polls w × (w'.time ≡ w.time + polls)
    unfolding wait_for
    wait_for-err zero w w' e h = (
      ground arith,
      tt,
      ap (λ (p : Result String (Option ProductCard) × World). p.1.time) (sym h) ∙ omega arith,
    )
    wait_for-err (suc polls) w w' e h =
        let h' = rw (wait_for, read_cache-calm w) at h in
        elim (Option-cases (
          read_entry
            (live (env w.time).now (product_card_key product_id) (seen bigint_of env w).cards))) [
              | inr (card, k) ↦ absurd (let h'' = rw k at h' in ground arith)
              | inl k ↦
                  let h'' = rw k at h' in
                  let (same, missed, time) = wait_for-err polls (later w) w' e h'' in
                  (same, (k, missed), time ∙ omega arith)
            ]

    -- A part that never throws.
    abbrev Returns : {A : Type 0} → Cards A → Type 0
    Returns {A} m = (w : World) → (a : A) × (v : World) × (m w ≡ (ok a, v))

    Returns-bind :
        {A B : Type 0} (m : Cards A) (f : A → Cards B)
        → Returns m
        → ((a : A) → Returns (f a))
        → Returns (m >>= f)
    Returns-bind m f hm hf w = let (a, v, e) = hm w in let (b, u, k) = hf a v in (b, u, rw e k)

    call-Returns :
        {A : Type 0} (command : ℕ → Cache → A × Cache) → Returns (call bigint_of env command)
    call-Returns command w = (_, _, call-calm bigint_of env command w (calm w.time))

    load-Returns : Returns (load bigint_of env product_id)
    unfolding load found_card
    load-Returns w = (card_of (env w.time).db id, later w, rw (load, calm w.time, named) refl)

    write_cache-Returns :
        (random : ℕ) (card : Option ProductCard)
        → Returns (write_cache bigint_of env random (product_card_key product_id) card)
    unfolding write_cache
    write_cache-Returns random card w =
        let (u, v, e) =
          call-Returns
            (set_card bigint_of env (product_card_key product_id) (payload_of card)
              (cache_ttl_seconds random))
            w in
        (u, v, rw e refl)

    load_and_write-Returns : (random : ℕ) → Returns (load_and_write bigint_of env random product_id)
    unfolding load_and_write
    load_and_write-Returns random =
        Returns-bind (load bigint_of env product_id) _ load-Returns (λ card.
          Returns-bind (write_cache bigint_of env random (product_card_key product_id) card) _
            (write_cache-Returns random card) (λ u w. (card, w, refl)))

    next_Returns :
        (m : Cards (Option ProductCard)) (found : Option (Option ProductCard))
        → Returns m
        → Returns (elim found [ some card ↦ pure card | none ↦ m ])
    next_Returns m none h = h
    next_Returns m (some card) h = λ w. (card, w, refl)

    rebuild_locked-Returns :
        (token : String) (random : ℕ)
        → Returns (rebuild_locked bigint_of env token random product_id)
    unfolding rebuild_locked rebuild
    rebuild_locked-Returns token random w =
        let (card, v, e) =
          Returns-bind (read_cache bigint_of env (product_card_key product_id)) _
            (λ u. (_, _, read_cache-calm u))
            (λ again.
              next_Returns (load_and_write bigint_of env random product_id) again
                (load_and_write-Returns random))
            w in
        let (u, x, k) =
          call-Returns (λ now. unlock now (product_card_lock_key product_id) token) v in
        (card, x, rw (e, k) refl)

    clock :
        (start : ℕ)
        → ((n : ℕ) → start ≤ n → (env n).now + wait_poll_ms ≤ (env (suc n)).now)
        → (k : ℕ) → (env start).now + k * wait_poll_ms ≤ (env (start + k)).now
    clock start ticks zero =
        subst (λ n. (env start).now + 0 * wait_poll_ms ≤ (env n).now) {x = start} {y = start + 0}
          (omega arith) (omega arith)
    clock start ticks (suc k) =
        let before = clock start ticks k in
        let tick = ticks (start + k) (omega arith) in
        subst (λ n. (env start).now + suc k * wait_poll_ms ≤ (env n).now) {x = suc (start + k)}
          {y = start + suc k} (omega arith) (omega arith)

    expired :
        (w : World)
        → ((n : ℕ) → w.time < n → (env n).now + wait_poll_ms ≤ (env (suc n)).now)
        → ((entry : RedisValue String)
            → lookup (product_card_lock_key product_id) (seen bigint_of env (later w)).locks
              ≡ some entry
            → entry.expires_at ≤ (env (suc w.time)).now + lock_ttl_ms)
        → live
            (env (suc w.time + wait_polls)).now
            (product_card_lock_key product_id)
            (seen bigint_of env (later w)).locks
          ≡ none
    unfolding live
    expired w ticks bounded =
        let key = product_card_lock_key product_id in
        let last = (env (suc w.time + wait_polls)).now in
        elim (Option-cases (lookup key (seen bigint_of env (later w)).locks)) [
          | inl e ↦ missing last key (seen bigint_of env (later w)).locks e
          | inr (entry, e) ↦
              let reached = clock (suc w.time) (λ n h. ticks n (omega arith)) wait_polls in
              let early = bounded entry e in
              let late : leb entry.expires_at last ≡ true = ground arith in rw (live, e, late) refl
        ]

    acquired-err :
        (token : String) (random : ℕ) (w w' : World) (e : String) (b : Bool) (cache : Cache)
        → set_lock
            (env (suc w.time)).now
            (product_card_lock_key product_id)
            token
            (seen bigint_of env (later w))
          ≡ (b, cache)
        → rebuild_or_wait bigint_of env token random product_id b
            (record { cache = cache; time = suc (suc w.time) })
          ≡ (err e, w')
        → wait_for bigint_of env product_id wait_polls (later (later w)) ≡ (err e, w')
    unfolding set_lock rebuild_or_wait
    acquired-err token random w w' e true cache h k =
        let (card, v, r) =
          rebuild_locked-Returns token random (record { cache = cache; time = suc (suc w.time) }) in
        absurd (
          let both : (let p : Result String (Option ProductCard) × World = (ok card, v) in p)
              ≡ (err e, w') =
            sym r ∙ k in
          ground arith)
    acquired-err token random w w' e false cache h k =
        elim (Option-cases (
          live (env (suc w.time)).now (product_card_lock_key product_id)
            (seen bigint_of env (later w)).locks)) [
              | inl free ↦ absurd (let h' = rw (set_lock, free) at h in ground arith)
              | inr (holder, held) ↦
                  let h' = rw (set_lock, held) at h in
                  let same : seen bigint_of env (later w) ≡ cache = ap (λ p. p.1) h' in
                  ap
                    (λ c.
                      wait_for bigint_of env product_id wait_polls
                        (record { cache = c; time = suc (suc w.time) }))
                    same
                  ∙ k
            ]

    -- With no call failing and an id that is a number, a request for a card throws only after it has seen no entry at any of
    -- its 250 polls; if at least 20 ms pass between two of these calls, the lock that it met, set
    -- for no more than five seconds, has then expired.
    pub get_card-timeout :
        (token : String) (random : ℕ) (w w' : World) (e : String)
        → ((n : ℕ) → w.time < n → (env n).now + wait_poll_ms ≤ (env (suc n)).now)
        → ((entry : RedisValue String)
            → lookup (product_card_lock_key product_id) (seen bigint_of env (later w)).locks
              ≡ some entry
            → entry.expires_at ≤ (env (suc w.time)).now + lock_ttl_ms)
        → get_card bigint_of env token random product_id w ≡ (err e, w')
        → (e ≡ timed_out product_id)
          × Missed wait_polls (later (later w))
          × (live
                (env (suc w.time + wait_polls)).now
                (product_card_lock_key product_id)
                (seen bigint_of env (later w)).locks
              ≡ none)
    unfolding get_card
    get_card-timeout token random w w' e ticks bounded h =
        let command : ℕ → Cache → Bool × Cache =
          λ now. set_lock now (product_card_lock_key product_id) token in
        let h' = rw (get_card, read_cache-calm w) at h in
        elim (Option-cases (
          read_entry
            (live (env w.time).now (product_card_key product_id) (seen bigint_of env w).cards))) [
              | inr (card, k) ↦ absurd (let h'' = rw k at h' in ground arith)
              | inl k ↦
                  let h'' =
                    rw (k, call-calm bigint_of env command (later w) (calm (suc w.time))) at h' in
                  let waits = acquired-err token random w w' e _ _ refl h'' in
                  let (same, missed, time) = wait_for-err wait_polls (later (later w)) w' e waits in
                  (same, missed, expired w ticks bounded)
            ]
