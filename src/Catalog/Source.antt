-- ===== src/Catalog/Source.antt =====
-- Where the cards come from.
use marketplace_template.Prelude.{
  ℕ, zero, suc, ◌+◌, ◌*◌, inl, inr, String, ◌≡◌, refl, sym, subst, ◌∙◌, Bool, true, false, Option,
  none, some, arith, ◌==◌, text_eq, leb, Bool-cases, Option-cases, lookup-put_self, Result, ok, err,
  Result-cases, ◌>>=◌, pure,
}
use marketplace_template.Catalog.{
  ProductCard, CachedProductCard, Cache, RedisValue, Turn, World, Cards, seen, live, call, get,
  read_entry, payload_of, read_cache, set_card, ignore, write_cache, load, card_of, found_card,
  finally, load_and_write, rebuild, wait_for, rebuild_locked, rebuild_or_wait, get_card, set_lock,
  unlock, product_card_key, product_card_lock_key, cache_ttl_seconds, wait_polls,
}

-- What is written is what is read back, a product that is not there included.
pub read_entry-payload_of :
    (card : Option ProductCard) → read_entry (some (payload_of card)) ≡ some card
unfolding read_entry payload_of
read_entry-payload_of none = refl
read_entry-payload_of (some card) = refl

module _ (bigint_of : String → Option String) (env : ℕ → Turn) (product_id : String) where
  -- The card that the tables give at some turn.
  abbrev pub FromDb : Option ProductCard → Type 0
  FromDb card =
      (n : ℕ) × (id : String) × (bigint_of product_id ≡ some id) × (card ≡ card_of (env n).db id)

  -- All that the cache would answer for the product, now or later.
  abbrev pub Truthful : Cache → Type 0
  Truthful cache =
      (now : ℕ) (card : Option ProductCard)
      → read_entry (live now (product_card_key product_id) cache.cards) ≡ some card
      → FromDb card

  -- What a result is when there is one.
  abbrev Returns : {A : Type 0} → (A → Type 0) → Result String A → Type 0
  Returns Q (ok a) = Q a
  Returns Q (err e) = Unit {0}

  module _
      (honest : (n : ℕ) (cache : Cache) → Truthful cache → Truthful ((env n).others cache)) where
    abbrev Good : {A : Type 0} → (A → Type 0) → Cards A → Type 0
    Good Q m = (w : World) → Truthful w.cache → Truthful (m w).1.cache × Returns Q (m w).0

    Good-bind :
        {A B : Type 0} (P : A → Type 0) (Q : B → Type 0) (m : Cards A) (f : A → Cards B)
        → Good P m
        → ((a : A) → P a → Good Q (f a))
        → Good Q (m >>= f)
    Good-bind P Q m f hm hf w h = elim (Result-cases (m w)) [
      | inl (a, v, e) ↦
          let (kept, is) = subst (λ p. Truthful p.1.cache × Returns P p.0) e (hm w h) in
          rw e (hf a is v kept)
      | inr (x, v, e) ↦
          let (kept, is) = subst (λ p. Truthful p.1.cache × Returns P p.0) e (hm w h) in
          rw e (kept, tt)
    ]

    Good-call :
        {A : Type 0} (Q : A → Type 0) (command : ℕ → Cache → A × Cache)
        → ((now : ℕ) (cache : Cache)
            → Truthful cache
            → Truthful (command now cache).1 × Q (command now cache).0)
        → Good Q (call bigint_of env command)
    unfolding call
    Good-call Q command hc w h =
        let there = honest w.time w.cache h in
        elim (Option-cases (env w.time).fault) [
          | inr (message, e) ↦ rw (call, e) (there, tt)
          | inl e ↦ rw (call, e) (hc (env w.time).now (seen bigint_of env w) there)
        ]

    Good-pure : {A : Type 0} (Q : A → Type 0) (a : A) → Q a → Good Q (pure a)
    Good-pure Q a h w k = (k, h)

    -- Nothing, or a card of the tables.
    abbrev Found : Option (Option ProductCard) → Type 0
    Found none = Unit {0}
    Found (some card) = FromDb card

    Found-split :
        (o : Option (Option ProductCard))
        → ((card : Option ProductCard) → o ≡ some card → FromDb card)
        → Found o
    Found-split none h = tt
    Found-split (some card) h = h card refl

    read_cache-Good : Good Found (read_cache bigint_of env (product_card_key product_id))
    unfolding read_cache
    read_cache-Good =
        Good-bind (λ raw. Found (read_entry raw)) Found
          (call bigint_of env (get bigint_of env (product_card_key product_id))) _
          (Good-call (λ raw. Found (read_entry raw))
            (get bigint_of env (product_card_key product_id))
            (λ now cache h. (h, Found-split _ (h now))))
          (λ raw h. Good-pure Found (read_entry raw) h)

    -- A write to the cache, failed or not, of a card of the tables.
    ignore-Good :
        (m : Cards (Unit {0}))
        → Good (λ u. Unit {0}) m
        → Good (λ u. Unit {0}) (λ w. ignore bigint_of env (m w))
    ignore-Good m h w k = elim (Result-cases (m w)) [
      | inl (a, v, e) ↦ rw e (subst (λ p. Truthful p.1.cache) e (h w k).0, tt)
      | inr (x, v, e) ↦ rw e (subst (λ p. Truthful p.1.cache) e (h w k).0, tt)
    ]

    set_card-Truthful :
        (card : Option ProductCard) (ttl now : ℕ) (cache : Cache)
        → FromDb card
        → Truthful cache
        → Truthful
            (set_card bigint_of env (product_card_key product_id) (payload_of card) ttl now cache).1
    unfolding live read_entry
    set_card-Truthful card ttl now cache from h later other k =
        let entry : RedisValue CachedProductCard = record {
          value = payload_of card;
          expires_at = now + ttl * 1000;
        } in
        let there = lookup-put_self (product_card_key product_id) entry cache.cards in
        elim (Bool-cases (leb entry.expires_at later)) [
          | inl late ↦ absurd (let k' = rw (live, there, late) at k in ground arith)
          | inr soon ↦
              let k' = rw (live, there, soon) at k in
              let both : (let o : Option (Option ProductCard) = some card in o) ≡ some other =
                sym (read_entry-payload_of card) ∙ k' in
              let same : card ≡ other = ground arith in (from.0, from.1, from.2, sym same ∙ from.3)
        ]

    write_cache-Good :
        (random : ℕ) (card : Option ProductCard)
        → FromDb card
        → Good (λ u. Unit {0}) (write_cache bigint_of env random (product_card_key product_id) card)
    unfolding write_cache
    write_cache-Good random card from =
        let command =
          set_card bigint_of env (product_card_key product_id) (payload_of card)
            (cache_ttl_seconds random) in
        ignore-Good (call bigint_of env command) (
          Good-call (λ u. Unit {0}) command
            (λ now cache h.
              (set_card-Truthful card (cache_ttl_seconds random) now cache from h, tt)))

    found_card-FromDb :
        (n : ℕ) (cast : Option String)
        → bigint_of product_id ≡ cast
        → Returns FromDb (found_card cast (env n).db)
    unfolding found_card
    found_card-FromDb n none e = tt
    found_card-FromDb n (some id) e = (n, id, e, refl)

    load-Good : Good FromDb (load bigint_of env product_id)
    unfolding load
    load-Good w h =
        let there = honest w.time w.cache h in
        elim (Option-cases (env w.time).fault) [
          | inr (message, e) ↦ rw (load, e) (there, tt)
          | inl e ↦ rw (load, e) (there, found_card-FromDb w.time (bigint_of product_id) refl)
        ]

    load_and_write-Good :
        (random : ℕ) → Good FromDb (load_and_write bigint_of env random product_id)
    unfolding load_and_write
    load_and_write-Good random =
        Good-bind FromDb FromDb (load bigint_of env product_id) _ load-Good (λ card from.
          Good-bind (λ u. Unit {0}) FromDb
            (write_cache bigint_of env random (product_card_key product_id) card) _
            (write_cache-Good random card from) (λ u v. Good-pure FromDb card from))

    -- A card that was found is the result; else the request goes on.
    next_Good :
        (m : Cards (Option ProductCard)) (found : Option (Option ProductCard))
        → Good FromDb m
        → Found found
        → Good FromDb (elim found [ some card ↦ pure card | none ↦ m ])
    next_Good m none h k = h
    next_Good m (some card) h k = Good-pure FromDb card k

    rebuild-Good : (random : ℕ) → Good FromDb (rebuild bigint_of env random product_id)
    unfolding rebuild
    rebuild-Good random =
        Good-bind Found FromDb (read_cache bigint_of env (product_card_key product_id)) _
          read_cache-Good
          (λ again k.
            next_Good (load_and_write bigint_of env random product_id) again
              (load_and_write-Good random) k)

    wait_for-Good : (polls : ℕ) → Good FromDb (wait_for bigint_of env product_id polls)
    unfolding wait_for
    wait_for-Good zero = λ w h. (h, tt)
    wait_for-Good (suc polls) =
        Good-bind Found FromDb (read_cache bigint_of env (product_card_key product_id)) _
          read_cache-Good
          (λ waited k.
            next_Good (wait_for bigint_of env product_id polls) waited (wait_for-Good polls) k)

    unlock-Truthful :
        (now : ℕ) (key token : String) (cache : Cache)
        → Truthful cache
        → Truthful (unlock now key token cache).1
    unfolding unlock
    unlock-Truthful now key token cache h = elim (Option-cases (live now key cache.locks)) [
      | inl e ↦ rw (unlock, e) h
      | inr (holder, e) ↦ elim (Bool-cases (holder == token)) [
        | inl own ↦ rw (unlock, e, own) h
        | inr other ↦ rw (unlock, e, other) h
      ]
    ]

    set_lock-Truthful :
        (now : ℕ) (key token : String) (cache : Cache)
        → Truthful cache
        → Truthful (set_lock now key token cache).1
    unfolding set_lock
    set_lock-Truthful now key token cache h = elim (Option-cases (live now key cache.locks)) [
      | inl e ↦ rw (set_lock, e) h
      | inr (holder, e) ↦ rw (set_lock, e) h
    ]

    finally-Good :
        (last : Cards (Unit {0})) (p : Result String (Option ProductCard) × World)
        → Good (λ u. Unit {0}) last
        → Truthful p.1.cache × Returns FromDb p.0
        → Truthful (finally bigint_of env last p).1.cache
          × Returns FromDb (finally bigint_of env last p).0
    finally-Good last (r, w) hl h =
        let kept = (hl w h.0).0 in
        elim (Result-cases (last w)) [
          | inl (u, v, e) ↦ rw e (subst (λ p. Truthful p.1.cache) e kept, h.1)
          | inr (x, v, e) ↦ rw e (subst (λ p. Truthful p.1.cache) e kept, tt)
        ]

    rebuild_or_wait-Good :
        (token : String) (random : ℕ) (acquired : Bool)
        → Good FromDb (rebuild_or_wait bigint_of env token random product_id acquired)
    unfolding rebuild_or_wait rebuild_locked
    rebuild_or_wait-Good token random false = wait_for-Good wait_polls
    rebuild_or_wait-Good token random true = λ w h.
        let command : ℕ → Cache → Unit {0} × Cache =
          λ now. unlock now (product_card_lock_key product_id) token in
        finally-Good (call bigint_of env command) (rebuild bigint_of env random product_id w)
          (Good-call (λ u. Unit {0}) command
            (λ now cache k.
              (unlock-Truthful now (product_card_lock_key product_id) token cache k, tt)))
          (rebuild-Good random w h)

    get_card-Good :
        (token : String) (random : ℕ) → Good FromDb (get_card bigint_of env token random product_id)
    unfolding get_card
    get_card-Good token random =
        let command : ℕ → Cache → Bool × Cache =
          λ now. set_lock now (product_card_lock_key product_id) token in
        Good-bind Found FromDb (read_cache bigint_of env (product_card_key product_id)) _
          read_cache-Good
          (λ cached k.
            next_Good
              (call bigint_of env command >>= rebuild_or_wait bigint_of env token random product_id)
              cached
              (Good-bind (λ b. Unit {0}) FromDb (call bigint_of env command) _
                (Good-call (λ b. Unit {0}) command
                  (λ now cache h.
                    (set_lock-Truthful now (product_card_lock_key product_id) token cache h, tt)))
                (λ acquired u. rebuild_or_wait-Good token random acquired))
              k)

    -- If the cache holds only cards that the tables gave at some time, and other clients keep it
    -- so, then a card that is returned, or the answer that there is none, is what the tables gave
    -- at some time, and the cache is still such.
    pub get_card-FromDb :
        (token : String) (random : ℕ) (w w' : World) (card : Option ProductCard)
        → Truthful w.cache
        → get_card bigint_of env token random product_id w ≡ (ok card, w')
        → Truthful w'.cache × FromDb card
    get_card-FromDb token random w w' card h e =
        let good = get_card-Good token random w h in
        subst (λ p. Truthful p.1.cache × Returns FromDb p.0) e good
