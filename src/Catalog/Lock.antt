-- ===== src/Catalog/Lock.antt =====
-- The lifetime of an entry, and the lock.
use marketplace_template.Prelude.{
  ℕ, Option, ◌*◌, suc, ◌-◌, ◌/◌, ◌↔◌, ◌+◌, ◌^◌, ◌≤◌, ◌<◌, inl, inr, String, ◌≡◌, refl, sym, ap, ◌∙◌,
  Bool, true, false, none, some, arith, ◌==◌, text_eq, eq_iff, leb, Option-cases, Table, lookup,
  put, delete, lookup-put_self, lookup-delete, ok,
}
use marketplace_template.Catalog.{
  Cache, RedisValue, Turn, World, seen, live, call, set_lock, unlock, cache_ttl_seconds,
  lock_ttl_ms,
}
use marketplace_template.Double.{round_double-near}

rounded-bounds :
    (random : ℕ)
    → random < 2 ^ 53
    → (300 ≤ cache_ttl_seconds random) × (cache_ttl_seconds random ≤ 360)
unfolding cache_ttl_seconds
rounded-bounds random h = omega (arith, round_double-near 6 (random * 61))

-- A draw for a lifetime: the least that is sure to reach it.
abbrev draw : ℕ → ℕ
draw seconds = (seconds - 300) * 2 ^ 53 / 61 + 2

draw-hits :
    (seconds : ℕ)
    → 300 ≤ seconds
    → seconds ≤ 360
    → (draw seconds < 2 ^ 53) × (cache_ttl_seconds (draw seconds) ≡ seconds)
unfolding cache_ttl_seconds
draw-hits seconds h k = omega (arith, round_double-near 6 (draw seconds * 61))

-- The lifetimes that `Math.random` can draw are the whole numbers of seconds from 300 to 360.
pub cache_ttl_seconds_iff :
    (seconds : ℕ)
    → ((random : ℕ) × (random < 2 ^ 53) × (cache_ttl_seconds random ≡ seconds))
      ↔ ((300 ≤ seconds) × (seconds ≤ 360))
cache_ttl_seconds_iff seconds = (
  λ (random, h, drawn). ground (arith, rounded-bounds random h),
  λ (h, k). let (below, drawn) = draw-hits seconds h k in (draw seconds, below, drawn),
)

live-put :
    {V : Type 0} (now : ℕ) (key : String) (entry : RedisValue V)
    (table : Table String (RedisValue V))
    → now < entry.expires_at
    → live now key (put key entry table) ≡ some entry.value
unfolding live
live-put now key entry table h =
    let soon : leb entry.expires_at now ≡ false = ground arith in
    rw (live, lookup-put_self key entry table, soon) refl

pub missing :
    {V : Type 0} (now : ℕ) (key : String) (table : Table String (RedisValue V))
    → lookup key table ≡ none
    → live now key table ≡ none
unfolding live
missing now key table h = rw (live, h) refl

takes :
    (now : ℕ) (key token : String) (cache : Cache)
    → live now key cache.locks ≡ none
    → (set_lock now key token cache).0 ≡ true
unfolding set_lock
takes now key token cache h = rw (set_lock, h) refl

set_lock-live :
    (now later : ℕ) (key token : String) (cache held : Cache)
    → set_lock now key token cache ≡ (true, held)
    → later < now + lock_ttl_ms
    → live later key held.locks ≡ some token
unfolding set_lock
set_lock-live now later key token cache held h soon =
    elim (Option-cases (live now key cache.locks)) [
      | inr (holder, e) ↦ absurd (let h' = rw (set_lock, e) at h in ground arith)
      | inl e ↦
          let h' = rw (set_lock, e) at h in
          let entry : RedisValue String = record {
            value = token;
            expires_at = now + lock_ttl_ms;
          } in
          ap (λ (p : Bool × Cache). live later key p.1.locks) (sym h')
          ∙ live-put later key entry cache.locks soon
    ]

unlock-own :
    (now : ℕ) (key token : String) (held : Cache)
    → live now key held.locks ≡ some token
    → live now key (unlock now key token held).1.locks ≡ none
unfolding unlock
unlock-own now key token held h =
    let own = (eq_iff token token).1 refl in
    let gone : lookup key (delete key held.locks) ≡ none =
      lookup-delete key key held.locks ∙ rw ((eq_iff key key).1 refl) refl in
    rw (unlock, h, own) (missing now key (delete key held.locks) gone)

-- While a lock that was taken lives, no other request takes it, and an unlock with another token
-- leaves it; an unlock with its own token frees it for the next request.
pub set_lock-Exclusive :
    (now later : ℕ) (key token other : String) (cache held : Cache)
    → set_lock now key token cache ≡ (true, held)
    → later < now + lock_ttl_ms
    → (token == other) ≡ false
    → (set_lock later key other held ≡ (false, held))
      × (unlock later key other held ≡ (tt, held))
      × ((set_lock later key other (unlock later key token held).1).0 ≡ true)
unfolding set_lock unlock
set_lock-Exclusive now later key token other cache held h soon differ =
    let there = set_lock-live now later key token cache held h soon in
    let free = unlock-own later key token held there in
    (
      rw (set_lock, there) refl,
      rw (unlock, there, differ) refl,
      takes later key other (unlock later key token held).1 free,
    )

module _ (bigint_of : String → Option String) (env : ℕ → Turn) where
  pub call-calm :
      {A : Type 0} (command : ℕ → Cache → A × Cache) (w : World)
      → (env w.time).fault ≡ none
      → call bigint_of env command w ≡ (
        ok (command (env w.time).now (seen bigint_of env w)).0,
        record { cache = (command (env w.time).now (seen bigint_of env w)).1; time = suc w.time },
      )
  unfolding call
  call-calm command w h = rw (call, h) refl
