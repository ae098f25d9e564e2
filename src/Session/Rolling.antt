-- ===== src/Session/Rolling.antt =====
-- How long a session lives.
use marketplace_template.Prelude.{
  ℕ, ◌≤◌, ◌<◌, String, true, false, ◌≡◌, refl, Option, none, some, List, [], ◌∷◌, err, arith, ltb,
  ◌==◌, text_eq, All, lookup, put, lookup-put_self,
}
use marketplace_template.Session.{
  Entry, SessionRedis, session_key, live_entry, expiry, start_session, touch, ActiveSession,
  use_session, session_guard, session_required,
}

-- Requests with the session's header, at the given times: what each finds, and the store after.
abbrev pub requests :
    ℕ → String → List ℕ → SessionRedis → List (Option ActiveSession) × SessionRedis
requests ttl id [] redis = ([], redis)
requests ttl id (now ∷ times) redis =
    let (found, redis') = use_session ttl now (some id) redis in
    let (more, after) = requests ttl id times redis' in (found ∷ more, after)

-- Each time is later than the one before by less than the lifetime.
abbrev pub Frequent : ℕ → ℕ → List ℕ → Type 0
Frequent ttl last [] = Unit {0}
Frequent ttl last (now ∷ times) = (now < expiry ttl last) × Frequent ttl now times

abbrev pub last_of : ℕ → List ℕ → ℕ
last_of last [] = last
last_of last (now ∷ times) = last_of now times

module _ (ttl : ℕ) (id user : String) (named : (id == "") ≡ false) where
  abbrev session_of : ℕ → Entry
  session_of now = record { value = record { user_id = user }; expires_at = expiry ttl now }

  abbrev active : ActiveSession
  active = record { id = id; user_id = user }

  use_session-live :
      (last now : ℕ) (redis : SessionRedis)
      → lookup (session_key id) redis ≡ some (session_of last)
      → now < expiry ttl last
      → use_session ttl now (some id) redis
        ≡ (some active, put (session_key id) (session_of now) redis)
  unfolding use_session touch live_entry
  use_session-live last now redis there early =
      let live : ltb now (expiry ttl last) ≡ true = ground arith in
      rw (use_session, named, touch, live_entry, there, live) refl

  abbrev Rolls : List ℕ → ℕ → SessionRedis → Type 0
  Rolls times last redis =
      All (λ found. found ≡ some active) (requests ttl id times redis).0
      × (lookup (session_key id) (requests ttl id times redis).1
          ≡ some (session_of (last_of last times)))

  requests-Rolls :
      (times : List ℕ) (last : ℕ) (redis : SessionRedis)
      → lookup (session_key id) redis ≡ some (session_of last)
      → Frequent ttl last times
      → Rolls times last redis
  requests-Rolls [] last redis there h = (tt, there)
  requests-Rolls (now ∷ times) last redis there (early, h) =
      let served = use_session-live last now redis there early in
      let next = put (session_key id) (session_of now) redis in
      let there' : lookup (session_key id) next ≡ some (session_of now) =
        lookup-put_self (session_key id) (session_of now) redis in
      let (all, kept) = requests-Rolls times now next there' h in rw served ((refl, all), kept)

  use_session-expired :
      (last now : ℕ) (redis : SessionRedis)
      → lookup (session_key id) redis ≡ some (session_of last)
      → expiry ttl last ≤ now
      → (use_session ttl now (some id) redis).0 ≡ none
  unfolding use_session touch live_entry
  use_session-expired last now redis there late =
      let gone : ltb now (expiry ttl last) ≡ false = ground arith in
      rw (use_session, named, touch, live_entry, there, gone) refl

  -- A session of a non-empty id, used by requests each of which comes within the lifetime of the
  -- one before: every one of them finds it, with its user; and a request a whole lifetime or more
  -- after the last of them finds none, and a guarded route answers it with the session-required problem.
  pub requests-start_session :
      (began now : ℕ) (times : List ℕ) (url : String) (redis : SessionRedis)
      → Frequent ttl began times
      → expiry ttl (last_of began times) ≤ now
      → (All
          (λ found. found ≡ some active)
          (requests ttl id times (start_session ttl id began user redis).1).0)
        × (session_guard url
              (use_session ttl now
                (some id)
                (requests ttl id times (start_session ttl id began user redis).1).1).0
            ≡ err (session_required url))
  unfolding start_session session_guard
  requests-start_session began now times url redis frequent late =
      let (all, kept) =
        requests-Rolls times began (put (session_key id) (session_of began) redis)
          (lookup-put_self (session_key id) (session_of began) redis) frequent in
      let gone = use_session-expired (last_of began times) now _ kept late in
      (all, rw (session_guard, gone) refl)
