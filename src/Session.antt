-- ===== src/Session.antt =====
-- src/session: session-store.ts, session.middleware.ts and session.guard.ts. A key of Redis holds
-- its record and the time, in milliseconds, at which it expires; the record is stored as JSON and
-- read back as it was. The random id of a new session and the clock are arguments.
pub mod Routes
pub mod Rolling
pub mod Tests
use marketplace_template.Prelude.{
  ℕ, ◌+◌, ◌-◌, ◌*◌, ◌/◌, String, Bool, true, false, Option, none, some, List, [], ◌∷◌, Result, ok,
  err, ltb, if◌then◌else◌, ◌==◌, text_eq, Table, lookup, put, delete, ◌<>◌,
}
use marketplace_template.RateLimit.{ProblemException}

pub record SessionRecord : Type 0 where
  pub user_id : String

pub record Entry : Type 0 where
  pub value : SessionRecord
  pub expires_at : ℕ

abbrev pub SessionRedis : Type 0
SessionRedis = Table String Entry

unfoldable pub session_key : String → String
session_key session_id = "session:" <> session_id

-- The entry of a key that has not expired.
unfoldable pub live_entry : ℕ → String → SessionRedis → Option Entry
live_entry now key redis = elim (lookup key redis) [
  | none ↦ none
  | some entry ↦ if ltb now entry.expires_at then some entry else none
]

module _ (ttl_seconds : ℕ) where
  abbrev pub expiry : ℕ → ℕ
  expiry now = now + 1000 * ttl_seconds

  unfoldable pub start_session : String → ℕ → String → SessionRedis → String × SessionRedis
  start_session session_id now user_id redis = (
    session_id,
    put (session_key session_id)
        (record { value = record { user_id = user_id }; expires_at = expiry now }) redis,
  )

  -- GETEX with EX.
  unfoldable pub touch : ℕ → String → SessionRedis → Option SessionRecord × SessionRedis
  touch now session_id redis = elim (live_entry now (session_key session_id) redis) [
    | none ↦ (none, redis)
    | some entry ↦ (
      some entry.value,
      put (session_key session_id) (record entry { expires_at = expiry now }) redis,
    )
  ]

-- TTL in seconds, to the nearest one; none stands for -2.
unfoldable pub remaining_ttl : ℕ → String → SessionRedis → Option ℕ
remaining_ttl now session_id redis = elim (live_entry now (session_key session_id) redis) [
  | none ↦ none
  | some entry ↦ some ((entry.expires_at - now + 500) / 1000)
]

unfoldable pub end_session : String → SessionRedis → SessionRedis
end_session session_id redis = delete (session_key session_id) redis

unfoldable pub session_exists : ℕ → String → SessionRedis → Bool
session_exists now session_id redis = elim (live_entry now (session_key session_id) redis) [
  | none ↦ false
  | some _ ↦ true
]

pub record ActiveSession : Type 0 where
  pub id : String
  pub user_id : String

-- `use`: an empty header counts as none. The result is `req.activeSession`.
unfoldable pub use_session :
    ℕ → ℕ → Option String → SessionRedis → Option ActiveSession × SessionRedis
use_session ttl_seconds now none redis = (none, redis)
use_session ttl_seconds now (some session_id) redis =
    let (found, redis') = touch ttl_seconds now session_id redis in
    if session_id == "" then (none, redis) else (
      elim found [
        | none ↦ none
        | some session ↦ some (record { id = session_id; user_id = session.user_id })
      ],
      redis',
    )

unfoldable pub session_required : String → ProblemException
session_required original_url = record {
  status = 401;
  type = "https://marketplace.local/problems/session-required";
  title = "Session required";
  detail = "X-Session-Id is missing, unknown or expired";
  instance_url = original_url;
}

unfoldable pub session_guard : String → Option ActiveSession → Result ProblemException Bool
session_guard original_url (some session) = ok true
session_guard original_url none = err (session_required original_url)
