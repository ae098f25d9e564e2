-- ===== src/Session/Routes.antt =====
-- src/session/sessions.controller.ts behind the middleware and the guard of src/session.
use marketplace_template.Prelude.{ℕ, String, Option, none, some, Result, ok, err, Action}
use marketplace_template.RateLimit.{ProblemException}
use marketplace_template.Session.{
  SessionRedis, ActiveSession, start_session, remaining_ttl, end_session, use_session,
  session_required,
}

pub record SessionAnswer : Type 0 where
  pub id : String
  pub expires_in : Option ℕ

-- POST v1/sessions: the id of the session, and the lifetime of every session.
unfoldable pub post_session : ℕ → String → ℕ → String → SessionRedis → SessionAnswer × SessionRedis
unfolding start_session
post_session ttl_seconds session_id now user_id redis =
    let (id, redis') = start_session ttl_seconds session_id now user_id redis in
    (record { id = id; expires_in = some ttl_seconds }, redis')

-- A route behind the guard, with the session that the middleware found.
abbrev pub guarded :
    {A : Type 0}
    → String
    → (ActiveSession → SessionRedis → A × SessionRedis)
    → Option ActiveSession × SessionRedis
    → Result ProblemException A × SessionRedis
guarded url route (none, redis) = (err (session_required url), redis)
guarded url route (some session, redis) =
    let (answer, redis') = route session redis in (ok answer, redis')

-- GET v1/sessions/me: the user, and the seconds that are left.
unfoldable pub get_me :
    ℕ → ℕ → String → Option String → Action ProblemException SessionRedis SessionAnswer
unfolding use_session remaining_ttl session_required
get_me ttl_seconds now url header redis =
    guarded url
      (λ session r.
        (record { id = session.user_id; expires_in = remaining_ttl now session.id r }, r))
      (use_session ttl_seconds now header redis)

-- DELETE v1/sessions/me
unfoldable pub delete_me :
    ℕ → ℕ → String → Option String → Action ProblemException SessionRedis (Unit {0})
unfolding use_session end_session session_required
delete_me ttl_seconds now url header redis =
    guarded url (λ session r. (tt, end_session session.id r))
      (use_session ttl_seconds now header redis)
