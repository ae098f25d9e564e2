-- ===== src/Session/Tests.antt =====
-- A session of two seconds, used three times.
use marketplace_template.Prelude.{
  ◌≡◌, refl, false, ok, some, [], ◌∷◌, err, arith, All, lookup, put, delete,
}
use marketplace_template.Session.{
  SessionRedis, session_key, live_entry, start_session, touch, remaining_ttl, end_session,
  session_exists, use_session, session_guard, session_required,
}
use marketplace_template.Session.Routes.{post_session, get_me, delete_me}
use marketplace_template.Session.Rolling.{requests, requests-start_session}

abbrev no_sessions : SessionRedis
no_sessions = []

ended_session :
    session_exists 10 "s" (end_session "s" (start_session 2 "s" 0 "7" no_sessions).1) ≡ false
unfolding session_exists end_session start_session live_entry session_key lookup put delete
ended_session = refl

rolled_ttl :
    remaining_ttl 1500 "s" (touch 2 1000 "s" (start_session 2 "s" 0 "7" no_sessions).1).1 ≡ some 2
unfolding remaining_ttl touch start_session live_entry session_key lookup put
rolled_ttl = refl

requests-start_session_example :
    All
      (λ found. found ≡ some (record { id = "s"; user_id = "7" }))
      (requests 2 "s" (1500 ∷ 3000 ∷ 4000 ∷ []) (start_session 2 "s" 0 "7" no_sessions).1).0
    × (session_guard "/v1/sessions/me"
          (use_session 2 6000
            (some "s")
            (requests 2 "s"
              (1500 ∷ 3000 ∷ 4000 ∷ [])
              (start_session 2 "s" 0 "7" no_sessions).1).1).0
        ≡ err (session_required "/v1/sessions/me"))
requests-start_session_example =
    requests-start_session 2 "s" "7" refl 0 6000 (1500 ∷ 3000 ∷ 4000 ∷ []) "/v1/sessions/me"
      no_sessions (omega arith, (omega arith, (omega arith, tt))) (omega arith)

-- A session that was ended is refused, and one that is shown has its whole lifetime again.
abbrev routed : SessionRedis
routed = (post_session 60 "s" 0 "buyer-1" []).1

shows_me :
    (get_me 60 30000 "/v1/sessions/me" (some "s") routed).0
    ≡ ok (record { id = "buyer-1"; expires_in = some 60 })
unfolding get_me post_session live_entry touch session_key lookup put
shows_me = refl

refuses_ended :
    (get_me 60 30000 "/v1/sessions/me"
      (some "s")
      (delete_me 60 20000 "/v1/sessions/me" (some "s") routed).1).0
    ≡ err (session_required "/v1/sessions/me")
unfolding get_me delete_me post_session live_entry touch session_key lookup put delete
refuses_ended = refl
