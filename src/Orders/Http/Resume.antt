-- ===== src/Orders/Http/Resume.antt =====
-- A stream that a client opens again after its connection broke.
use marketplace_template.Prelude.{
  ℕ, ◌+◌, ◌≤◌, String, ◌≡◌, refl, ap, subst, ◌∙◌, true, none, some, List, ◌∷◌, ◌++◌, arith, ok,
  continue-ok, pure-ok, length, leb, show_nat,
}
use marketplace_template.Json.{Json}
use marketplace_template.Checkout.{Turn, select}
use marketplace_template.Orders.Events.{stream_frames, publish_all, emitted, empty, buffer_limit}
use marketplace_template.Orders.Events.History.{statuses_for, events_for}
use marketplace_template.Orders.Events.Replays.{after, stream_frames_complete}
use marketplace_template.Orders.Ids.{canonical_order_id}
use marketplace_template.Orders.Cursor.{parse_last_event_id, max_safe}
use marketplace_template.Orders.Cursor.RoundTrip.{parse_last_event_id-show_nat}
use marketplace_template.Orders.Service.{Runtime, Service, assert_can_read, load_authorized_order}
use marketplace_template.Orders.Access.{
  Kept, Kept-trans, on_world-Kept, load_authorized_order-Keeps,
}
use marketplace_template.Orders.Http.{write_frames, stream_events}

leb-true : (a b : ℕ) → a ≤ b → leb a b ≡ true
leb-true a b h = ground arith

module _ {B : Type 0} (env : ℕ → Turn) (rt : Runtime B) where
  assert_can_read-bus :
      (id user_id role : String) (s t : Service) (u : Unit {0})
      → assert_can_read env rt id user_id role s ≡ (ok u, t)
      → t.bus ≡ s.bus
  unfolding assert_can_read
  assert_can_read-bus id user_id role s t u h =
      let (loaded, v, e, k) =
        continue-ok _ (load_authorized_order env rt id user_id role none s) h in
      let kept : Kept s v =
        subst (λ p. Kept s p.1) e
          (load_authorized_order-Keeps env rt Kept (λ s. (refl, refl, refl)) Kept-trans
            (λ A read s. on_world-Kept (select env read) s) id user_id role none s) in
      ap (λ (x : Service). x.bus) (pure-ok tt v t k).1 ∙ kept.1

  -- A client that comes back with the id of the last event it saw, no more than 50 events of the
  -- order ago, is sent after the retry line the frames of all later events of the order, each
  -- once, in order, those published while it listens included.
  pub stream_events-resumes :
      (trim : String → String) (stringify : Json → String) (calls live : List (String × String))
      (id user_id role : String) (cursor : ℕ) (s t : Service) (writes : List String)
      → trim (show_nat cursor) ≡ show_nat cursor
      → cursor ≤ max_safe
      → cursor ≤ length (statuses_for (canonical_order_id id) calls)
      → length (statuses_for (canonical_order_id id) calls) ≤ cursor + buffer_limit
      → s.bus ≡ publish_all calls empty
      → stream_events env rt trim stringify
          (emitted live (publish_all calls empty))
          id
          (some (show_nat cursor))
          (some user_id)
          (some role)
          s
        ≡ (ok writes, t)
      → writes
        ≡ "retry: 1000\n\n"
          ∷ write_frames stringify
              (after cursor (events_for (canonical_order_id id) (calls ++ live)))
  unfolding stream_events
  stream_events-resumes trim stringify calls live id user_id role cursor s t writes trimmed safe
        seen near history h =
      let sent = emitted live (publish_all calls empty) in
      let order_id = canonical_order_id id in
      let (u, v, e, k) = continue-ok _ (assert_can_read env rt order_id user_id role s) h in
      let bus : v.bus ≡ publish_all calls empty =
        assert_can_read-bus order_id user_id role s v u e ∙ history in
      let (value, same) = pure-ok _ v t k in
      let header : parse_last_event_id trim (some (show_nat cursor)) ≡ some cursor =
        parse_last_event_id-show_nat trim cursor trimmed
        ∙ rw (leb-true cursor max_safe safe) refl in
      value
      ∙ ap (λ f. "retry: 1000\n\n" ∷ write_frames stringify f)
          (ap (λ c. stream_frames order_id c v.bus sent) header
            ∙ ap (λ b. stream_frames order_id (some cursor) b sent) bus
            ∙ stream_frames_complete calls live order_id cursor seen near)
