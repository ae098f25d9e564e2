-- ===== src/Orders/Events/Replays.antt =====
-- What a client receives that reconnects with `Last-Event-ID`, against what was published.
use mathlib.Core.List.{append_assoc, append-nil}
use marketplace_template.Prelude.{
  ℕ, zero, suc, ◌+◌, ◌-◌, ◌≤◌, ◌<◌, String, ◌≡◌, refl, sym, ap, ◌∙◌, none, some, List, [], ◌∷◌,
  ◌++◌, arith, ltb, ◌==◌, text_eq, length, keep, keep-append, drop, append_cancel,
}
use marketplace_template.Orders.Events.{
  OrderStatusEvent, Bus, empty, buffer_limit, publish, replay_after, changes, stream_frames,
  publish_all, emitted,
}
use marketplace_template.Orders.Events.History.{
  statuses_for, numbered, events_for, last_events, stream_of, statuses_for-append, numbered-append,
  length-numbered, publish_all-Holds, publish_all-Holds-empty,
}

-- The events past a cursor.
abbrev pub after : ℕ → List OrderStatusEvent → List OrderStatusEvent
after cursor = keep (λ event. ltb cursor event.id)

after-numbered :
    (cursor : ℕ) (id : String) (k : ℕ) (all : List String)
    → cursor < k
    → after cursor (numbered id k all) ≡ numbered id k all
after-numbered cursor id k [] h = refl
after-numbered cursor id k (s ∷ all) h =
    let rest = after-numbered cursor id (k + 1) all (omega arith) in ground (arith, rest)

-- What was trimmed is not past the cursor.
after-drop :
    (cursor m : ℕ) (id : String) (k : ℕ) (all : List String)
    → k + m ≤ suc cursor
    → after cursor (drop m (numbered id k all)) ≡ after cursor (numbered id k all)
after-drop cursor zero id k all h = refl
after-drop cursor (suc m) id k [] h = refl
after-drop cursor (suc m) id k (s ∷ all) h =
    let rest = after-drop cursor m id (k + 1) all (omega arith) in ground (arith, rest)

-- The replay is the events past the cursor among the last 50 of the order, whatever was published.
pub replay_after-last_events :
    (calls : List (String × String)) (id : String) (cursor : ℕ)
    → replay_after id cursor (publish_all calls empty)
      ≡ after cursor (last_events (events_for id calls))
unfolding replay_after
replay_after-last_events calls id cursor =
    let held = (publish_all-Holds-empty calls).streams id in
    rw (replay_after, held) (go (statuses_for id calls))
  where
    go :
        (all : List String)
        → (elim (stream_of id all) [ none ↦ [] | some stream ↦ after cursor stream.buffer ])
          ≡ after cursor (last_events (numbered id 1 all))
    go [] = refl
    go (s ∷ all) = refl

sent-emitted :
    (live : List (String × String)) (bus : Bus)
    → (publish_all live bus).sent ≡ bus.sent ++ emitted live bus
unfolding publish_all emitted publish
sent-emitted [] bus = sym (append-nil bus.sent)
sent-emitted ((o, s) ∷ live) bus =
    let (event, next) = publish o s bus in
    sent-emitted live next ∙ append_assoc bus.sent (event ∷ []) (emitted live next)

changes-emitted :
    (calls live : List (String × String)) (id : String)
    → changes id (emitted live (publish_all calls empty))
      ≡ numbered id (1 + length (statuses_for id calls)) (statuses_for id live)
unfolding changes
changes-emitted calls live id =
    let bus = publish_all calls empty in
    let before = publish_all-Holds-empty calls in
    let whole = (publish_all-Holds calls live bus before).sent id in
    let split = keep-append (λ e. e.order_id == id) bus.sent (emitted live bus) in
    let numbers = numbered-append id 1 (statuses_for id calls) (statuses_for id live) in
    append_cancel (events_for id calls) (changes id (emitted live bus))
      (numbered id (1 + length (statuses_for id calls)) (statuses_for id live))
      (ap (λ xs. xs ++ changes id (emitted live bus)) (sym (before.sent id))
        ∙ sym split
        ∙ ap (changes id) (sym (sent-emitted live bus))
        ∙ whole
        ∙ ap (numbered id 1) (statuses_for-append id calls live)
        ∙ numbers)

-- A client that comes back with a cursor no more than 50 events behind, while anything else is
-- published meanwhile: it receives every event of its order past the cursor, each once, in order,
-- and nothing else.
pub stream_frames_complete :
    (calls live : List (String × String)) (id : String) (cursor : ℕ)
    → cursor ≤ length (statuses_for id calls)
    → length (statuses_for id calls) ≤ cursor + buffer_limit
    → stream_frames id
        (some cursor)
        (publish_all calls empty)
        (emitted live (publish_all calls empty))
      ≡ after cursor (events_for id (calls ++ live))
unfolding stream_frames
stream_frames_complete calls live id cursor seen near =
    let all = statuses_for id calls in
    let more = statuses_for id live in
    let size = length-numbered id 1 all in
    rw
      (
        replay_after-last_events calls id cursor,
        changes-emitted calls live id,
        after-drop cursor (length (events_for id calls) - buffer_limit) id 1 all (omega arith),
        statuses_for-append id calls live,
        numbered-append id 1 all more,
        keep-append (λ event. ltb cursor event.id) (numbered id 1 all)
            (numbered id (1 + length all) more),
        after-numbered cursor id (1 + length all) more (omega arith),
      )
      refl
