-- ===== src/Orders/Events/Tests.antt =====
-- The event bus on concrete histories.
use marketplace_template.Prelude.{
  String, ◌≡◌, refl, List, [], ◌∷◌, some, lookup, put, arith, replicate, ◌++◌,
}
use marketplace_template.Orders.Events.{
  empty, stream_for, trim, publish, replay_after, changes, stream_frames, publish_all, emitted,
}
use marketplace_template.Orders.Events.History.{events_for, last_events}
use marketplace_template.Orders.Events.Replays.{
  after, replay_after-last_events, stream_frames_complete,
}

abbrev before : List (String × String)
before = ("o1", "created") ∷ ("o2", "created") ∷ ("o1", "paid") ∷ []

abbrev meanwhile : List (String × String)
meanwhile = ("o2", "paid") ∷ ("o1", "shipped") ∷ []

frames_of_o1 :
    stream_frames "o1"
      (some 1)
      (publish_all before empty)
      (emitted meanwhile (publish_all before empty))
    ≡ record { id = 2; order_id = "o1"; status = "paid" }
      ∷ record { id = 3; order_id = "o1"; status = "shipped" }
      ∷ []
unfolding stream_frames publish_all emitted publish stream_for trim replay_after changes lookup put
frames_of_o1 = refl

-- After 60 events the first ten are gone.
abbrev many : List (String × String)
many = replicate 60 ("o1", "paid")

replay_after-last_events_example :
    replay_after "o1" 5 (publish_all many empty) ≡ after 5 (last_events (events_for "o1" many))
replay_after-last_events_example = replay_after-last_events many "o1" 5

stream_frames_complete_example :
    stream_frames "o1"
      (some 1)
      (publish_all before empty)
      (emitted meanwhile (publish_all before empty))
    ≡ after 1 (events_for "o1" (before ++ meanwhile))
stream_frames_complete_example =
    stream_frames_complete before meanwhile "o1" 1 (omega arith) (omega arith)
