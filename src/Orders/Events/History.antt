-- ===== src/Orders/Events/History.antt =====
-- The bus against the history of what was published.
use native.Mathlib.Decide.{dec_lt}
use mathlib.Core.List.{append-nil, append_assoc}
use marketplace_template.Prelude.{
  ℕ, ◌+◌, ◌-◌, String, ◌≡◌, refl, sym, ap, ◌∙◌, inl, inr, true, false, Option, none, some, List, [],
  ◌∷◌, ◌++◌, arith, ltb, ◌==◌, text_eq, if◌then◌else◌, eq_iff, Bool-cases, length, length-append,
  length-drop, drop, keep-append, drop-append, drop-drop, lookup, lookup-put,
}
use marketplace_template.Orders.Events.{
  OrderStatusEvent, OrderEventStream, Bus, empty, buffer_limit, stream_for, trim, publish, changes,
  publish_all,
}

-- The statuses published for one order.
abbrev pub statuses_for : String → List (String × String) → List String
statuses_for id [] = []
statuses_for id ((order_id, status) ∷ calls) =
    let rest = statuses_for id calls in if order_id == id then status ∷ rest else rest

-- Its events, numbered from `k`.
abbrev pub numbered : String → ℕ → List String → List OrderStatusEvent
numbered id k [] = []
numbered id k (status ∷ rest) =
    record { id = k; order_id = id; status = status } ∷ numbered id (k + 1) rest

abbrev pub events_for : String → List (String × String) → List OrderStatusEvent
events_for id calls = numbered id 1 (statuses_for id calls)

abbrev pub last_events : List OrderStatusEvent → List OrderStatusEvent
last_events events = drop (length events - buffer_limit) events

abbrev pub stream_at : String → List String → OrderEventStream
stream_at id all = record { next_id = 1 + length all; buffer = last_events (numbered id 1 all) }

abbrev pub stream_of : String → List String → Option OrderEventStream
stream_of id [] = none
stream_of id (s ∷ rest) = some (stream_at id (s ∷ rest))

stream_for-stream_at :
    (id : String) (bus : Bus) (old : List String)
    → lookup id bus.streams ≡ stream_of id old
    → stream_for id bus ≡ stream_at id old
unfolding stream_for
stream_for-stream_at id bus [] h = rw (stream_for, h) refl
stream_for-stream_at id bus (s ∷ rest) h = rw (stream_for, h) refl

stream_of-snoc :
    (id : String) (old : List String) (s : String)
    → stream_of id (old ++ s ∷ []) ≡ some (stream_at id (old ++ s ∷ []))
stream_of-snoc id [] s = refl
stream_of-snoc id (x ∷ old) s = refl

pub statuses_for-append :
    (id : String) (xs ys : List (String × String))
    → statuses_for id (xs ++ ys) ≡ statuses_for id xs ++ statuses_for id ys
statuses_for-append id [] ys = refl
statuses_for-append id ((o, s) ∷ xs) ys = ground (arith, statuses_for-append id xs ys)

statuses_for-snoc :
    (id : String) (calls : List (String × String)) (order_id status : String)
    → statuses_for id (calls ++ (order_id, status) ∷ [])
      ≡ (if order_id == id then statuses_for id calls ++ status ∷ [] else statuses_for id calls)
statuses_for-snoc id calls order_id status = ground (
  arith,
  statuses_for-append id calls ((order_id, status) ∷ []),
  append-nil (statuses_for id calls),
)

pub numbered-append :
    (id : String) (k : ℕ) (xs ys : List String)
    → numbered id k (xs ++ ys) ≡ numbered id k xs ++ numbered id (k + length xs) ys
numbered-append id k [] ys = ground arith
numbered-append id k (x ∷ xs) ys = ground (arith, numbered-append id (k + 1) xs ys)

pub length-numbered :
    (id : String) (k : ℕ) (xs : List String) → length (numbered id k xs) ≡ length xs
length-numbered id k [] = refl
length-numbered id k (x ∷ xs) = omega (arith, length-numbered id (k + 1) xs)

-- One more event: pushed, then trimmed.
trim-last_events :
    (xs : List OrderStatusEvent) (e : OrderStatusEvent)
    → trim (last_events xs ++ e ∷ []) ≡ last_events (xs ++ e ∷ [])
unfolding trim
trim-last_events xs e =
    let n : ℕ = length xs in
    let whole : drop (n - buffer_limit) (xs ++ e ∷ []) ≡ last_events xs ++ e ∷ [] =
      drop-append (n - buffer_limit) xs (e ∷ []) (omega arith) in
    let size : length (last_events xs ++ e ∷ []) ≡ (n - (n - buffer_limit)) + 1 =
      omega (arith, length-append (last_events xs) (e ∷ []), length-drop (n - buffer_limit) xs) in
    let size' : length (xs ++ e ∷ []) ≡ n + 1 = omega (arith, length-append xs (e ∷ [])) in
    elim (dec_lt n buffer_limit) [
      | yes few ↦
          let short : ltb buffer_limit (length (last_events xs ++ e ∷ [])) ≡ false = ground arith in
          let start : n - buffer_limit ≡ length (xs ++ e ∷ []) - buffer_limit = omega arith in
          rw short (sym whole ∙ ap (λ k. drop k (xs ++ e ∷ [])) start)
      | no many ↦
          let long : ltb buffer_limit (length (last_events xs ++ e ∷ [])) ≡ true = ground arith in
          let one : length (last_events xs ++ e ∷ []) - buffer_limit ≡ 1 = omega arith in
          let start : n - buffer_limit + 1 ≡ length (xs ++ e ∷ []) - buffer_limit = omega arith in
          rw long (
            ap (λ k. drop k (last_events xs ++ e ∷ [])) one
            ∙ ap (drop 1) (sym whole)
            ∙ drop-drop 1 (n - buffer_limit) (xs ++ e ∷ [])
            ∙ ap (λ k. drop k (xs ++ e ∷ [])) start)
    ]

-- The bus holds, for each order, its number of events and the last of them.
pub record Holds (calls : List (String × String)) (bus : Bus) : Type 0 where
  pub streams : (id : String) → lookup id bus.streams ≡ stream_of id (statuses_for id calls)
  pub sent : (id : String) → changes id bus.sent ≡ events_for id calls

-- `publish` on the stream of its order.
stream_at-snoc :
    (id status : String) (old : List String)
    → record {
      next_id = (stream_at id old).next_id + 1;
      buffer = trim (
          (stream_at id old).buffer
          ++ record { id = 1 + length old; order_id = id; status = status } ∷ []);
    }
      ≡ stream_at id (old ++ status ∷ [])
stream_at-snoc id status old =
    let next : 1 + length old + 1 ≡ 1 + length (old ++ status ∷ []) =
      omega (arith, length-append old (status ∷ [])) in
    let buffer =
      trim-last_events (numbered id 1 old)
        (record { id = 1 + length old; order_id = id; status = status }) in
    rw (next, buffer, numbered-append id 1 old (status ∷ [])) refl

publish-Holds :
    (calls : List (String × String)) (order_id status : String) (bus : Bus)
    → Holds calls bus
    → Holds (calls ++ (order_id, status) ∷ []) (publish order_id status bus).1
unfolding publish changes
publish-Holds calls order_id status bus h =
    let old = statuses_for order_id calls in
    let at = stream_for-stream_at order_id bus old (h.streams order_id) in
    let next = stream_at-snoc order_id status old in
    let next' = stream_of-snoc order_id old status in
    record {
      streams = λ id.
          let put_eq =
            lookup-put order_id id (stream_at order_id (old ++ status ∷ [])) bus.streams in
          let snoc = statuses_for-snoc id calls order_id status in
          elim (Bool-cases (order_id == id)) [
            | inl same ↦
                let one = (eq_iff order_id id).0 same in
                rw (at, next, put_eq, snoc, same)
                  (sym next' ∙ ap (λ i. stream_of i (statuses_for i calls ++ status ∷ [])) one)
            | inr other ↦ rw (at, next, put_eq, snoc, other) (h.streams id)
          ];
      sent = λ id.
          let snoc = statuses_for-snoc id calls order_id status in
          let event : OrderStatusEvent = record {
            id = 1 + length old;
            order_id = order_id;
            status = status;
          } in
          let both = keep-append (λ e. e.order_id == id) bus.sent (event ∷ []) in
          let before = h.sent id in
          elim (Bool-cases (order_id == id)) [
            | inl same ↦
                let one = (eq_iff order_id id).0 same in
                rw
                  (
                    at,
                    both,
                    snoc,
                    before,
                    same,
                    numbered-append id 1 (statuses_for id calls) (status ∷ []),
                  )
                  (ap
                    (λ i.
                      events_for id calls
                      ++ record {
                        id = 1 + length (statuses_for i calls);
                        order_id = i;
                        status = status;
                      }
                        ∷ [])
                    one)
            | inr other ↦ rw (at, both, snoc, before, other) (append-nil (events_for id calls))
          ];
    }

pub publish_all-Holds :
    (before calls : List (String × String)) (bus : Bus)
    → Holds before bus
    → Holds (before ++ calls) (publish_all calls bus)
unfolding publish_all
publish_all-Holds before [] bus h = rw (append-nil before) h
publish_all-Holds before ((o, s) ∷ calls) bus h =
    let rest =
      publish_all-Holds (before ++ (o, s) ∷ []) calls ((publish o s bus).1)
        (publish-Holds before o s bus h) in
    rw (sym (append_assoc before ((o, s) ∷ []) calls)) rest

pub publish_all-Holds-empty :
    (calls : List (String × String)) → Holds calls (publish_all calls empty)
unfolding lookup changes
publish_all-Holds-empty calls =
    publish_all-Holds [] calls empty (record { streams = λ id. refl; sent = λ id. refl })
