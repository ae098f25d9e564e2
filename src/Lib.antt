-- ===== src/Lib.antt =====
-- A verification library for the marketplace API (TypeScript, NestJS, PostgreSQL, Redis, RabbitMQ).
--
-- The program. A buyer's request goes through a rate limit (src/ratelimit) to the orders API
-- (src/orders), which answers a repeated Idempotency-Key from the store (src/store) and otherwise
-- calls the checkout (src/checkout), one PostgreSQL transaction that takes stock and balance and
-- writes the order, a job and an outbox row with an order.placed event (src/messaging). A relay
-- publishes the outbox; a consumer applies each event once (the effect store). Status changes of an
-- order go to an in-process event bus, which an SSE stream replays and follows. Product cards are
-- read through a Redis cache (src/catalog), which a worker refreshes (src/queue).
--
-- The files and the code they model:
--   Prelude       shared types: Boolean tests, lists, tables, texts, and Action, code that may
--                 throw and that changes a state.
--   Common.Retry  src/common/with-retry.ts: `with_retry` is `withRetry`, on any action.
--   Json, Db      JSON values; the tables of src/entities and src/migrations.
--   Double        the rounding of a product of doubles, for the jitter of src/catalog.
--   Messaging     Event: src/messaging/order-placed.event.ts. Effects: effect-store.ts, where
--                 `record_delivery`, `apply_effect`, `mark_acked` and `counts` are its methods.
--                 Relay: outbox-relay.ts, where `publish_pending` is `publishPending`.
--                 Consumer: order-placed.consumer.ts, where `handle_message` is the handler;
--                 its Deliveries has sequences of messages to any number of processes.
--                 Transient: its `isTransientConsumerError`, a search in a heap of error objects.
--   Checkout      src/checkout/checkout.service.ts. `checkout`, `insert_checkout`,
--                 `find_committed` and `assert_same_intent` are its methods; Order has
--                 `itemsInLockOrder`, Tables the SQL statements.
--   Orders        Events: src/orders/order-events.service.ts. Ids, Service, Rows and Create:
--                 orders.service.ts, where Rows has the joined rows and the order that is shown,
--                 Service the state, `load_authorized_order`, `update_status` and `list`, and
--                 Create `create`. Cursor: `parseLastEventId`. Http: the controllers and the
--                 socket gateway.
--   Catalog       src/catalog: `get_card`, `refresh`, `read_cache` and `write_cache` are methods of
--                 product-card.service.ts, `unlock` its Lua script, `load` and `hot_product_ids`
--                 the queries of product-card.repository.ts.
--   Listings      src/listings/listings.controller.ts: its four routes.
--   Ratings       src/queue: `enqueue_recalc` is `enqueueRecalc`, `process` the worker's method.
--   Jobs          src/jobs/job-queue.service.ts: `claim_job` and `complete_job` are its methods,
--                 and `Step` the steps of `runWorker`.
--   RateLimit     src/ratelimit: `sliding_window` is the Lua script, `consume` the limiter's
--                 method, `can_activate` the guard's.
--   Session       src/session: the methods of session-store.ts, `use_session` for the middleware,
--                 `session_guard` for the guard, and Routes for the controller.
--   Filters       src/filters/problem-exception.filter.ts: `catch_exception` is its `catch`.
--   Store         src/store/store.service.ts: its maps, and `paginate`.
-- Below each component, a module for each group of theorems, and Tests with runs on concrete data.
--
-- State and time. A table is an association list under its primary key, and identity sequences
-- survive a rollback. A transaction is one step of a client's world: what other clients commit
-- before it, and a server error that aborts it, come from an environment, which is an argument.
-- Clock readings, random texts and UUIDs are arguments too, and so are PostgreSQL's casts. Redis
-- runs a script alone, so it is one function of the bucket. The workers of the job queue share
-- their table, so each query of theirs is a step, and the steps interleave freely.
--
-- Bounds. Money, quantities, times and identities are natural numbers; a parameter of type
-- `integer` above 2147483647 is refused as the server does. The retry loop is recursion on the
-- attempts that are left, and the wait for a card on the polls that are left, which are the loops'
-- own bounds, so no run lacks fuel. The search for a transient error goes one call deeper than there
-- are error objects, which is enough since each deeper call has seen one object more. The spacing
-- of doubles is found in six doublings, which is enough below 2^59. The walk of
-- Store.Pages is recursion on the pages that are left, and one page more than there are items is
-- enough. Every other function is recursive on its list or its text.
--
-- Interaction. `create` of the orders API runs `checkout` on the world of its service and then
-- writes the maps of the store; `update_status` publishes to the bus that `stream_events` replays;
-- `process` of the rating worker calls `refresh` of the cards. A request has the maps of the store
-- to itself, while other clients commit to the database between any two of its calls.
--
-- Not modelled: two requests of the orders API that interleave on the maps of the store; opening
-- and closing connections, the scheduler and the options of the rating queue; the seed, the demos
-- and the module wiring, which hold no logic of the services; row locks, except by the order in
-- which a checkout takes them and in the job queue.
pub mod Prelude
pub mod Common
pub mod Json
pub mod Db
pub mod Messaging
pub mod Checkout
pub mod Orders
pub mod Catalog
pub mod Listings
pub mod Ratings
pub mod Jobs
pub mod RateLimit
pub mod Session
pub mod Store
pub mod Filters
pub mod Double
