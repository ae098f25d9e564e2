-- ===== src/Orders/Tests.antt =====
-- A shop with an order, read, changed and announced.
use marketplace_template.Prelude.{
  ℕ, ◌↔◌, String, ◌≡◌, refl, true, false, none, some, List, [], ◌∷◌, ◌++◌, starts_zero, decimal,
  map, length, ◌≤◌, ◌+◌, Result, ok, err, ◌==◌, text_eq, nat_eq, pair_eq, lookup, put, show_nat,
  strip_prefix, all_digits, text_ltb, arith,
}
use mathlib.Core.Option
use marketplace_template.Db.{Db, UserRole, OrderStatus}
use marketplace_template.Common.Retry.{is_retryable}
use marketplace_template.Checkout.Tables.{
  update_stock, update_balance, insert_order, insert_item, insert_job, insert_outbox, insert_key,
}
use marketplace_template.Checkout.{Turn, given_key, checkout}
use marketplace_template.Store.{
  Order, ApiStatus, new_store, paginate, page_at, start_of, find_index,
}
use marketplace_template.Orders.Events.{
  empty, publish, stream_for, trim, publish_all, emitted, replay_after, changes, buffer_limit,
}
use marketplace_template.Orders.Events.History.{statuses_for, events_for}
use marketplace_template.Orders.Events.Replays.{after}
use marketplace_template.Orders.Ids.{canonical_order_id, to_db_order_id}
use marketplace_template.Orders.Ids.Canonical.{canonical_order_id_iff}
use marketplace_template.Orders.Rows.{
  owner_of, join_item, user_aliases, complete, read_order, to_api_order,
}
use marketplace_template.Orders.Service.{
  Runtime, Service, OrdersError, problem, Loaded, forbidden, load_authorized_order, get_by_id,
  update_status, list, allowed_statuses, checked_status,
}
use marketplace_template.Orders.Create.{Body, Created, create, idempotency_conflict, sold_out}
use marketplace_template.Orders.Access.{Kept}
use marketplace_template.Orders.Loads.{IsLoad, load_authorized_order-ok}
use marketplace_template.Orders.Status.{IsUpdate, update_status-ok}
use marketplace_template.Orders.Failures.{create-err, update_status-err}
use marketplace_template.Orders.Once.{create_again}
use marketplace_template.Orders.Cursor.{parse_last_event_id}
use marketplace_template.Orders.Cursor.RoundTrip.{parse_last_event_id-show_nat}
use marketplace_template.Orders.Http.{join, stream_events, write_frames}
use marketplace_template.Orders.Http.Resume.{stream_events-resumes}

abbrev market : Db
market = record {
  users =
      ("1", record { email = "seller1@shop.local"; role = UserRole.seller; balance_cents = 0 })
      ∷ ("3", record { email = "buyer1@shop.local"; role = UserRole.buyer; balance_cents = 9000 })
      ∷ [];
  products =
      (
        "7",
        record {
          name = "Vintage Lamp";
          seller_id = "1";
          price_cents = 100;
          stock = 5;
          is_active = true;
        },
      )
      ∷ [];
  orders = (4, record { user_id = "3"; status = OrderStatus.paid; total_cents = 100 }) ∷ [];
  order_items =
      record { id = 9; order_id = 4; product_id = "7"; quantity = 1; unit_price_cents = 100 } ∷ [];
  jobs = [];
  outbox = [];
  idempotency_keys = [];
  next_order = 5;
  next_item = 10;
  next_job = 1;
  next_outbox = 1;
}

abbrev quiet : ℕ → Turn
quiet n = record {
  others = λ db. db;
  fault = none;
  uuid = "00000000-0000-4000-8000-000000000000";
  now_iso = "2026-01-01T00:00:00.000Z";
  now = n;
}

abbrev runtime : Runtime Body
runtime = record {
  to_lower = λ s. s;
  has_at = λ s. s == "buyer1@shop.local";
  ilike = λ name pattern. name == pattern;
  bigint = λ s. some s;
  hash_body = λ body. elim body.items [ [] ↦ "none" | item ∷ items ↦ show_nat item.quantity ];
}

abbrev opened : Service
opened = record {
  world = record { db = market; time = 0 };
  store = new_store;
  bus = empty;
  recalcs = [];
}

abbrev lamps : ℕ → Body
lamps n = record { items = record { listing_id = "listing-1"; quantity = n } ∷ [] }

-- What a run computes with.
abbrev running : ℕ
unfolding create update_status user_aliases complete read_order to_db_order_id to_api_order
    allowed_statuses checked_status canonical_order_id checkout given_key is_retryable lookup put
    text_ltb show_nat update_stock update_balance insert_order insert_item insert_job insert_outbox
    insert_key strip_prefix all_digits publish stream_for trim list join stream_events paginate
    page_at start_of find_index
running = 0

abbrev after_create : Service
after_create = (create quiet runtime "buyer-1" "buyer" "k" (lamps 2) opened).1

abbrev two_lamps : Order
two_lamps = record {
  id = "order-5";
  buyer_id = "buyer-1";
  seller_id = "seller-1";
  items = record { listing_id = "listing-1"; quantity = 2; price_cents = 100 } ∷ [];
  total_cents = 200;
  status = ApiStatus.paid;
}

abbrev created : Created
created = record { order = two_lamps; location = "/v1/orders/order-5"; replay = false }

creates : create quiet runtime "buyer-1" "buyer" "k" (lamps 2) opened ≡ (ok created, after_create)
unfolding running
creates = refl

-- The listing, the stock and the rating job of the order.
created_state :
    (Option.map (λ l. l.quantity) (lookup "listing-1" after_create.store.listings) ≡ some 10)
    × (Option.map (λ p. p.stock) (lookup "7" after_create.world.db.products) ≡ some 3)
    × (after_create.recalcs ≡ ("5", "7" ∷ []) ∷ [])
unfolding running
created_state = (refl, refl, refl)

-- A restart of the server loses the store; the key is found in the database.
abbrev restarted : Service
restarted = record after_create { store = new_store }

replay_after_restart :
    (create quiet runtime "buyer-1" "buyer" "k" (lamps 2) restarted).0
    ≡ ok (record created { replay = true })
unfolding running
replay_after_restart = refl

create_again_example :
    create quiet runtime "buyer-1" "buyer" "k" (lamps 3) after_create
    ≡ (err (problem idempotency_conflict), after_create)
unfolding show_nat
create_again_example =
    create_again quiet runtime "buyer-1" "buyer" "k" (lamps 2) (lamps 3) opened after_create created
      creates

-- Too many for the stock.
abbrev short : Service
short = (create quiet runtime "buyer-1" "buyer" "k" (lamps 6) opened).1

refused :
    create quiet runtime "buyer-1" "buyer" "k" (lamps 6) opened
    ≡ (err (problem (sold_out "One or more listings do not have enough quantity")), short)
unfolding running
refused = refl

create-err_example : Kept opened short
create-err_example =
    create-err quiet runtime "buyer-1" "buyer" "k" (lamps 6) opened short
      (problem (sold_out "One or more listings do not have enough quantity")) refused

abbrev shipped : Service
shipped = (update_status quiet runtime "4" "seller-1" "seller" "shipped" opened).1

ships :
    update_status quiet runtime "4" "seller-1" "seller" "shipped" opened ≡ (ok "order-4", shipped)
unfolding running
ships = refl

update_status-ok_example :
    (loaded : Loaded) × (u : Service) × (st : OrderStatus) × IsUpdate quiet runtime
      (λ n db. refl)
      "4"
      "seller-1"
      "seller"
      "shipped"
      "order-4"
      opened
      shipped
      loaded
      u
      st
update_status-ok_example =
    update_status-ok quiet runtime (λ n db. refl) "4" "seller-1" "seller" "shipped" "order-4" opened
      shipped ships

-- A buyer of another order.
abbrev stranger : Service
stranger = (update_status quiet runtime "4" "buyer-2" "buyer" "shipped" opened).1

abbrev no_access : OrdersError
no_access = problem (forbidden "You do not have access to this order" "/orders/4/status")

refuses_stranger :
    update_status quiet runtime "4" "buyer-2" "buyer" "shipped" opened ≡ (err no_access, stranger)
unfolding running
refuses_stranger = refl

update_status-err_example : Kept opened stranger
update_status-err_example =
    update_status-err quiet runtime "4" "buyer-2" "buyer" "shipped" opened stranger no_access
      refuses_stranger

abbrev read : Service
read = (load_authorized_order quiet runtime "order-4" "buyer-1" "buyer" none opened).1

abbrev the_order : Loaded
the_order = record {
  canonical_id = "order-4";
  order = record {
    id = "order-4";
    buyer_id = "buyer-1";
    seller_id = "seller-1";
    items = record { listing_id = "listing-1"; quantity = 1; price_cents = 100 } ∷ [];
    total_cents = 100;
    status = ApiStatus.paid;
  };
  row = record {
    id = 4;
    row = record { user_id = "3"; status = OrderStatus.paid; total_cents = 100 };
    user = owner_of "3" market;
    items = map (join_item market) market.order_items;
  };
}

reads :
    load_authorized_order quiet runtime "order-4" "buyer-1" "buyer" none opened
    ≡ (ok the_order, read)
unfolding running
reads = refl

load_authorized_order-ok_example :
    IsLoad quiet runtime "order-4" "buyer-1" "buyer" opened the_order read
load_authorized_order-ok_example =
    load_authorized_order-ok quiet runtime "order-4" "buyer-1" "buyer" none opened read the_order
      reads

-- A shipped order is shown as created.
shows_shipped :
    (get_by_id quiet runtime "4" "buyer-1" "buyer" shipped).0
    ≡ ok (record the_order.order { status = ApiStatus.created })
unfolding running get_by_id
shows_shipped = refl

one_room : canonical_order_id "7" ≡ canonical_order_id "order-7"
unfolding running
one_room = refl

canonical_order_id_iff_example :
    (canonical_order_id "7" ≡ canonical_order_id "order-7")
    ↔ (to_db_order_id "7" ≡ to_db_order_id "order-7")
canonical_order_id_iff_example = canonical_order_id_iff "7" "order-7"

parse_last_event_id-show_nat_example : parse_last_event_id (λ s. s) (some (show_nat 17)) ≡ some 17
parse_last_event_id-show_nat_example = parse_last_event_id-show_nat (λ s. s) 17 refl

-- The largest cursor, and the first header that is none.
largest : parse_last_event_id (λ s. s) (some "9007199254740991") ≡ some 9007199254740991
unfolding parse_last_event_id decimal starts_zero all_digits
largest = refl

too_large : parse_last_event_id (λ s. s) (some "9007199254740992") ≡ none
unfolding parse_last_event_id decimal starts_zero all_digits
too_large = refl

abbrev one_change : List (String × String)
one_change = ("order-4", "shipped") ∷ []

abbrev announced : Service
announced = record opened { bus = publish_all one_change empty }

abbrev resumed : Result OrdersError (List String) × Service
resumed =
    stream_events quiet runtime (λ s. s) (λ j. "{}") (emitted one_change announced.bus) "4"
      (some (show_nat 1)) (some "buyer-1") (some "buyer") announced

abbrev written : List String
written = "retry: 1000\n\n" ∷ "id: 2\n" ∷ "event: order.status\n" ∷ "data: {}\n\n" ∷ []

resumes : resumed ≡ (ok written, resumed.1)
unfolding running publish_all emitted replay_after changes starts_zero decimal
resumes = refl

seen : 1 ≤ length (statuses_for (canonical_order_id "4") one_change)
unfolding running
seen = omega arith

near : length (statuses_for (canonical_order_id "4") one_change) ≤ 1 + buffer_limit
unfolding running
near = omega arith

stream_events-resumes_example :
    written
    ≡ "retry: 1000\n\n"
      ∷ write_frames
          (λ j. "{}")
          (after 1 (events_for (canonical_order_id "4") (one_change ++ one_change)))
stream_events-resumes_example =
    stream_events-resumes quiet runtime (λ s. s) (λ j. "{}") one_change one_change "4" "buyer-1"
      "buyer" 1 announced resumed.1 written refl (omega arith) seen near refl resumes
