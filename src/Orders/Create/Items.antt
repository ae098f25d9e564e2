-- ===== src/Orders/Create/Items.antt =====
-- src/orders/orders.service.ts, `create`: its data, its errors, and what it computes and writes
-- without a call of the database.
use marketplace_template.Prelude.{
  ℕ, suc, ◌-◌, String, Bool, true, false, Option, none, some, List, [], ◌∷◌, ◌++◌, map, ◌==◌,
  text_eq, if◌then◌else◌, ◌<>◌, get_elem?, Table, lookup, put, Result, ok, err, pure, throw,
}
use marketplace_template.Db.{Db, Product}
use marketplace_template.Checkout.Order.{CheckoutItemInput}
use marketplace_template.Checkout.Tables.{out_of_stock, insufficient_funds, key_conflict}
use marketplace_template.Checkout.{CheckoutInput, CheckoutResult, or_empty}
use marketplace_template.RateLimit.{ProblemException}
use marketplace_template.Store.{
  Listing, ListingStatus, Order, OrderItem, ApiStatus, IdempotencyRecord,
}
use marketplace_template.Orders.Rows.{Owner}
use marketplace_template.Orders.Service.{Runtime, OrdersError, problem, failed, Service, Api}

pub record OrderLine : Type 0 where
  pub listing_id : String
  pub quantity : ℕ

pub record Body : Type 0 where
  pub items : List OrderLine

pub record ResolvedItem : Type 0 where
  pub listing_id : String
  pub quantity : ℕ
  pub price_cents : ℕ
  pub product_id : String
  pub seller_id : String

pub record Created : Type 0 where
  pub order : Order
  pub location : String
  pub replay : Bool

abbrev on_orders : ℕ → String → String → String → ProblemException
on_orders status kind title detail = record {
  status = status;
  type = "https://marketplace.local/problems/" <> kind;
  title = title;
  detail = detail;
  instance_url = "/v1/orders";
}

unfoldable pub idempotency_conflict : ProblemException
idempotency_conflict =
    on_orders 422 "idempotency-key-conflict" "Idempotency key conflict"
      "Same Idempotency-Key was reused with a different request body"

unfoldable pub listing_not_found : String → ProblemException
listing_not_found detail = on_orders 404 "listing-not-found" "Listing not found" detail

unfoldable pub mixed_seller : ProblemException
mixed_seller =
    on_orders 422 "mixed-seller-order" "Mixed seller order"
      "All order items must belong to the same seller"

unfoldable pub sold_out : String → ProblemException
sold_out detail = on_orders 409 "out-of-stock" "Out of stock" detail

-- The errors of `checkout` that the API has an answer to; any other goes on.
unfoldable pub checkout_problem : OrdersError → OrdersError
unfolding idempotency_conflict sold_out
checkout_problem (failed key_conflict) = problem idempotency_conflict
checkout_problem (failed out_of_stock) =
    problem (sold_out "One or more listings do not have enough quantity")
checkout_problem (failed insufficient_funds) =
    problem (sold_out "Insufficient buyer balance for this order")
checkout_problem e = e

abbrev pub catch_checkout :
    {A : Type 0} → Result OrdersError A × Service → Result OrdersError A × Service
catch_checkout (ok a, s) = (ok a, s)
catch_checkout (err e, s) = (err (checkout_problem e), s)

abbrev pub on_sale : Option Listing → Option Listing
on_sale none = none
on_sale (some listing) = elim listing.status [
  | ListingStatus.active ↦ some listing
  | ListingStatus.archived ↦ none
]

-- `sellerId === null`, or the same seller.
abbrev pub fits : Option String → String → Bool
fits none seller = true
fits (some first) seller = first == seller

-- The first product that a test accepts, with its key.
unfoldable pub find_product : (Product → Bool) → Table String Product → Option (String × Product)
find_product test [] = none
find_product test ((id, p) ∷ products) = if test p then some (id, p) else find_product test products

-- `listing.quantity = Math.max(0, listing.quantity - item.quantity)` for each resolved item.
unfoldable pub take_listed : List ResolvedItem → Table String Listing → Table String Listing
take_listed [] listings = listings
take_listed (item ∷ items) listings = elim (lookup item.listing_id listings) [
  | none ↦ take_listed items listings
  | some listing ↦ take_listed items (
      put item.listing_id (record listing { quantity = listing.quantity - item.quantity }) listings)
]

-- `result.unitPrices[index] ?? item.price_cents`
abbrev pub price_or : Option (Option ℕ) → ℕ → ℕ
price_or (some (some price)) other = price
price_or _ other = other

unfoldable pub bought_items : ℕ → List (Option ℕ) → List ResolvedItem → List OrderItem
bought_items index prices [] = []
bought_items index prices (item ∷ items) =
    record {
      listing_id = item.listing_id;
      quantity = item.quantity;
      price_cents = price_or (get_elem? prices index) item.price_cents;
    }
    ∷ bought_items (suc index) prices items

abbrev pub checkout_items : List ResolvedItem → List CheckoutItemInput
checkout_items = map (λ item. record { product_id = item.product_id; quantity = item.quantity })

unfoldable pub order_input : List ResolvedItem → String → String → Owner → CheckoutInput
order_input resolved key body_hash buyer = record {
  user_id = buyer.id;
  items = checkout_items resolved;
  idempotency_key = some key;
  request_hash = some body_hash;
  fail_after_outbox = false;
}

unfoldable pub new_order : String → Option String → List ResolvedItem → CheckoutResult → Order
unfolding bought_items
new_order user_id seller resolved result = record {
  id = "order-" <> result.order_id;
  buyer_id = user_id;
  seller_id = or_empty seller;
  items = bought_items 0 result.unit_prices resolved;
  total_cents = result.total_cents;
  status = ApiStatus.paid;
}

-- `idempotencyStore.set`
unfoldable pub remember : String → String → Order → Service → Service
remember cache_key body_hash order s = record s {
  store = record s.store {
    idempotency_store =
        put cache_key
          (record { body_hash = body_hash; location = "/v1/orders/" <> order.id; body = order })
          s.store.idempotency_store;
  };
}

-- The listings, the order and the rating jobs of a committed checkout.
unfoldable pub record_order : Order → String → List ResolvedItem → Service → Service
unfolding take_listed
record_order order order_id resolved s = record s {
  store = record s.store {
    listings = take_listed resolved s.store.listings;
    orders = put order.id order s.store.orders;
  };
  recalcs = s.recalcs ++ (order_id, map (λ item. item.product_id) resolved) ∷ [];
}

unfoldable pub replay_cached : String → IdempotencyRecord → Api Created
replay_cached body_hash cached =
    if cached.body_hash == body_hash
    then pure (record { order = cached.body; location = cached.location; replay = true })
    else throw (problem idempotency_conflict)

-- The row of `resolved` for a listing and its product.
unfoldable pub resolved_item : OrderLine → Listing → Option (String × Product) → Api ResolvedItem
unfolding listing_not_found
resolved_item item listing none =
    throw (problem (listing_not_found ("No catalog product matches listing " <> item.listing_id)))
resolved_item item listing (some (id, p)) = pure (record {
  listing_id = listing.id;
  quantity = item.quantity;
  price_cents = p.price_cents;
  product_id = id;
  seller_id = listing.seller_id;
})

-- `where: { name: ILike(listing.title), isActive: true }`, in the order of the table.
unfoldable pub matching_product : Runtime Body → Listing → Db → Option (String × Product)
unfolding find_product
matching_product rt listing db =
    find_product (λ p. if p.is_active then rt.ilike p.name listing.title else false) db.products
