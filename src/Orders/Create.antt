-- ===== src/Orders/Create.antt =====
-- src/orders/orders.service.ts, `create`, and the jobs of src/queue/rating-queue.service.ts: an
-- order of a buyer from the listings of the store. Quantities are positive integers, which the
-- contract of the API checks before.
mod Items
unfoldable pub use Items.*
use marketplace_template.Prelude.{
  ℕ, suc, ◌-◌, String, Bool, true, false, Option, none, some, List, [], ◌∷◌, ◌++◌, map, ◌==◌,
  text_eq, if◌then◌else◌, ◌<>◌, get_elem?, Table, lookup, put, Result, ok, err, ◌>>=◌, ◌>>◌, pure,
  throw, gets, modify, require,
}
use marketplace_template.Db.{Db, Product, UserRole}
use marketplace_template.Checkout.Order.{CheckoutItemInput}
use marketplace_template.Checkout.Tables.{out_of_stock, insufficient_funds, key_conflict}
use marketplace_template.Checkout.{Turn, CheckoutInput, CheckoutResult, select, checkout, or_empty}
use marketplace_template.RateLimit.{ProblemException}
use marketplace_template.Store.{
  Listing, ListingStatus, Order, OrderItem, ApiStatus, IdempotencyRecord,
}
use marketplace_template.Orders.Rows.{Owner}
use marketplace_template.Orders.Service.{
  Runtime, OrdersError, problem, failed, Service, Api, on_world, forbidden, resolve_user,
  load_authorized_order,
}

module _ (env : ℕ → Turn) (rt : Runtime Body) where
  unfoldable pub resolve_listing : Option String → OrderLine → Option Listing → Api ResolvedItem
  unfolding listing_not_found mixed_seller on_world matching_product resolved_item
  resolve_listing seller item none = throw (
      problem
        (listing_not_found ("Listing " <> item.listing_id <> " does not exist or is not active")))
  resolve_listing seller item (some listing) = do
    require (fits seller listing.seller_id) (problem mixed_seller)
    product ← on_world (select env (matching_product rt listing))
    resolved_item item listing product

  -- One round of the loop over the items.
  unfoldable pub resolve_item : Option String → OrderLine → Api ResolvedItem
  unfolding resolve_listing
  resolve_item seller item = do
    listed ← gets (λ s. on_sale (lookup item.listing_id s.store.listings))
    resolve_listing seller item listed

  unfoldable pub resolve_items :
      List OrderLine → Option String → List ResolvedItem → Api (Option String × List ResolvedItem)
  unfolding resolve_item
  resolve_items [] seller resolved = pure (seller, resolved)
  resolve_items (item ∷ items) seller resolved = do
    next ← resolve_item seller item
    resolve_items items (some next.seller_id) (resolved ++ next ∷ [])

  -- The checkout found a committed order under the key.
  unfoldable pub finish_replay : String → String → String → String → String → Api Created
  unfolding remember load_authorized_order
  finish_replay user_id role cache_key body_hash order_id = do
    loaded ← load_authorized_order env rt ("order-" <> order_id) user_id role none
    modify (remember cache_key body_hash loaded.order)
    pure (record {
      order = loaded.order;
      location = "/v1/orders/" <> loaded.order.id;
      replay = true;
    })

  unfoldable pub finish_new : String → String → Order → String → List ResolvedItem → Api Created
  unfolding remember record_order
  finish_new cache_key body_hash order order_id resolved = do
    modify (record_order order order_id resolved)
    modify (remember cache_key body_hash order)
    pure (record { order = order; location = "/v1/orders/" <> order.id; replay = false })

  -- What follows the checkout.
  unfoldable pub finish :
      String
      → String
      → String
      → String
      → Option String
      → List ResolvedItem
      → CheckoutResult
      → Api Created
  unfolding finish_replay finish_new new_order
  finish user_id role cache_key body_hash seller resolved result =
      if result.replay
      then finish_replay user_id role cache_key body_hash result.order_id
      else finish_new cache_key body_hash (new_order user_id seller resolved result) result.order_id
          resolved

  -- The call of `checkout`, and the `catch` around it.
  unfoldable pub place_order : List ResolvedItem → String → String → Owner → Api CheckoutResult
  unfolding checkout_problem checkout on_world order_input
  place_order resolved key body_hash buyer s =
      catch_checkout (on_world (checkout env (order_input resolved key body_hash buyer)) s)

  unfoldable pub create_for :
      String
      → String
      → String
      → String
      → String
      → Option String × List ResolvedItem
      → Option Owner
      → Api Created
  unfolding finish place_order
  create_for user_id role key cache_key body_hash found none = throw (
      problem (
        forbidden ("Unknown buyer " <> user_id <> "; use seed alias (buyer-1) or email")
          "/v1/orders"))
  create_for user_id role key cache_key body_hash (seller, resolved) (some buyer) = do
    result ← place_order resolved key body_hash buyer
    finish user_id role cache_key body_hash seller resolved result

  unfoldable pub create_new : String → String → String → String → String → Body → Api Created
  unfolding resolve_items resolve_user create_for
  create_new user_id role key cache_key body_hash body = do
    found ← resolve_items body.items none []
    buyer ← resolve_user env rt user_id UserRole.buyer
    create_for user_id role key cache_key body_hash found buyer

  unfoldable pub create : String → String → String → Body → Api Created
  unfolding replay_cached create_new
  create user_id role key body = do
    require (role == "buyer") (problem (forbidden "Only buyers can create orders" "/v1/orders"))
    cached ← gets (λ s. lookup (user_id <> ":" <> key) s.store.idempotency_store)
    elim cached [
      | some found ↦ replay_cached (rt.hash_body body) found
      | none ↦ create_new user_id role key (user_id <> ":" <> key) (rt.hash_body body) body
    ]
