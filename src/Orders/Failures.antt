-- ===== src/Orders/Failures.antt =====
-- A request that fails leaves the maps of the store, the event bus and the rating queue as they
-- were.
use marketplace_template.Prelude.{
  inl, inr, ℕ, String, ◌≡◌, refl, subst, Bool, true, false, Option, none, some, List, [], ◌∷◌, ◌++◌,
  arith, ◌==◌, text_eq, Bool-cases, Option-cases, Result, Result-cases, ok, err, ◌>>=◌,
  continue-err, require, lookup, ◌<>◌,
}
use marketplace_template.Db.{Product, UserRole}
use marketplace_template.Checkout.{Turn, CheckoutResult, select, checkout, transaction}
use marketplace_template.Store.{Listing, IdempotencyRecord}
use marketplace_template.Orders.Rows.{Owner}
use marketplace_template.Orders.Service.{
  Runtime, OrdersError, Service, Api, on_world, load_authorized_order, resolve_user, update_status,
  update_order_status, has, allowed_statuses,
}
use marketplace_template.Orders.Create.{
  Body, OrderLine, ResolvedItem, on_sale, fits, order_input, resolved_item, matching_product,
  resolve_listing, resolve_item, resolve_items, create_for, catch_checkout, finish, finish_replay,
  finish_new, place_order, create_new, create, replay_cached,
}
use marketplace_template.Orders.Access.{
  Kept, Kept-trans, on_world-Kept, resolve_user-Keeps, load_authorized_order-Keeps,
}

-- A part of a request that keeps all, whatever it returns, and one that does when it throws.
abbrev KeepsAll : {A : Type 0} → Api A → Type 0
KeepsAll m = (s : Service) → Kept s (m s).1

abbrev Fails : {A : Type 0} → Api A → Type 0
Fails m = (s t : Service) (x : OrdersError) → m s ≡ (err x, t) → Kept s t

KeepsAll-Fails : {A : Type 0} (m : Api A) → KeepsAll m → Fails m
KeepsAll-Fails m h s t x e = subst (λ p. Kept s p.1) e (h s)

Fails-bind :
    {A B : Type 0} (m : Api A) (f : A → Api B)
    → KeepsAll m
    → ((a : A) → Fails (f a))
    → Fails (m >>= f)
Fails-bind m f hm hf s t x h = elim (continue-err f (m s) h) [
  | inl e ↦ KeepsAll-Fails m hm s t x e
  | inr (a, u, e, k) ↦ Kept-trans s u t (subst (λ p. Kept s p.1) e (hm s)) (hf a u t x k)
]

KeepsAll-bind :
    {A B : Type 0} (m : Api A) (f : A → Api B)
    → KeepsAll m
    → ((a : A) → KeepsAll (f a))
    → KeepsAll (m >>= f)
KeepsAll-bind m f hm hf s = elim (Result-cases (m s)) [
  | inl (a, t, e) ↦ rw e (Kept-trans s t (f a t).1 (subst (λ p. Kept s p.1) e (hm s)) (hf a t))
  | inr (x, t, e) ↦ rw e (subst (λ p. Kept s p.1) e (hm s))
]

KeepsAll-require : (b : Bool) (x : OrdersError) → KeepsAll (require b x)
KeepsAll-require true x s = (refl, refl, refl)
KeepsAll-require false x s = (refl, refl, refl)

resolved_item-Keeps :
    (item : OrderLine) (listing : Listing) (product : Option (String × Product))
    → KeepsAll (resolved_item item listing product)
unfolding resolved_item
resolved_item-Keeps item listing none s = (refl, refl, refl)
resolved_item-Keeps item listing (some (id, p)) s = (refl, refl, refl)

catch-Kept :
    {A : Type 0} (s : Service) (p : Result OrdersError A × Service)
    → Kept s p.1
    → Kept s (catch_checkout p).1
catch-Kept s (ok a, t) h = h
catch-Kept s (err x, t) h = h

replay_cached-Fails :
    (body_hash : String) (cached : IdempotencyRecord) → Fails (replay_cached body_hash cached)
unfolding replay_cached
replay_cached-Fails body_hash cached = KeepsAll-Fails (replay_cached body_hash cached) (λ s.
    elim (Bool-cases (cached.body_hash == body_hash)) [
      | inl e ↦ rw (replay_cached, e) (refl, refl, refl)
      | inr e ↦ rw (replay_cached, e) (refl, refl, refl)
    ])

module _ {B : Type 0} (env : ℕ → Turn) (rt : Runtime B) where
  loads :
      (id user_id role : String) (path : Option String)
      → KeepsAll (load_authorized_order env rt id user_id role path)
  loads id user_id role path =
      load_authorized_order-Keeps env rt Kept (λ s. (refl, refl, refl)) Kept-trans
        (λ A read s. on_world-Kept (select env read) s) id user_id role path

  resolves : (user_id : String) (role : UserRole) → KeepsAll (resolve_user env rt user_id role)
  resolves user_id role =
      resolve_user-Keeps env rt Kept (λ s. (refl, refl, refl)) Kept-trans
        (λ A read s. on_world-Kept (select env read) s) user_id role

  -- A change of status that fails announces nothing.
  pub update_status-err :
      (id user_id role status : String) (s t : Service) (x : OrdersError)
      → update_status env rt id user_id role status s ≡ (err x, t)
      → Kept s t
  unfolding update_status
  update_status-err id user_id role status =
      Fails-bind (require (has allowed_statuses status) _) _ (KeepsAll-require _ _) (λ a.
        Fails-bind
          (load_authorized_order env rt id user_id role (some ("/orders/" <> id <> "/status"))) _
          (loads id user_id role (some ("/orders/" <> id <> "/status")))
          (λ loaded.
            Fails-bind
              (on_world (transaction env (λ turn. update_order_status status loaded.row.id))) _
              (on_world-Kept _) (λ b s t x h. ground arith)))

module _ (env : ℕ → Turn) (rt : Runtime Body) where
  resolve_listing-Keeps :
      (seller : Option String) (item : OrderLine) (listed : Option Listing)
      → KeepsAll (resolve_listing env rt seller item listed)
  unfolding resolve_listing
  resolve_listing-Keeps seller item none = λ s. (refl, refl, refl)
  resolve_listing-Keeps seller item (some listing) =
      KeepsAll-bind (require (fits seller listing.seller_id) _) _ (KeepsAll-require _ _) (λ a.
        KeepsAll-bind (on_world (select env (matching_product rt listing))) _ (on_world-Kept _)
          (resolved_item-Keeps item listing))

  resolve_items-Keeps :
      (items : List OrderLine) (seller : Option String) (resolved : List ResolvedItem)
      → KeepsAll (resolve_items env rt items seller resolved)
  unfolding resolve_items resolve_item
  resolve_items-Keeps [] seller resolved = λ s. (refl, refl, refl)
  resolve_items-Keeps (item ∷ items) seller resolved =
      KeepsAll-bind (resolve_item env rt seller item) _
        (λ s.
          resolve_listing-Keeps seller item (on_sale (lookup item.listing_id s.store.listings)) s)
        (λ next. resolve_items-Keeps items (some next.seller_id) (resolved ++ next ∷ []))

  finish-Fails :
      (user_id role cache_key body_hash : String) (seller : Option String)
      (resolved : List ResolvedItem) (result : CheckoutResult)
      → Fails (finish env rt user_id role cache_key body_hash seller resolved result)
  unfolding finish finish_replay finish_new
  finish-Fails user_id role cache_key body_hash seller resolved result s t x h =
      elim (Bool-cases result.replay) [
        | inl e ↦
            Fails-bind
              (load_authorized_order env rt ("order-" <> result.order_id) user_id role none) _
              (loads env rt ("order-" <> result.order_id) user_id role none)
              (λ loaded u v y k. ground arith) s t x (rw (finish, e) at h)
        | inr e ↦ absurd (let h' = rw (finish, e) at h in ground arith)
      ]

  place_order-Keeps :
      (resolved : List ResolvedItem) (key body_hash : String) (buyer : Owner)
      → KeepsAll (place_order env rt resolved key body_hash buyer)
  unfolding place_order
  place_order-Keeps resolved key body_hash buyer s =
      catch-Kept s (on_world (checkout env (order_input resolved key body_hash buyer)) s)
        (on_world-Kept (checkout env (order_input resolved key body_hash buyer)) s)

  create_for-Fails :
      (user_id role key cache_key body_hash : String) (found : Option String × List ResolvedItem)
      (buyer : Option Owner)
      → Fails (create_for env rt user_id role key cache_key body_hash found buyer)
  unfolding create_for
  create_for-Fails user_id role key cache_key body_hash found none =
      KeepsAll-Fails (create_for env rt user_id role key cache_key body_hash found none)
        (λ u. (refl, refl, refl))
  create_for-Fails user_id role key cache_key body_hash (seller, resolved) (some buyer) =
      Fails-bind (place_order env rt resolved key body_hash buyer) _
        (place_order-Keeps resolved key body_hash buyer)
        (finish-Fails user_id role cache_key body_hash seller resolved)

  create_new-Fails :
      (user_id role key cache_key body_hash : String) (body : Body)
      → Fails (create_new env rt user_id role key cache_key body_hash body)
  unfolding create_new
  create_new-Fails user_id role key cache_key body_hash body =
      Fails-bind (resolve_items env rt body.items none []) _
        (resolve_items-Keeps body.items none [])
        (λ found.
          Fails-bind (resolve_user env rt user_id UserRole.buyer) _
            (resolves env rt user_id UserRole.buyer)
            (create_for-Fails user_id role key cache_key body_hash found))

  -- An order that is not created leaves the listings, the orders and the idempotency records of
  -- the store, the event bus and the rating jobs as they were.
  pub create-err :
      (user_id role key : String) (body : Body) (s t : Service) (x : OrdersError)
      → create env rt user_id role key body s ≡ (err x, t)
      → Kept s t
  unfolding create
  create-err user_id role key body =
      Fails-bind (require (role == "buyer") _) _ (KeepsAll-require _ _) (λ a s t x h.
        elim (Option-cases (lookup (user_id <> ":" <> key) s.store.idempotency_store)) [
          | inl e ↦
              create_new-Fails user_id role key (user_id <> ":" <> key) (rt.hash_body body) body s t
                x (rw e at h)
          | inr (cached, e) ↦ replay_cached-Fails (rt.hash_body body) cached s t x (rw e at h)
        ])
