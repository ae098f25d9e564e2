-- ===== src/Orders/Once.antt =====
-- One Idempotency-Key, one order: what a second request with the key is answered.
use marketplace_template.Prelude.{
  inl, inr, ℕ, String, ◌≡◌, refl, sym, ap, subst, ◌∙◌, Bool, true, false, Option, none, some, List,
  [], arith, ◌==◌, text_eq, eq_iff, Bool-cases, Option-cases, Result, ok, err, ◌>>=◌, continue-ok,
  pure-ok, require-ok, require, lookup, lookup-put_self, ◌<>◌, if◌then◌else◌,
}
use marketplace_template.Db.{UserRole}
use marketplace_template.Checkout.{Turn, CheckoutResult}
use marketplace_template.Store.{Order, IdempotencyRecord}
use marketplace_template.Orders.Rows.{Owner}
use marketplace_template.Orders.Service.{
  Runtime, OrdersError, problem, Service, Api, load_authorized_order, resolve_user,
}
use marketplace_template.Orders.Create.{
  Body, ResolvedItem, Created, remember, record_order, new_order, finish, finish_replay, finish_new,
  place_order, create_for, create_new, create, replay_cached, resolve_items, idempotency_conflict,
}

-- The record that the second request finds.
abbrev record_of : String → Created → IdempotencyRecord
record_of body_hash created = record {
  body_hash = body_hash;
  location = created.location;
  body = created.order;
}

-- A part of a request that leaves the record of what it returns.
abbrev Remembers : String → String → Api Created → Type 0
Remembers cache_key body_hash m =
    (s t : Service) (created : Created)
    → m s ≡ (ok created, t)
    → lookup cache_key t.store.idempotency_store ≡ some (record_of body_hash created)

Remembers-bind :
    {A : Type 0} (cache_key body_hash : String) (m : Api A) (f : A → Api Created)
    → ((a : A) → Remembers cache_key body_hash (f a))
    → Remembers cache_key body_hash (m >>= f)
Remembers-bind cache_key body_hash m f h s t created e =
    let (a, u, k, k') = continue-ok f (m s) e in h a u t created k'

-- The end of a request: an order is remembered and returned.
remembered :
    (cache_key body_hash : String) (order : Order) (replay : Bool) (s t : Service)
    (created : Created)
    → (let r : Result OrdersError Created × Service = (
      ok (record { order = order; location = "/v1/orders/" <> order.id; replay = replay }),
      remember cache_key body_hash order s,
    ) in
        r)
      ≡ (ok created, t)
    → lookup cache_key t.store.idempotency_store ≡ some (record_of body_hash created)
unfolding remember
remembered cache_key body_hash order replay s t created h =
    let answer : Created = record {
      order = order;
      location = "/v1/orders/" <> order.id;
      replay = replay;
    } in
    let (value, same) = pure-ok answer (remember cache_key body_hash order s) t h in
    subst
      (λ (v : Service).
        lookup cache_key v.store.idempotency_store ≡ some (record_of body_hash created))
      (sym same)
      (subst
        (λ (c : Created).
          lookup cache_key (remember cache_key body_hash order s).store.idempotency_store
          ≡ some (record_of body_hash c))
        (sym value)
        (lookup-put_self cache_key (record_of body_hash answer) s.store.idempotency_store))

-- The record was there, and stays.
cached-Remembers :
    (cache_key body_hash : String) (cached : IdempotencyRecord) (s t : Service) (created : Created)
    → lookup cache_key s.store.idempotency_store ≡ some cached
    → replay_cached body_hash cached s ≡ (ok created, t)
    → lookup cache_key t.store.idempotency_store ≡ some (record_of body_hash created)
unfolding replay_cached
cached-Remembers cache_key body_hash cached s t created there h =
    elim (Bool-cases (cached.body_hash == body_hash)) [
      | inr e ↦ absurd (let h' = rw (replay_cached, e) at h in ground arith)
      | inl e ↦
          let h' = rw (replay_cached, e) at h in
          let answer : Created = record {
            order = cached.body;
            location = cached.location;
            replay = true;
          } in
          let (value, same) = pure-ok answer s t h' in
          ap (λ (v : Service). lookup cache_key v.store.idempotency_store) same
          ∙ there
          ∙ ap
              (λ d. some (record { body_hash = d; location = cached.location; body = cached.body }))
              ((eq_iff cached.body_hash body_hash).0 e)
          ∙ ap (λ (c : Created). some (record_of body_hash c)) (sym value)
    ]

-- The answer to a request whose record is there.
replay_cached-record :
    (body_hash hash' : String) (created : Created) (t : Service)
    → replay_cached hash' (record_of body_hash created) t ≡ (
      if body_hash == hash'
          then ok (record created { replay = true })
          else err (problem idempotency_conflict),
      t,
    )
unfolding replay_cached
replay_cached-record body_hash hash' created t = elim (Bool-cases (body_hash == hash')) [
  | inl e ↦ rw (replay_cached, e) refl
  | inr e ↦ rw (replay_cached, e) refl
]

module _ (env : ℕ → Turn) (rt : Runtime Body) where
  finish-Remembers :
      (user_id role cache_key body_hash : String) (seller : Option String)
      (resolved : List ResolvedItem) (result : CheckoutResult)
      → Remembers cache_key body_hash
          (finish env rt user_id role cache_key body_hash seller resolved result)
  unfolding finish finish_replay finish_new
  finish-Remembers user_id role cache_key body_hash seller resolved result s t created h =
      elim (Bool-cases result.replay) [
        | inl e ↦
            Remembers-bind cache_key body_hash
              (load_authorized_order env rt ("order-" <> result.order_id) user_id role none) _
              (λ loaded u v c k. remembered cache_key body_hash loaded.order true u v c k) s t
              created (rw (finish, e) at h)
        | inr e ↦
            let order = new_order user_id seller resolved result in
            remembered cache_key body_hash order false
              (record_order order result.order_id resolved s) t created (rw (finish, e) at h)
      ]

  create_for-Remembers :
      (user_id role key cache_key body_hash : String) (found : Option String × List ResolvedItem)
      (buyer : Option Owner)
      → Remembers cache_key body_hash
          (create_for env rt user_id role key cache_key body_hash found buyer)
  unfolding create_for
  create_for-Remembers user_id role key cache_key body_hash found none =
      λ s t created h. absurd (ground arith)
  create_for-Remembers user_id role key cache_key body_hash (seller, resolved) (some buyer) =
      Remembers-bind cache_key body_hash (place_order env rt resolved key body_hash buyer) _
        (finish-Remembers user_id role cache_key body_hash seller resolved)

  create-Remembers :
      (user_id role key : String) (body : Body)
      → Remembers (user_id <> ":" <> key) (rt.hash_body body) (create env rt user_id role key body)
  unfolding create create_new replay_cached
  create-Remembers user_id role key body s t created h =
      let cache_key = user_id <> ":" <> key in
      let body_hash = rt.hash_body body in
      let (a, u, e, k) = continue-ok _ (require (role == "buyer") _ s) h in
      elim (Option-cases (lookup cache_key u.store.idempotency_store)) [
        | inl missing ↦
            let k' = rw missing at k in
            Remembers-bind cache_key body_hash (resolve_items env rt body.items none []) _
              (λ found.
                Remembers-bind cache_key body_hash (resolve_user env rt user_id UserRole.buyer) _
                  (λ buyer. create_for-Remembers user_id role key cache_key body_hash found buyer))
              u t created k'
        | inr (cached, there) ↦
            let k' = rw there at k in
            cached-Remembers cache_key body_hash cached u t created there k'
      ]

  -- After a request that created or replayed an order, a request of the same user with the same
  -- Idempotency-Key gets that order and its location again, marked as a replay, if the body has
  -- the same hash, and a 422 if it has another; neither changes anything.
  pub create_again :
      (user_id role key : String) (body body' : Body) (s t : Service) (created : Created)
      → create env rt user_id role key body s ≡ (ok created, t)
      → create env rt user_id role key body' t ≡ (
        if rt.hash_body body == rt.hash_body body'
            then ok (record created { replay = true })
            else err (problem idempotency_conflict),
        t,
      )
  unfolding create
  create_again user_id role key body body' s t created h =
      let there = create-Remembers user_id role key body s t created h in
      let (a, u, e, k) = continue-ok _ (require (role == "buyer") _ s) h in
      let (is, same) = require-ok (role == "buyer") _ s u e in
      rw (create, is, there)
        (replay_cached-record (rt.hash_body body) (rt.hash_body body') created t)
