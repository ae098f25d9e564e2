-- ===== src/Listings/Owner.antt =====
-- Only its seller changes a listing.
use marketplace_template.Prelude.{
  inl, inr, ◌⊎◌, String, ◌≡◌, refl, sym, ap, ◌∙◌, some, arith, ◌==◌, text_eq, eq_iff, if◌then◌else◌,
  ◌<>◌, Bool-cases, Option-cases, lookup, put, lookup-put, lookup-put_self, ok, err, pure-ok,
}
use marketplace_template.RateLimit.{ProblemException}
use marketplace_template.Orders.Service.{forbidden}
use marketplace_template.Store.{Listing, active, StoreService, to_public_listing}
use marketplace_template.Listings.{
  listing_missing, ListingBody, ListingPatch, get_listing, create_listing, update_listing, assign,
}

abbrev refusal : String → ProblemException
refusal id = forbidden "Only the listing owner can update it" ("/v1/listings/" <> id)

assigned_id : (body : ListingPatch) (listing : Listing) → (assign body listing).id ≡ listing.id
unfolding assign
assigned_id body listing = refl

assigned_seller :
    (body : ListingPatch) (listing : Listing) → (assign body listing).seller_id ≡ listing.seller_id
unfolding assign
assigned_seller body listing = refl

-- What an update that returned has done.
abbrev pub IsUpdate :
    String → String → String → ListingPatch → StoreService → Listing → StoreService → Type 0
IsUpdate id user_id role body store result after =
    (listing : Listing) × (lookup id store.listings ≡ some listing)
    × (role ≡ "seller")
    × (listing.seller_id ≡ user_id)
    × (result ≡ assign body listing)
    × (result.id ≡ listing.id)
    × (result.seller_id ≡ listing.seller_id)
    × ((j : String)
        → lookup j after.listings ≡ (if id == j then some result else lookup j store.listings))
    × (after.orders ≡ store.orders)
    × (after.idempotency_store ≡ store.idempotency_store)

-- A listing is changed by its own seller only: then that listing alone changes, by the fields of
-- the body, and keeps its id and its seller. An update that fails changes nothing.
pub update_listing_sound :
    (id user_id role : String) (body : ListingPatch) (store : StoreService)
    → ((result : Listing) × (after : StoreService) × (update_listing id user_id role body store
          ≡ (ok result, after))
        × IsUpdate id user_id role body store result after)
      ⊎ ((e : ProblemException) × (update_listing id user_id role body store ≡ (err e, store)))
unfolding update_listing
update_listing_sound id user_id role body store = elim (Option-cases (lookup id store.listings)) [
  | inl e ↦ inr (listing_missing id, rw (update_listing, e) refl)
  | inr (listing, e) ↦ elim (Bool-cases (role == "seller")) [
    | inr other ↦ inr (refusal id, rw (update_listing, e, other) refl)
    | inl seller ↦ elim (Bool-cases (listing.seller_id == user_id)) [
      | inr other ↦ inr (refusal id, rw (update_listing, e, seller, other) refl)
      | inl own ↦ inl (
        assign body listing,
        record store { listings = put id (assign body listing) store.listings },
        rw (update_listing, e, seller, own) refl,
        (
          listing,
          e,
          (eq_iff role "seller").0 seller,
          (eq_iff listing.seller_id user_id).0 own,
          refl,
          assigned_id body listing,
          assigned_seller body listing,
          (λ j. lookup-put id j (assign body listing) store.listings),
          refl,
          refl,
        ),
      )
    ]
  ]
]

-- A seller's new listing is shown under its id at once, and belongs to that seller; nobody else
-- can create one.
pub get_listing-create_listing :
    (id user_id role : String) (body : ListingBody) (store after : StoreService) (listing : Listing)
    (location : String)
    → create_listing id user_id role body store ≡ (ok (listing, location), after)
    → (role ≡ "seller")
      × (listing.seller_id ≡ user_id)
      × (location ≡ "/v1/listings/" <> listing.id)
      × (get_listing id after ≡ (ok (to_public_listing listing), after))
unfolding create_listing get_listing
get_listing-create_listing id user_id role body store after listing location h =
    elim (Bool-cases (role == "seller")) [
      | inr other ↦ absurd (let h' = rw (create_listing, other) at h in ground arith)
      | inl seller ↦
          let h' = rw (create_listing, seller) at h in
          let made : Listing = record {
            id = id;
            title = body.title;
            price_cents = body.price_cents;
            status = active;
            seller_id = user_id;
            quantity = body.quantity;
          } in
          let (pair, same) =
            pure-ok {E = ProblemException} (made, "/v1/listings/" <> id)
              (record store { listings = put id made store.listings }) after h' in
          let is : listing ≡ made = ap (λ (p : Listing × String). p.0) pair in
          let there : lookup id after.listings ≡ some listing =
            ap (λ (s : StoreService). lookup id s.listings) same
            ∙ lookup-put_self id made store.listings
            ∙ ap some (sym is) in
          (
            (eq_iff role "seller").0 seller,
            ap (λ (l : Listing). l.seller_id) is,
            ap (λ (p : Listing × String). p.1) pair
                ∙ ap (λ (l : Listing). "/v1/listings/" <> l.id) (sym is),
            rw (get_listing, there) refl,
          )
    ]
