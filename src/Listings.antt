-- ===== src/Listings.antt =====
-- src/listings/listings.controller.ts: the listings of the store. A body has been checked by the
-- API contract: its fields are known ones and of their types. The Location header of a new listing
-- is returned beside it.
pub mod Owner
pub mod Tests
use marketplace_template.Prelude.{
  ℕ, String, Bool, true, false, not, ◌||◌, Option, none, some, List, [], ◌∷◌, map, ◌==◌, text_eq,
  if◌then◌else◌, ◌<>◌, keep, Table, lookup, put, values, Result, ok, err, Action,
}
use marketplace_template.RateLimit.{ProblemException}
use marketplace_template.Orders.Service.{forbidden}
use marketplace_template.Store.{
  Listing, ListingStatus, active, archived, PublicListing, StoreService, Page, to_public_listing,
  paginate,
}

pub record ListingBody : Type 0 where
  pub title : String
  pub price_cents : ℕ
  pub quantity : ℕ

pub record ListingPatch : Type 0 where
  pub title : Option String
  pub price_cents : Option ℕ
  pub quantity : Option ℕ
  pub status : Option ListingStatus

abbrev pub Listings : Type 0 → Type 0
Listings = Action ProblemException StoreService

unfoldable pub listing_missing : String → ProblemException
listing_missing id = record {
  status = 404;
  type = "https://marketplace.local/problems/listing-not-found";
  title = "Listing not found";
  detail = "Listing with the given id does not exist";
  instance_url = "/v1/listings/" <> id;
}

abbrev pub is_listed : Listing → Bool
is_listed listing = elim listing.status [ active ↦ true | archived ↦ false ]

-- `limit` is what `Number` gives of a limit that is there.
unfoldable pub list_listings : Option ℕ → Option String → Listings (Page PublicListing)
unfolding paginate to_public_listing
list_listings limit cursor store = (
  ok (
      paginate (λ l. l.id) (map to_public_listing (keep is_listed (values store.listings))) limit
        cursor),
  store,
)

unfoldable pub get_listing : String → Listings PublicListing
unfolding listing_missing to_public_listing
get_listing id store = elim (lookup id store.listings) [
  | none ↦ (err (listing_missing id), store)
  | some listing ↦ (ok (to_public_listing listing), store)
]

-- `id` is `newListingId()`.
unfoldable pub create_listing : String → String → String → ListingBody → Listings (Listing × String)
unfolding forbidden
create_listing id user_id role body store =
    let listing : Listing = record {
      id = id;
      title = body.title;
      price_cents = body.price_cents;
      status = active;
      seller_id = user_id;
      quantity = body.quantity;
    } in
    if not (role == "seller")
    then (err (forbidden "Only sellers can create listings" "/v1/listings"), store)
    else (
      ok (listing, "/v1/listings/" <> id),
      record store { listings = put id listing store.listings },
    )

abbrev pub or_kept {ℓ} : {A : Type ℓ} → Option A → A → A
or_kept none old = old
or_kept (some new) old = new

-- `Object.assign(listing, body)`
unfoldable pub assign : ListingPatch → Listing → Listing
assign body listing = record listing {
  title = or_kept body.title listing.title;
  price_cents = or_kept body.price_cents listing.price_cents;
  quantity = or_kept body.quantity listing.quantity;
  status = or_kept body.status listing.status;
}

unfoldable pub update_listing : String → String → String → ListingPatch → Listings Listing
unfolding listing_missing forbidden assign
update_listing id user_id role body store = elim (lookup id store.listings) [
  | none ↦ (err (listing_missing id), store)
  | some listing ↦
      if not (role == "seller") || not (listing.seller_id == user_id)
      then (err (forbidden "Only the listing owner can update it" ("/v1/listings/" <> id)), store)
      else (
        ok (assign body listing),
        record store { listings = put id (assign body listing) store.listings },
      )
]
