-- ===== src/Listings/Tests.antt =====
-- A seller at work on the listings of the store.
use marketplace_template.Prelude.{
  ◌≡◌, refl, ◌⊎◌, none, some, [], ◌∷◌, text_eq, lookup, put, ok, err,
}
use marketplace_template.RateLimit.{ProblemException}
use marketplace_template.Orders.Service.{forbidden}
use marketplace_template.Store.{
  Listing, active, archived, StoreService, new_store, to_public_listing, page_at, start_of,
}
use marketplace_template.Listings.{
  ListingBody, ListingPatch, list_listings, get_listing, create_listing, update_listing,
}
use marketplace_template.Listings.Owner.{IsUpdate, update_listing_sound, get_listing-create_listing}

abbrev archive : ListingPatch
archive = record { title = none; price_cents = none; quantity = none; status = some archived }

-- The archived listing is listed no more.
archives :
    (let (r, after) = update_listing "listing-1" "seller-1" "seller" archive new_store in
      let (page, s) = list_listings none none after in page)
    ≡ ok (record {
      items =
          record {
            id = "listing-2";
            title = "Ceramic Mug";
            price_cents = 899;
            status = active;
            seller_id = "seller-1";
          }
          ∷ [];
      next_cursor = none;
    })
unfolding update_listing list_listings lookup put page_at start_of
archives = refl

refuses_other :
    update_listing "listing-1" "seller-2" "seller" archive new_store
    ≡ (err (forbidden "Only the listing owner can update it" "/v1/listings/listing-1"), new_store)
unfolding update_listing lookup
refuses_other = refl

update_listing_sound_example :
    ((result : Listing) × (after : StoreService) × (update_listing "listing-1" "seller-1" "seller"
          archive new_store
        ≡ (ok result, after))
      × IsUpdate "listing-1" "seller-1" "seller" archive new_store result after)
    ⊎ ((e : ProblemException) × (update_listing "listing-1" "seller-1" "seller" archive new_store
          ≡ (err e, new_store)))
update_listing_sound_example =
    update_listing_sound "listing-1" "seller-1" "seller" archive new_store

abbrev chair : ListingBody
chair = record { title = "Chair"; price_cents = 4000; quantity = 2 }

abbrev chair_listing : Listing
chair_listing = record {
  id = "listing-9";
  title = "Chair";
  price_cents = 4000;
  status = active;
  seller_id = "seller-2";
  quantity = 2;
}

abbrev with_chair : StoreService
with_chair = (create_listing "listing-9" "seller-2" "seller" chair new_store).1

creates_chair :
    create_listing "listing-9" "seller-2" "seller" chair new_store
    ≡ (ok (chair_listing, "/v1/listings/listing-9"), with_chair)
unfolding create_listing put
creates_chair = refl

shows_chair :
    get_listing "listing-9" with_chair ≡ (ok (to_public_listing chair_listing), with_chair)
shows_chair =
    (get_listing-create_listing "listing-9" "seller-2" "seller" chair new_store with_chair
      chair_listing "/v1/listings/listing-9" creates_chair).3
