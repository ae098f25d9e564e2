-- ===== src/Store.antt =====
-- src/store/store.service.ts: the listings and the pages of the demo store.
pub mod Pages
pub mod Tests
use marketplace_template.Prelude.{
  ℕ, zero, suc, ◌+◌, ◌-◌, String, Bool, true, false, ◌&&◌, Option, none, some, List, [], ◌∷◌, ◌++◌,
  ltb, if◌then◌else◌, ◌==◌, text_eq, length, get_elem?, take, drop, Table,
}

pub data ListingStatus : Type 0 where
  active archived : ListingStatus

pub record Listing : Type 0 where
  pub id : String
  pub title : String
  pub price_cents : ℕ
  pub status : ListingStatus
  pub seller_id : String
  pub quantity : ℕ

pub record PublicListing : Type 0 where
  pub id : String
  pub title : String
  pub price_cents : ℕ
  pub status : ListingStatus
  pub seller_id : String

pub record OrderItem : Type 0 where
  pub listing_id : String
  pub quantity : ℕ
  pub price_cents : ℕ

pub data ApiStatus : Type 0 where
  created paid cancelled : ApiStatus

pub record Order : Type 0 where
  pub id : String
  pub buyer_id : String
  pub seller_id : String
  pub items : List OrderItem
  pub total_cents : ℕ
  pub status : ApiStatus

pub record IdempotencyRecord : Type 0 where
  pub body_hash : String
  pub location : String
  pub body : Order

-- The three maps of the store.
pub record StoreService : Type 0 where
  pub listings : Table String Listing
  pub orders : Table String Order
  pub idempotency_store : Table String IdempotencyRecord

-- What the constructor puts there.
abbrev pub new_store : StoreService
new_store = record {
  listings =
      (
        "listing-1",
        record {
          id = "listing-1";
          title = "Vintage Lamp";
          price_cents = 4599;
          status = active;
          seller_id = "seller-1";
          quantity = 12;
        },
      )
      ∷ (
        "listing-2",
        record {
          id = "listing-2";
          title = "Ceramic Mug";
          price_cents = 899;
          status = active;
          seller_id = "seller-1";
          quantity = 40;
        },
      )
      ∷ (
        "listing-3",
        record {
          id = "listing-3";
          title = "Archived chair";
          price_cents = 4000;
          status = archived;
          seller_id = "seller-2";
          quantity = 1;
        },
      )
      ∷ [];
  orders = [];
  idempotency_store = [];
}

unfoldable pub to_public_listing : Listing → PublicListing
to_public_listing listing = record {
  id = listing.id;
  title = listing.title;
  price_cents = listing.price_cents;
  status = listing.status;
  seller_id = listing.seller_id;
}

pub record Page (T : Type 0) : Type 0 where
  pub items : List T
  pub next_cursor : Option String

module _ {T : Type 0} (id_of : T → String) where
  -- `findIndex((item) => item.id === cursor)`, and none for -1.
  unfoldable pub find_index : String → List T → Option ℕ
  find_index cursor [] = none
  find_index cursor (item ∷ items) =
      let rest = find_index cursor items in
      if id_of item == cursor then some 0 else elim rest [ none ↦ none | some i ↦ some (suc i) ]

  -- An empty cursor counts as none, and so does one that no item has.
  unfoldable pub start_of : Option String → List T → ℕ
  start_of none items = 0
  start_of (some cursor) items =
      if cursor == "" then 0 else elim (find_index cursor items) [ none ↦ 0 | some i ↦ i + 1 ]

  abbrev pub page_size : Option ℕ → ℕ
  page_size none = 20
  page_size (some limit) = limit

  unfoldable pub page_at : List T → ℕ → ℕ → Page T
  page_at items size start =
      let slice = take size (drop start items) in
      let last = get_elem? slice (length slice - 1) in
      record {
        items = slice;
        next_cursor =
            if ltb (start + size) (length items)
            then elim last [ none ↦ none | some item ↦ some (id_of item) ]
            else none;
      }

  unfoldable pub paginate : List T → Option ℕ → Option String → Page T
  paginate items limit cursor = page_at items (page_size limit) (start_of cursor items)
