-- ===== src/Orders/Rows.antt =====
-- src/orders/orders.service.ts: the joined rows of an order, and the order that the API shows. A
-- left join leaves a missing user, product or seller out.
use marketplace_template.Prelude.{
  ℕ, String, Bool, true, false, Option, none, some, List, [], ◌∷◌, map, ◌==◌, text_eq, nat_eq,
  if◌then◌else◌, ◌<>◌, show_nat, text_ltb, Table, lookup, keep,
}
use marketplace_template.Db.{Db, User, UserRole, Product, OrderRow, OrderItemRow, OrderStatus}
use marketplace_template.Store.{Listing, Order, OrderItem, ApiStatus}

-- OpenAPI demo headers and the emails of the seed. No user id is the name of a property that every
-- object inherits.
unfoldable pub user_aliases : Table String String
user_aliases =
    ("buyer-1", "buyer1@shop.local")
    ∷ ("buyer-2", "buyer2@shop.local")
    ∷ ("buyer-3", "buyer3@shop.local")
    ∷ ("buyer-4", "buyer4@shop.local")
    ∷ ("buyer-5", "buyer5@shop.local")
    ∷ ("seller-1", "seller1@shop.local")
    ∷ ("seller-2", "seller2@shop.local")
    ∷ []

-- A user with its key.
pub record Owner : Type 0 where
  pub id : String
  pub user : User

unfoldable pub owner_of : String → Db → Option Owner
owner_of id db = elim (lookup id db.users) [
  | none ↦ none
  | some user ↦ some (record { id = id; user = user })
]

pub record JoinedItem : Type 0 where
  pub row : OrderItemRow
  pub product : Option Product
  pub seller : Option Owner

pub record JoinedOrder : Type 0 where
  pub id : ℕ
  pub row : OrderRow
  pub user : Option Owner
  pub items : List JoinedItem

unfoldable pub join_item : Db → OrderItemRow → JoinedItem
unfolding owner_of
join_item db row =
    let product = lookup row.product_id db.products in
    record {
      row = row;
      product = product;
      seller = elim product [ none ↦ none | some p ↦ owner_of p.seller_id db ];
    }

-- The sort by `left.id < right.id`: the ids are texts.
unfoldable pub insert_by_id : JoinedItem → List JoinedItem → List JoinedItem
insert_by_id item [] = item ∷ []
insert_by_id item (other ∷ items) =
    if text_ltb (show_nat other.row.id) (show_nat item.row.id)
    then other ∷ insert_by_id item items
    else item ∷ other ∷ items

unfoldable pub sort_by_id : List JoinedItem → List JoinedItem
unfolding insert_by_id
sort_by_id [] = []
sort_by_id (item ∷ items) = insert_by_id item (sort_by_id items)

-- `CAST(ord.id AS text) = :dbId`
unfoldable pub find_order : String → Table ℕ OrderRow → Option (ℕ × OrderRow)
find_order db_id [] = none
find_order db_id ((id, row) ∷ orders) =
    if show_nat id == db_id then some (id, row) else find_order db_id orders

unfoldable pub read_order : String → Db → Option JoinedOrder
unfolding find_order join_item sort_by_id
read_order db_id db = elim (find_order db_id db.orders) [
  | none ↦ none
  | some (id, row) ↦ some (record {
    id = id;
    row = row;
    user = owner_of row.user_id db;
    items = sort_by_id (map (join_item db) (keep (λ i. i.order_id == id) db.order_items));
  })
]

pub record Complete : Type 0 where
  pub row : JoinedOrder
  pub buyer : Owner
  pub seller : Owner

abbrev pub first_seller : List JoinedItem → Option Owner
first_seller [] = none
first_seller (item ∷ items) = item.seller

-- `!row?.user || !row.items?.length || !seller`
unfoldable pub complete : Option JoinedOrder → Option Complete
complete none = none
complete (some row) = elim row.user [
  | none ↦ none
  | some buyer ↦ elim (first_seller row.items) [
    | none ↦ none
    | some seller ↦ some (record { row = row; buyer = buyer; seller = seller })
  ]
]

unfoldable pub find_alias : String → Table String String → Option String
find_alias email [] = none
find_alias email ((alias, alias_email) ∷ aliases) =
    if alias_email == email then some alias else find_alias email aliases

unfoldable pub public_user_id : String → String
unfolding find_alias
public_user_id email = elim (find_alias email user_aliases) [ some alias ↦ alias | none ↦ email ]

-- `repo.findOne` on the users, in the order of the table.
unfoldable pub find_owner : (Owner → Bool) → Table String User → Option Owner
find_owner test [] = none
find_owner test ((id, user) ∷ users) =
    let owner : Owner = record { id = id; user = user } in
    if test owner then some owner else find_owner test users

abbrev pub same_role : UserRole → UserRole → Bool
same_role UserRole.buyer UserRole.buyer = true
same_role UserRole.seller UserRole.seller = true
same_role UserRole.admin UserRole.admin = true
same_role _ _ = false

abbrev pub api_status : OrderStatus → ApiStatus
api_status OrderStatus.pending = ApiStatus.created
api_status OrderStatus.paid = ApiStatus.paid
api_status OrderStatus.shipped = ApiStatus.created
api_status OrderStatus.delivered = ApiStatus.created
api_status OrderStatus.cancelled = ApiStatus.cancelled

module _ (to_lower : String → String) where
  -- The first listing whose title is the name, without case.
  unfoldable pub listing_id_for_product : String → List Listing → String
  listing_id_for_product name [] = name
  listing_id_for_product name (listing ∷ listings) =
      if to_lower listing.title == to_lower name
      then listing.id
      else listing_id_for_product name listings

  -- An item without its product ends the request with a TypeError.
  unfoldable pub to_api_items : List Listing → List JoinedItem → Option (List OrderItem)
  unfolding listing_id_for_product
  to_api_items listings [] = some []
  to_api_items listings (item ∷ items) =
      let rest = to_api_items listings items in
      elim item.product [
        | none ↦ none
        | some product ↦ elim rest [
          | none ↦ none
          | some others ↦ some (
              record {
                listing_id = listing_id_for_product product.name listings;
                quantity = item.row.quantity;
                price_cents = item.row.unit_price_cents;
              }
              ∷ others)
        ]
      ]

  unfoldable pub to_api_order : List Listing → Complete → Option Order
  unfolding to_api_items public_user_id
  to_api_order listings found = elim (to_api_items listings found.row.items) [
    | none ↦ none
    | some items ↦ some (record {
      id = "order-" <> show_nat found.row.id;
      buyer_id = public_user_id found.buyer.user.email;
      seller_id = public_user_id found.seller.user.email;
      items = items;
      total_cents = found.row.row.total_cents;
      status = api_status found.row.row.status;
    })
  ]
