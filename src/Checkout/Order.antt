-- ===== src/Checkout/Order.antt =====
-- The lock order of a checkout: the items sorted by product, with their original indexes.
use marketplace_template.Prelude.{
  ℕ, ◌+◌, String, Bool, ◌||◌, ◌&&◌, not, List, [], ◌∷◌, leb, if◌then◌else◌, text_ltb,
}

pub record CheckoutItemInput : Type 0 where
  pub product_id : String
  pub quantity : ℕ

pub record Indexed : Type 0 where
  pub item : CheckoutItemInput
  pub index : ℕ

-- `items.map((item, index) => ({ item, index }))`, from a first index.
unfoldable pub enumerate : ℕ → List CheckoutItemInput → List Indexed
enumerate k [] = []
enumerate k (x ∷ xs) = record { item = x; index = k } ∷ enumerate (k + 1) xs

-- The comparator does not put `right` first.
unfoldable pub in_order : Indexed → Indexed → Bool
in_order left right =
    text_ltb left.item.product_id right.item.product_id
    || (not (text_ltb right.item.product_id left.item.product_id) && leb left.index right.index)

-- `Array.prototype.sort`, as a stable insertion sort by the comparator.
unfoldable pub insert_in_order : Indexed → List Indexed → List Indexed
unfolding in_order
insert_in_order x [] = x ∷ []
insert_in_order x (y ∷ ys) = if in_order x y then x ∷ y ∷ ys else y ∷ insert_in_order x ys

unfoldable pub sort_items : List Indexed → List Indexed
unfolding insert_in_order
sort_items [] = []
sort_items (x ∷ xs) = insert_in_order x (sort_items xs)

unfoldable pub items_in_lock_order : List CheckoutItemInput → List Indexed
unfolding sort_items enumerate
items_in_lock_order items = sort_items (enumerate 0 items)
