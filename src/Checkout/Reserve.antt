-- ===== src/Checkout/Reserve.antt =====
-- What the reservation loop does to the stock, and what it adds up.
use marketplace_template.Prelude.{
  ℕ, ◌+◌, ◌-◌, ◌*◌, ◌≤◌, String, ◌≡◌, refl, ap, ◌∙◌, inl, inr, Bool, true, Option, none, some, List,
  [], ◌∷◌, ◌++◌, arith, set, leb, ◌==◌, text_eq, if◌then◌else◌, eq_iff, lookup, put, lookup-put,
  Option-cases, ok,
}
use marketplace_template.Db.{Db, Product}
use marketplace_template.Checkout.Order.{Indexed}
use marketplace_template.Checkout.Tables.{update_stock}
use marketplace_template.Checkout.{Reserved, PricedItem, reserve}

abbrev pub priced : Indexed → ℕ → PricedItem
priced l price = record {
  product_id = l.item.product_id;
  quantity = l.item.quantity;
  unit_price_cents = price;
}

-- The loop's variables after one more item at a price.
abbrev pub add_item : Indexed → ℕ → Reserved → Reserved
add_item l price acc = record {
  total_cents = acc.total_cents + price * l.item.quantity;
  unit_prices = set acc.unit_prices l.index (some price);
  priced_items = acc.priced_items ++ priced l price ∷ [];
}

abbrev pub take_from : Indexed → Product → Db → Db
take_from l p db = record db {
  products = put l.item.product_id (record p { stock = p.stock - l.item.quantity }) db.products;
}

-- A product row that an item can be taken from.
pub record Takes (l : Indexed) (db : Db) (p : Product) : Type 0 where
  pub found : lookup l.item.product_id db.products ≡ some p
  pub active : p.is_active ≡ true
  pub enough : l.item.quantity ≤ p.stock

-- A reservation that succeeds took its first item from a row of its product.
pub reserve-cons :
    (l : Indexed) (ls : List Indexed) (acc r : Reserved) (db db' : Db)
    → reserve (l ∷ ls) acc db ≡ (ok r, db')
    → (p : Product) × Takes l db p
      × (reserve ls (add_item l p.price_cents acc) (take_from l p db) ≡ (ok r, db'))
unfolding reserve update_stock
reserve-cons l ls acc r db db' h = elim (Option-cases (lookup l.item.product_id db.products)) [
  | inl e ↦ ground arith
  | inr (p, e) ↦
      (p, record { found = e; active = ground arith; enough = ground arith }, ground arith)
]

-- How much of a product the items ask for.
abbrev pub ordered : String → List Indexed → ℕ
ordered id [] = 0
ordered id (l ∷ ls) =
    let rest = ordered id ls in if l.item.product_id == id then l.item.quantity + rest else rest

abbrev pub price_of : String → Db → ℕ
price_of id db = elim (lookup id db.products) [ none ↦ 0 | some p ↦ p.price_cents ]

abbrev pub cost : Db → List Indexed → ℕ
cost db [] = 0
cost db (l ∷ ls) = price_of l.item.product_id db * l.item.quantity + cost db ls

abbrev pub less_stock : ℕ → Option Product → Option Product
less_stock n none = none
less_stock n (some p) = some (record p { stock = p.stock - n })

-- Whether the row covers a quantity: it is there, active and has the stock, unless none is asked.
abbrev pub has_stock : ℕ → Option Product → Bool
has_stock n none = leb n 0
has_stock n (some p) = if p.is_active then leb n p.stock else leb n 0

lookup-take_from :
    (l : Indexed) (db : Db) (p : Product) (id : String)
    → lookup id (take_from l p db).products ≡ (
        if l.item.product_id == id
        then some (record p { stock = p.stock - l.item.quantity })
        else lookup id db.products)
lookup-take_from l db p id = lookup-put l.item.product_id id _ db.products

pub price_of-found :
    (l : Indexed) (db : Db) (p : Product)
    → Takes l db p
    → price_of l.item.product_id db ≡ p.price_cents
price_of-found l db p t = ground arith

less_stock_zero : (o : Option Product) → less_stock 0 o ≡ o
less_stock_zero o = ground arith

pub price_of-take_from :
    (l : Indexed) (db : Db) (p : Product) (id : String)
    → Takes l db p
    → price_of id (take_from l p db) ≡ price_of id db
price_of-take_from l db p id t =
    ground (arith, lookup-take_from l db p id, eq_iff l.item.product_id id)

cost-take_from :
    (l : Indexed) (db : Db) (p : Product) (ls : List Indexed)
    → Takes l db p
    → cost (take_from l p db) ls ≡ cost db ls
cost-take_from l db p [] t = refl
cost-take_from l db p (x ∷ ls) t =
    rw (price_of-take_from l db p x.item.product_id t, cost-take_from l db p ls t)

-- What a reservation that succeeds has done, product by product.
pub record Reserves (ls : List Indexed) (acc r : Reserved) (db db' : Db) : Type 0 where
  pub stock :
      (id : String) → lookup id db'.products ≡ less_stock (ordered id ls) (lookup id db.products)
  pub enough : (id : String) → has_stock (ordered id ls) (lookup id db.products) ≡ true
  pub total : r.total_cents ≡ acc.total_cents + cost db ls
  pub rest : db' ≡ record db { products = db'.products }

stock-step :
    (l : Indexed) (ls : List Indexed) (db db' : Db) (p : Product) (id : String)
    → Takes l db p
    → lookup id db'.products ≡ less_stock (ordered id ls) (lookup id (take_from l p db).products)
    → has_stock (ordered id ls) (lookup id (take_from l p db).products) ≡ true
    → (lookup id db'.products ≡ less_stock (ordered id (l ∷ ls)) (lookup id db.products))
      × (has_stock (ordered id (l ∷ ls)) (lookup id db.products) ≡ true)
stock-step l ls db db' p id t s e =
    let there : l.item.product_id ≡ id → lookup id db.products ≡ some p =
      λ same. rw (← same) t.found in
    (
      ground (arith, lookup-take_from l db p id, eq_iff l.item.product_id id, there),
      ground (arith, lookup-take_from l db p id, eq_iff l.item.product_id id, there),
    )

pub reserve-Reserves :
    (ls : List Indexed) (acc r : Reserved) (db db' : Db)
    → reserve ls acc db ≡ (ok r, db')
    → Reserves ls acc r db db'
unfolding reserve
reserve-Reserves [] acc r db db' h = record {
  stock = λ id. ground (arith, less_stock_zero (lookup id db.products));
  enough = λ id. ground arith;
  total = ground arith;
  rest = ground arith;
}
reserve-Reserves (l ∷ ls) acc r db db' h =
    let (p, t, k) = reserve-cons l ls acc r db db' h in
    let ih = reserve-Reserves ls (add_item l p.price_cents acc) r (take_from l p db) db' k in
    record {
      stock = λ id. (stock-step l ls db db' p id t (ih.stock id) (ih.enough id)).0;
      enough = λ id. (stock-step l ls db db' p id t (ih.stock id) (ih.enough id)).1;
      total = omega (
        arith,
        ih.total,
        cost-take_from l db p ls t,
        price_of-found l db p t,
        ap (λ (n : ℕ). n * l.item.quantity) (price_of-found l db p t),
      );
      rest = ih.rest ∙ ground (arith, ih.rest);
    }
