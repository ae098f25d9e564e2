-- ===== src/Checkout/Prices.antt =====
-- The prices that a checkout returns, and the lines that it prices.
use mathlib.Core.Option.{some-injective}
use native.Mathlib.Decide.{dec_lt}
use mathlib.Core.List.{append-nil, append_assoc}
use marketplace_template.Prelude.{
  ℕ, suc, ◌+◌, ◌≤◌, ◌<◌, ◌≡◌, refl, sym, ap, subst, inl, inr, nat_beq_iff, ◌∙◌, Bool, true, false,
  ◌&&◌, ◌||◌, Option, none, some, List, [], ◌∷◌, ◌++◌, map, arith, length, get_elem?, set,
  replicate, get_elem?-set, length-set, list_ext, length-replicate, length-map, get_elem?-map,
  get_elem?-ge, get_elem?-lt, ltb, leb, nat_beq, if◌then◌else◌, All, Bool-cases, ok,
}
use marketplace_template.Db.{Db}
use marketplace_template.Checkout.Order.{
  CheckoutItemInput, Indexed, enumerate, insert_in_order, sort_items, items_in_lock_order,
}
use marketplace_template.Checkout.LockOrder.{All-sort}
use marketplace_template.Checkout.{Reserved, PricedItem, reserve}
use marketplace_template.Checkout.Reserve.{
  priced, add_item, take_from, Takes, price_of, price_of-found, price_of-take_from, reserve-cons,
}

abbrev pub prices_after : Db → List Indexed → List (Option ℕ) → List (Option ℕ)
prices_after db [] prices = prices
prices_after db (l ∷ ls) prices =
    prices_after db ls (set prices l.index (some (price_of l.item.product_id db)))

abbrev pub price_lines : Db → List Indexed → List PricedItem
price_lines db = map (λ l. priced l (price_of l.item.product_id db))

prices_after-take_from :
    (l : Indexed) (db : Db) (p : _) (ls : List Indexed) (prices : List (Option ℕ))
    → Takes l db p
    → prices_after (take_from l p db) ls prices ≡ prices_after db ls prices
prices_after-take_from l db p [] prices t = refl
prices_after-take_from l db p (x ∷ ls) prices t =
    rw (price_of-take_from l db p x.item.product_id t) (prices_after-take_from l db p ls _ t)

price_lines-take_from :
    (l : Indexed) (db : Db) (p : _) (ls : List Indexed)
    → Takes l db p
    → price_lines (take_from l p db) ls ≡ price_lines db ls
price_lines-take_from l db p [] t = refl
price_lines-take_from l db p (x ∷ ls) t =
    rw (price_of-take_from l db p x.item.product_id t, price_lines-take_from l db p ls t)

-- The loop assigns the price of each item to its index and prices the lines in lock order.
pub reserve_prices :
    (ls : List Indexed) (acc r : Reserved) (db db' : Db)
    → reserve ls acc db ≡ (ok r, db')
    → (r.unit_prices ≡ prices_after db ls acc.unit_prices)
      × (r.priced_items ≡ acc.priced_items ++ price_lines db ls)
unfolding reserve
reserve_prices [] acc r db db' h = (ground arith, rw append-nil (ground arith))
reserve_prices (l ∷ ls) acc r db db' h =
    let (p, t, k) = reserve-cons l ls acc r db db' h in
    let (a, b) = reserve_prices ls (add_item l p.price_cents acc) r (take_from l p db) db' k in
    let e : p.price_cents ≡ price_of l.item.product_id db = sym (price_of-found l db p t) in
    (
      a
          ∙ prices_after-take_from l db p ls _ t
          ∙ ap (λ (n : ℕ). prices_after db ls (set acc.unit_prices l.index (some n))) e,
      b
          ∙ ap (λ (m : List PricedItem). (acc.priced_items ++ priced l p.price_cents ∷ []) ++ m)
              (price_lines-take_from l db p ls t)
          ∙ append_assoc acc.priced_items (priced l p.price_cents ∷ []) (price_lines db ls)
          ∙ ap (λ (n : ℕ). acc.priced_items ++ priced l n ∷ price_lines db ls) e,
    )

abbrev has_index : ℕ → List Indexed → Bool
has_index i [] = false
has_index i (l ∷ ls) = nat_beq l.index i || has_index i ls

has_index-insert :
    (i : ℕ) (x : Indexed) (ls : List Indexed)
    → has_index i (insert_in_order x ls) ≡ (nat_beq x.index i || has_index i ls)
unfolding insert_in_order
has_index-insert i x [] = refl
has_index-insert i x (y ∷ ys) = ground (arith, has_index-insert i x ys)

has_index-sort : (i : ℕ) (ls : List Indexed) → has_index i (sort_items ls) ≡ has_index i ls
unfolding sort_items
has_index-sort i [] = refl
has_index-sort i (x ∷ xs) =
    ground (arith, has_index-insert i x (sort_items xs), has_index-sort i xs)

has_index-enumerate :
    (i k : ℕ) (xs : List CheckoutItemInput)
    → has_index i (enumerate k xs) ≡ (leb k i && ltb i (k + length xs))
unfolding enumerate
has_index-enumerate i k [] = ground arith
has_index-enumerate i k (x ∷ xs) = ground (arith, has_index-enumerate i (k + 1) xs)

-- Each locked item stands in the request at its index.
abbrev Stands : List CheckoutItemInput → Indexed → Type 0
Stands items l = get_elem? items l.index ≡ some l.item

enumerate-Stands :
    (items : List CheckoutItemInput) (k : ℕ) (xs : List CheckoutItemInput)
    → ((i : ℕ) → get_elem? items (k + i) ≡ get_elem? xs i)
    → All (Stands items) (enumerate k xs)
unfolding enumerate
enumerate-Stands items k [] h = tt
enumerate-Stands items k (x ∷ xs) h = (
  subst (λ n. get_elem? items n ≡ some x) (omega arith) (h 0),
  enumerate-Stands items (k + 1) xs
      (λ i. subst (λ n. get_elem? items n ≡ get_elem? xs i) (omega arith) (h (suc i))),
)

length-prices_after :
    (db : Db) (ls : List Indexed) (prices : List (Option ℕ))
    → length (prices_after db ls prices) ≡ length prices
length-prices_after db [] prices = refl
length-prices_after db (l ∷ ls) prices = length-prices_after db ls _ ∙ length-set prices l.index _

abbrev pub item_price : Db → CheckoutItemInput → Option ℕ
item_price db item = some (price_of item.product_id db)

assigned :
    (db : Db) (items : List CheckoutItemInput) (i : ℕ) (x : CheckoutItemInput) (l : Indexed)
    (prices : List (Option ℕ))
    → get_elem? items i ≡ some x
    → i < length prices
    → Stands items l
    → (later : Bool)
    → (if later
        then some (item_price db x)
        else get_elem? (set prices l.index (item_price db l.item)) i)
      ≡ (if nat_beq l.index i || later then some (item_price db x) else get_elem? prices i)
assigned db items i x l prices e h a later = elim (Bool-cases (nat_beq l.index i)) [
  | inl hit ↦
      let same : l.index ≡ i = (nat_beq_iff l.index i).0 hit in
      let item : some l.item ≡ some x = sym a ∙ ap (get_elem? items) same ∙ e in
      let price : item_price db l.item ≡ item_price db x =
        ap (item_price db) (some-injective _ _ item) in
      rw price (ground (arith, get_elem?-set prices l.index i (item_price db x)))
  | inr miss ↦ ground (arith, get_elem?-set prices l.index i (item_price db l.item))
]

-- An index that the loop meets gets the price of its item; the others keep what they had.
get_elem?-prices_after :
    (db : Db) (items : List CheckoutItemInput) (i : ℕ) (x : CheckoutItemInput) (ls : List Indexed)
    (prices : List (Option ℕ))
    → get_elem? items i ≡ some x
    → i < length prices
    → All (Stands items) ls
    → get_elem? (prices_after db ls prices) i
      ≡ (if has_index i ls then some (item_price db x) else get_elem? prices i)
get_elem?-prices_after db items i x [] prices e h a = refl
get_elem?-prices_after db items i x (l ∷ ls) prices e h a =
    let v : Option ℕ = item_price db l.item in
    get_elem?-prices_after db items i x ls (set prices l.index v) e
      (omega (arith, length-set prices l.index v)) a.1
    ∙ assigned db items i x l prices e h a.0 (has_index i ls)

aligned_at :
    (db : Db) (items : List CheckoutItemInput) (i : ℕ)
    → Dec (i < length items)
    → get_elem? (prices_after db (sort_items (enumerate 0 items)) (replicate (length items) none)) i
      ≡ get_elem? (map (item_price db) items) i
aligned_at db items i (yes h) =
    let (x, e) = get_elem?-lt items i h in
    let found : has_index i (sort_items (enumerate 0 items)) ≡ true =
      ground (arith, has_index-sort i (enumerate 0 items), has_index-enumerate i 0 items) in
    let room : i < length (replicate (length items) (let n : Option ℕ = none in n)) =
      omega (arith, length-replicate (length items) (let n : Option ℕ = none in n)) in
    get_elem?-prices_after db items i x _ _ e room (
      All-sort (Stands items) (enumerate 0 items)
        (enumerate-Stands items 0 items (λ j. ap (get_elem? items) {x = 0 + j} (omega arith))))
    ∙ rw (found, get_elem?-map (item_price db) items i, e)
aligned_at db items i (no h) =
    let not_lt : length items ≤ i = omega arith in
    get_elem?-ge _ i (
      omega (
        arith,
        length-prices_after db (sort_items (enumerate 0 items)) (replicate (length items) none),
        length-replicate {0} {A = Option ℕ} (length items) none,
        not_lt,
      ))
    ∙ sym (get_elem?-ge _ i (omega (arith, length-map (item_price db) items, not_lt)))

-- The prices come back in the order of the request, whatever the lock order was.
pub unit_prices_aligned :
    (db : Db) (items : List CheckoutItemInput)
    → prices_after db (items_in_lock_order items) (replicate (length items) none)
      ≡ map (item_price db) items
unfolding items_in_lock_order
unit_prices_aligned db items =
    list_ext _ _
      (length-prices_after db (sort_items (enumerate 0 items)) (replicate (length items) none)
        ∙ length-replicate (length items) none
        ∙ sym (length-map (item_price db) items))
      (λ i. aligned_at db items i (dec_lt i (length items)))
