-- ===== src/Store/Pages.antt =====
-- A client that follows the cursors.
use mathlib.Core.List.{append-nil}
use marketplace_template.Prelude.{
  ℕ, zero, suc, ◌+◌, ◌-◌, ◌≤◌, ◌<◌, String, true, false, ◌≡◌, refl, sym, ap, ◌∙◌, inl, inr, Option,
  none, some, List, [], ◌∷◌, ◌++◌, arith, ltb, ◌==◌, text_eq, eq_iff, length, get_elem?,
  get_elem?-lt, take, drop, take-append-drop, drop-drop, length-drop, Bool-cases,
}
use marketplace_template.Store.{find_index, start_of, page_size, page_at, paginate}

module _ {T : Type 0} (id_of : T → String) where
  -- The items of the pages from a cursor on, `fuel` pages at most.
  unfoldable pub walk : ℕ → List T → Option ℕ → Option String → List T
  walk zero items limit cursor = []
  walk (suc fuel) items limit cursor =
      let page = paginate id_of items limit cursor in
      page.items
      ++ elim page.next_cursor [ none ↦ [] | some next ↦ walk fuel items limit (some next) ]

  -- No item has an empty id, and no two have the same.
  pub record Identified (items : List T) : Type 0 where
    pub named : (i : ℕ) (x : T) → get_elem? items i ≡ some x → (id_of x == "") ≡ false
    pub distinct :
        (i j : ℕ) (x y : T)
        → get_elem? items i ≡ some x
        → get_elem? items j ≡ some y
        → id_of x ≡ id_of y
        → i ≡ j

  find_index-get_elem? :
      (items : List T) (i : ℕ) (x : T)
      → ((i j : ℕ) (x y : T)
          → get_elem? items i ≡ some x
          → get_elem? items j ≡ some y
          → id_of x ≡ id_of y
          → i ≡ j)
      → get_elem? items i ≡ some x
      → find_index id_of (id_of x) items ≡ some i
  unfolding find_index
  find_index-get_elem? [] i x d h = absurd (ground arith)
  find_index-get_elem? (y ∷ items) zero x d h =
      let same : y ≡ x = ground arith in rw ((eq_iff (id_of y) (id_of x)).1 (ap id_of same)) refl
  find_index-get_elem? (y ∷ items) (suc j) x d h =
      let rest =
        find_index-get_elem? items j x
          (λ a b u v p q e. let s : suc a ≡ suc b = d (suc a) (suc b) u v p q e in omega arith) h in
      elim (Bool-cases (id_of y == id_of x)) [
        | inl same ↦ absurd (
            let e : 0 ≡ suc j = d 0 (suc j) y x refl h ((eq_iff (id_of y) (id_of x)).0 same) in
            omega arith)
        | inr apart ↦ rw (apart, rest) refl
      ]

  get_elem?-drop : (k i : ℕ) (items : List T) → get_elem? (drop k items) i ≡ get_elem? items (k + i)
  get_elem?-drop zero i items = ap (get_elem? items) {x = i} {y = 0 + i} (omega arith)
  get_elem?-drop (suc k) i [] = refl
  get_elem?-drop (suc k) i (x ∷ items) =
      get_elem?-drop k i items
      ∙ ap (get_elem? (x ∷ items)) {x = suc (k + i)} {y = suc k + i} (omega arith)

  get_elem?-take :
      (n i : ℕ) (items : List T) → i < n → get_elem? (take n items) i ≡ get_elem? items i
  get_elem?-take zero i items h = absurd (omega arith)
  get_elem?-take (suc n) i [] h = refl
  get_elem?-take (suc n) zero (x ∷ items) h = refl
  get_elem?-take (suc n) (suc i) (x ∷ items) h = get_elem?-take n i items (omega arith)

  drop-ge : (n : ℕ) (items : List T) → length items ≤ n → drop n items ≡ []
  drop-ge zero [] h = refl
  drop-ge zero (x ∷ items) h = absurd (omega arith)
  drop-ge (suc n) [] h = refl
  drop-ge (suc n) (x ∷ items) h = drop-ge n items (omega arith)

  length-take : (n : ℕ) (items : List T) → n ≤ length items → length (take n items) ≡ n
  length-take zero items h = refl
  length-take (suc n) [] h = absurd (omega arith)
  length-take (suc n) (x ∷ items) h = ap suc (length-take n items (omega arith))

  take-ge : (n : ℕ) (items : List T) → length items ≤ n → take n items ≡ items
  take-ge zero [] h = refl
  take-ge zero (x ∷ items) h = absurd (omega arith)
  take-ge (suc n) [] h = refl
  take-ge (suc n) (x ∷ items) h = ap (◌∷◌ x) (take-ge n items (omega arith))

  module _ (items : List T) (named : Identified items) where
    start_of-id :
        (i : ℕ) (x : T) → get_elem? items i ≡ some x → start_of id_of (some (id_of x)) items ≡ i + 1
    unfolding start_of
    start_of-id i x h = rw (named.named i x h, find_index-get_elem? items i x named.distinct h) refl

    page_at-cursor :
        (size k : ℕ) (x : T)
        → 1 ≤ size
        → k + size < length items
        → get_elem? items (k + size - 1) ≡ some x
        → (page_at id_of items size k).next_cursor ≡ some (id_of x)
    unfolding page_at
    page_at-cursor size k x some_size more there =
        let rest = length-drop k items in
        let slice = length-take size (drop k items) (omega arith) in
        let index : length (take size (drop k items)) - 1 ≡ size - 1 = omega arith in
        let last : get_elem? (take size (drop k items)) (length (take size (drop k items)) - 1)
            ≡ some x =
          ap (get_elem? (take size (drop k items))) index
          ∙ get_elem?-take size (size - 1) (drop k items) (omega arith)
          ∙ get_elem?-drop k (size - 1) items
          ∙ ap (get_elem? items) {x = k + (size - 1)} {y = k + size - 1} (omega arith)
          ∙ there in
        let has_more : ltb (k + size) (length items) ≡ true = ground arith in
        rw (has_more, last) refl

    -- The last item of a page with more behind it.
    page_at-next :
        (size k : ℕ)
        → 1 ≤ size
        → k + size < length items
        → (x : T) × (get_elem? items (k + size - 1) ≡ some x)
          × ((page_at id_of items size k).next_cursor ≡ some (id_of x))
    page_at-next size k some_size more =
        let (x, there) = get_elem?-lt items (k + size - 1) (omega arith) in
        (x, there, page_at-cursor size k x some_size more there)

    page_at-items :
        (size k : ℕ) → (page_at id_of items size k).items ++ drop (k + size) items ≡ drop k items
    unfolding page_at
    page_at-items size k =
        ap (λ rest. take size (drop k items) ++ rest) (sym (drop-drop size k items))
        ∙ take-append-drop size (drop k items)

    paginate-page_at :
        (limit : Option ℕ) (k : ℕ) (cursor : Option String)
        → start_of id_of cursor items ≡ k
        → paginate id_of items limit cursor ≡ page_at id_of items (page_size id_of limit) k
    unfolding paginate
    paginate-page_at limit k cursor from = ap (page_at id_of items (page_size id_of limit)) from

    page_at-last :
        (size k : ℕ)
        → length items ≤ k + size
        → ((page_at id_of items size k).next_cursor ≡ none)
          × ((page_at id_of items size k).items ≡ drop k items)
    unfolding page_at
    page_at-last size k enough =
        let rest = length-drop k items in
        let no_more : ltb (k + size) (length items) ≡ false = ground arith in
        (rw no_more refl, take-ge size (drop k items) (omega arith))

    walk-drop :
        (limit : Option ℕ) (fuel k : ℕ) (cursor : Option String)
        → 1 ≤ page_size id_of limit
        → start_of id_of cursor items ≡ k
        → length items < k + fuel
        → walk fuel items limit cursor ≡ drop k items
    unfolding walk
    walk-drop limit zero k cursor some_size from enough = sym (drop-ge k items (omega arith))
    walk-drop limit (suc fuel) k cursor some_size from enough =
        let size = page_size id_of limit in
        elim (Bool-cases (ltb (k + size) (length items))) [
          | inl more ↦
              let (x, there, next) = page_at-next size k some_size (ground arith) in
              let again =
                walk-drop limit fuel (k + size) (some (id_of x)) some_size
                  (start_of-id (k + size - 1) x there ∙ omega arith) (omega arith) in
              rw (walk, paginate-page_at limit k cursor from, next, again) (page_at-items size k)
          | inr no_more ↦
              let (stop, all) = page_at-last size k (ground arith) in
              rw (walk, paginate-page_at limit k cursor from, stop) (append-nil _ ∙ all)
        ]

    -- With non-empty, distinct ids and pages of at least one item: a client that follows
    -- `next_cursor` from the first page, for as many pages as there are items and one, gets every
    -- item once and in order.
    pub walk-whole :
        (limit : Option ℕ)
        → 1 ≤ page_size id_of limit
        → walk (length items + 1) items limit none ≡ items
    unfolding start_of
    walk-whole limit some_size =
        walk-drop limit (length items + 1) 0 none some_size refl (omega arith)
