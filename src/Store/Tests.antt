-- ===== src/Store/Tests.antt =====
-- The three listings of the store, two to a page.
use marketplace_template.Prelude.{
  ℕ, ◌+◌, String, ◌≡◌, refl, none, some, List, [], ◌∷◌, arith, length, get_elem?, ◌==◌, text_eq,
  suc, zero, subst, ap, inl, inr, eq_iff, Bool-cases,
}
use marketplace_template.Store.{Listing, ListingStatus, find_index, start_of, page_at, paginate}
use marketplace_template.Store.Pages.{walk, Identified, walk-whole}

abbrev listing : String → ListingStatus → Listing
listing id status = record {
  id = id;
  title = "Vintage Lamp";
  price_cents = 4599;
  status = status;
  seller_id = "seller-1";
  quantity = 12;
}

abbrev listings : List Listing
listings =
    listing "listing-1" ListingStatus.active
    ∷ listing "listing-2" ListingStatus.active
    ∷ listing "listing-3" ListingStatus.archived
    ∷ []

second_page :
    paginate (λ l. l.id) listings (some 2) (some "listing-2")
    ≡ record { items = listing "listing-3" ListingStatus.archived ∷ []; next_cursor = none }
unfolding paginate page_at start_of find_index
second_page = refl

-- Where a listing stands, by its id.
position :
    (i : ℕ) (x : Listing)
    → get_elem? listings i ≡ some x
    → find_index (λ l. l.id) x.id listings ≡ some i
unfolding find_index
position zero x h =
    let here : listing "listing-1" ListingStatus.active ≡ x = ground arith in
    subst (λ l. find_index (λ l. l.id) l.id listings ≡ some 0) here refl
position (suc zero) x h =
    let here : listing "listing-2" ListingStatus.active ≡ x = ground arith in
    subst (λ l. find_index (λ l. l.id) l.id listings ≡ some 1) here refl
position (suc (suc zero)) x h =
    let here : listing "listing-3" ListingStatus.archived ≡ x = ground arith in
    subst (λ l. find_index (λ l. l.id) l.id listings ≡ some 2) here refl
position (suc (suc (suc i))) x h = absurd (ground arith)

no_empty_id : find_index (λ l. l.id) "" listings ≡ none
unfolding find_index
no_empty_id = refl

listings-Identified : Identified (λ l. l.id) listings
listings-Identified = record {
  named = λ i x h. elim (Bool-cases (x.id == "")) [
    | inr named ↦ named
    | inl empty ↦
        let found = ap (λ id. find_index (λ l. l.id) id listings) ((eq_iff x.id "").0 empty) in
        absurd (ground (arith, found, position i x h, no_empty_id))
  ];
  distinct = λ i j x y h g same.
      let found = ap (λ id. find_index (λ l. l.id) id listings) same in
      ground (arith, found, position i x h, position j y g);
}

walk-whole_example : walk (λ l. l.id) (length listings + 1) listings (some 2) none ≡ listings
walk-whole_example = walk-whole (λ l. l.id) listings listings-Identified (some 2) (omega arith)
