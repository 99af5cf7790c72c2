-- ===== src/Classification/Queries/Ranking.antt =====
-- The two ranked queries: which rows they give, and in what order.
use real_estate_robot.Base.{
  ℕ, ◌≡◌, refl, inl, inr, Bool, true, false, Bool-cases, List, [], ◌∷◌, All, arith,
}
use real_estate_robot.Base.Int.{pos, negsuc, leb_ℤ}
use real_estate_robot.Base.Sort.{top, IsTop, top-IsTop}
use real_estate_robot.Base.Values.{Time, ok, err, message}
use real_estate_robot.Classification.Views.{SellerClassification, ListingsWithClassification}
use real_estate_robot.Classification.Queries.{
  ListListingsForApiParams, passes, selected, listing_before, list_listings_for_api,
  TopRealSellersParams, seller_before, top_real_sellers,
}

abbrev Row : Type 0
Row = ListingsWithClassification

listing_before_total : (a b : Row) → listing_before a b ≡ false → listing_before b a ≡ true
unfolding listing_before
listing_before_total a b h = ground arith

listing_before_trans :
    (a b c : Row)
    → listing_before a b ≡ true
    → listing_before b c ≡ true
    → listing_before a c ≡ true
unfolding listing_before
listing_before_trans a b c h k = ground arith

seller_before_total :
    (a b : SellerClassification) → seller_before a b ≡ false → seller_before b a ≡ true
unfolding seller_before
seller_before_total a b h = ground arith

seller_before_trans :
    (a b c : SellerClassification)
    → seller_before a b ≡ true
    → seller_before b c ≡ true
    → seller_before a c ≡ true
unfolding seller_before
seller_before_trans a b c h k = ground arith

pub selected-All :
    {A : Type 0} (p : A → Bool) (rows : List A) → All (λ r. p r ≡ true) (selected p rows)
unfolding selected
selected-All p [] = tt
selected-All p (r ∷ rest) = elim (Bool-cases (p r)) [
  | inl h ↦ rw h (h, selected-All p rest)
  | inr h ↦ rw h (selected-All p rest)
]

pub list_listings_pos :
    (now : Time) (arg : ListListingsForApiParams) (n : ℕ) (view : List Row)
    → arg.limit_n ≡ pos n
    → list_listings_for_api now arg view
      ≡ ok (top listing_before n (selected (passes now arg) view))
unfolding list_listings_for_api
list_listings_pos now arg n view l = rw l refl

pub list_listings_neg :
    (now : Time) (arg : ListListingsForApiParams) (n : ℕ) (view : List Row)
    → arg.limit_n ≡ negsuc n
    → list_listings_for_api now arg view ≡ err (message "LIMIT must not be negative")
unfolding list_listings_for_api
list_listings_neg now arg n view l = rw l refl

pub list_listings-IsTop :
    (now : Time) (arg : ListListingsForApiParams) (n : ℕ) (view answer : List Row)
    → arg.limit_n ≡ pos n
    → list_listings_for_api now arg view ≡ ok answer
    → IsTop listing_before n (selected (passes now arg) view) answer
unfolding list_listings_for_api
list_listings-IsTop now arg n view answer l e =
    let same : answer ≡ top listing_before n (selected (passes now arg) view) = ground arith in
    rw same (top-IsTop listing_before listing_before_total listing_before_trans n _)

pub top_real_sellers_pos :
    (arg : TopRealSellersParams) (n : ℕ) (view : List SellerClassification)
    → arg.limit ≡ pos n
    → top_real_sellers arg view
      ≡ ok (
          top seller_before n
            (selected (λ r. leb_ℤ arg.min_active_listings (pos r.listings_active)) view))
unfolding top_real_sellers
top_real_sellers_pos arg n view l = rw l refl

-- Where TopRealSellers answers, its rows are the sellers with enough active listings, ranked by
-- score, then by active listings, then by number, up to the limit: none that is left out ranks
-- before one that is not.
pub top_real_sellers-IsTop :
    (arg : TopRealSellersParams) (n : ℕ) (view answer : List SellerClassification)
    → arg.limit ≡ pos n
    → top_real_sellers arg view ≡ ok answer
    → IsTop seller_before n
        (selected (λ r. leb_ℤ arg.min_active_listings (pos r.listings_active)) view)
        answer
unfolding top_real_sellers
top_real_sellers-IsTop arg n view answer l e =
    let same : answer
        ≡ top seller_before n
            (selected (λ r. leb_ℤ arg.min_active_listings (pos r.listings_active)) view) =
      ground arith in
    rw same (top-IsTop seller_before seller_before_total seller_before_trans n _)
