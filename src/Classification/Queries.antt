-- ===== src/Classification/Queries.antt =====
-- The queries of internal/db/sqlc/classifier.sql.go. A count that does not fit an int, and a time
-- out of the database's range, are among the database's refusals.
pub mod Ranking
pub mod Counts
use real_estate_robot.Base.{
  ℕ, suc, ◌+◌, ◌*◌, ◌^◌, String, str_eq, ◌==◌, ltb, leb, Bool, true, false, ◌||◌, ◌&&◌, not, Option,
  none, some, List, [], ◌∷◌, find?, map, length, if◌then◌else◌,
}
use real_estate_robot.Base.Int.{ℤ, pos, negsuc, pos_part, neg_part, sub_ℕ, leb_ℤ}
use real_estate_robot.Base.Sort.{sort, top}
use real_estate_robot.Base.Values.{
  Time, Float64, Decimal, Text, Timestamptz, Error, message, Result, ok, err, no_rows,
}
use real_estate_robot.Storage.Rows.{Listing, Db, SellerStat}
use real_estate_robot.Classification.Views.{
  SellerClassification, ListingsWithClassification, later_of, seller_stats,
}

-- pgtype.Numeric as an argument: NULL, NaN or a number
pub data Numeric : Type 0 where
  null : Numeric
  not_a_number : Numeric
  number : Decimal → Numeric

pub record ListListingsForApiParams : Type 0 where
  pub max_age_days : ℤ
  pub min_score : Numeric
  pub property_type : String
  pub deal_type : String
  pub city : String
  pub limit_n : ℤ

-- an integer, as often as a natural number says
abbrev pub times : ℤ → ℕ → ℤ
times (pos a) k = pos (a * k)
times (negsuc a) k = sub_ℕ 0 (suc a * k)

-- score >= min, for a number of hundredths; NULL passes no row, and NaN is above all numbers
unfoldable pub at_least : ℕ → Numeric → Bool
at_least score null = false
at_least score not_a_number = false
at_least score (number d) =
    leb_ℤ (times d.coefficient (100 * 10 ^ pos_part d.exponent))
      (pos (score * 10 ^ neg_part d.exponent))

-- a day in nanoseconds
abbrev pub day : ℕ
day = 86_400_000_000_000

-- posted_at >= NOW() - (interval '1 day' * days), in UTC
unfoldable pub is_recent : Time → ℤ → Timestamptz → Bool
is_recent now days none = false
is_recent now (pos n) (some t) = leb now (t + n * day)
is_recent now (negsuc n) (some t) = leb (now + suc n * day) t

-- ($3::text = '' OR column = $3::text)
unfoldable pub matches : String → Text → Bool
matches wanted value = str_eq wanted "" || elim value [ none ↦ false | some v ↦ str_eq v wanted ]

unfoldable pub passes : Time → ListListingsForApiParams → ListingsWithClassification → Bool
passes now arg r =
    is_recent now arg.max_age_days r.posted_at
    && at_least r.real_seller_score arg.min_score
    && matches arg.property_type r.property_type
    && matches arg.deal_type r.deal_type
    && matches arg.city r.city

unfoldable pub selected : {A : Type 0} → (A → Bool) → List A → List A
selected p [] = []
selected p (r ∷ rest) = let others = selected p rest in if p r then r ∷ others else others

-- ORDER BY real_seller_score DESC, posted_at DESC, where NULL comes first; rows that are equal in
-- both may come in any order, which the program does not rely on
abbrev pub later_or_same : Timestamptz → Timestamptz → Bool
later_or_same none u = true
later_or_same (some t) none = false
later_or_same (some t) (some u) = leb u t

unfoldable pub listing_before : ListingsWithClassification → ListingsWithClassification → Bool
listing_before a b =
    if ltb b.real_seller_score a.real_seller_score
    then true
    else a.real_seller_score == b.real_seller_score && later_or_same a.posted_at b.posted_at

-- LIMIT $6::int
unfoldable pub list_listings_for_api :
    Time
    → ListListingsForApiParams
    → List ListingsWithClassification
    → Result (List ListingsWithClassification)
list_listings_for_api now arg view = elim arg.limit_n [
  | pos n ↦ ok (top listing_before n (selected (passes now arg) view))
  | negsuc n ↦ err (message "LIMIT must not be negative")
]

pub record TopRealSellersParams : Type 0 where
  pub min_active_listings : ℤ
  pub limit : ℤ

-- ORDER BY real_seller_score DESC, listings_active DESC, seller_id ASC
unfoldable pub seller_before : SellerClassification → SellerClassification → Bool
seller_before a b =
    if ltb b.real_seller_score a.real_seller_score
    then true
    else if ltb a.real_seller_score b.real_seller_score
    then false
    else if ltb b.listings_active a.listings_active
    then true
    else a.listings_active == b.listings_active && leb a.seller_id b.seller_id

unfoldable pub top_real_sellers :
    TopRealSellersParams → List SellerClassification → Result (List SellerClassification)
top_real_sellers arg view = elim arg.limit [
  | pos n ↦ ok (
      top seller_before n
        (selected (λ r. leb_ℤ arg.min_active_listings (pos r.listings_active)) view))
  | negsuc n ↦ err (message "LIMIT must not be negative")
]

-- WHERE olx_user_id = $1
unfoldable pub get_seller_classification :
    String → List SellerClassification → Result SellerClassification
get_seller_classification olx_user_id view =
    elim (find? (λ r. str_eq r.olx_user_id olx_user_id) view) [ none ↦ err no_rows | some r ↦ ok r ]

-- REFRESH MATERIALIZED VIEW CONCURRENTLY seller_stats
unfoldable pub refresh_seller_stats : Db → Db
refresh_seller_stats db = record db { seller_stats = seller_stats db.listings db.sellers }

-- SELECT MAX(last_scraped_at) FROM listings
unfoldable pub get_last_parsed_at : List Listing → Timestamptz
get_last_parsed_at [] = none
get_last_parsed_at (l ∷ rest) = later_of l.last_scraped_at (get_last_parsed_at rest)

-- GROUP BY key, COUNT(*)
module _ {K : Type 0} (same : K → K → Bool) where
  unfoldable pub bump : K → List (K × ℕ) → List (K × ℕ)
  bump k [] = (k, 1) ∷ []
  bump k (g ∷ groups) =
      let rest = bump k groups in if same g.0 k then (g.0, suc g.1) ∷ groups else g ∷ rest

  unfoldable pub group_by : List K → List (K × ℕ)
  group_by [] = []
  group_by (k ∷ keys) = bump k (group_by keys)

pub record GetDistinctCitiesRow : Type 0 where
  pub city : Text
  pub n : ℕ

-- WHERE city IS NOT NULL AND city <> ''
unfoldable pub cities_of : List ListingsWithClassification → List String
cities_of [] = []
cities_of (r ∷ rest) = elim r.city [
  | none ↦ cities_of rest
  | some c ↦ let others = cities_of rest in if str_eq c "" then others else c ∷ others
]

-- ORDER BY n DESC, city, by the database's collation
abbrev pub city_before : (String → String → Bool) → String × ℕ → String × ℕ → Bool
city_before collation a b = if ltb b.1 a.1 then true else a.1 == b.1 && collation a.0 b.0

unfoldable pub get_distinct_cities :
    (String → String → Bool) → List ListingsWithClassification → List GetDistinctCitiesRow
get_distinct_cities collation view =
    map (λ g. record { city = some g.0; n = g.1 })
      (sort (city_before collation) (group_by str_eq (cities_of view)))

pub record GetDistinctCategoriesRow : Type 0 where
  pub property_type : Text
  pub deal_type : Text
  pub n : ℕ

-- NULL is a group of its own
abbrev pub same_text : Text → Text → Bool
same_text none none = true
same_text none (some u) = false
same_text (some t) none = false
same_text (some t) (some u) = str_eq t u

abbrev pub same_category : String × Text → String × Text → Bool
same_category a b = str_eq a.0 b.0 && same_text a.1 b.1

-- WHERE property_type IS NOT NULL AND property_type <> ''
unfoldable pub categories_of : List ListingsWithClassification → List (String × Text)
categories_of [] = []
categories_of (r ∷ rest) = elim r.property_type [
  | none ↦ categories_of rest
  | some p ↦
      let others = categories_of rest in if str_eq p "" then others else (p, r.deal_type) ∷ others
]

-- ORDER BY n DESC, property_type
abbrev pub category_before :
    (String → String → Bool) → (String × Text) × ℕ → (String × Text) × ℕ → Bool
category_before collation a b = if ltb b.1 a.1 then true else a.1 == b.1 && collation a.0.0 b.0.0

unfoldable pub get_distinct_categories :
    (String → String → Bool) → List ListingsWithClassification → List GetDistinctCategoriesRow
get_distinct_categories collation view =
    map (λ g. record { property_type = some g.0.0; deal_type = g.0.1; n = g.1 })
      (sort (category_before collation) (group_by same_category (categories_of view)))

pub record GetSellerCountsRow : Type 0 where
  pub is_business : Bool
  pub sellers : ℕ
  pub avg_score : Float64

abbrev pub same_bool : Bool → Bool → Bool
same_bool true b = b
same_bool false b = not b

-- the scores of one group
unfoldable pub scores_of : Bool → List SellerClassification → List ℕ
scores_of is_business [] = []
scores_of is_business (r ∷ rest) =
    let others = scores_of is_business rest in
    if same_bool r.is_business is_business then r.real_seller_score ∷ others else others

-- AVG(real_seller_score)::float, of hundredths, is a parameter; the rows come in any order
abbrev pub counts_row : (List ℕ → Float64) → List SellerClassification → Bool → GetSellerCountsRow
counts_row average view is_business = record {
  is_business = is_business;
  sellers = length (scores_of is_business view);
  avg_score = average (scores_of is_business view);
}

-- GROUP BY is_business: a group for each value that occurs
unfoldable pub groups_of : List SellerClassification → List Bool
groups_of view = map (λ g. g.0) (group_by same_bool (map (λ r. r.is_business) view))

unfoldable pub get_seller_counts :
    (List ℕ → Float64) → List SellerClassification → List GetSellerCountsRow
get_seller_counts average view = map (counts_row average view) (groups_of view)
