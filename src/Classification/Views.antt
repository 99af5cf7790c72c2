-- ===== src/Classification/Views.antt =====
-- The views of the migrations: seller_stats of 0001_init.sql, and seller_classifications and
-- listings_with_classification of 0007_seller_manual_label.sql.
pub mod Classes
use real_estate_robot.Base.{
  ℕ, zero, suc, String, str_eq, ◌==◌, ltb, Bool, true, false, ◌&&◌, Option, none, some, List, [],
  ◌∷◌, find?, length, if◌then◌else◌,
}
use real_estate_robot.Base.Values.{Time, Decimal, Text, Timestamptz}
use real_estate_robot.Storage.Rows.{Seller, Listing, SellerStat, Db}
use real_estate_robot.Classification.Score.{
  Calendar, score_personhood, score_listings_count, score_geography, score_account_age, formula,
  real_seller_score,
}
use real_estate_robot.Base.Int.{ℤ}

-- The scores are numerics of two digits: a number of hundredths.
pub record SellerClassification : Type 0 where
  pub seller_id : ℕ
  pub olx_user_id : String
  pub display_name : Text
  pub is_business : Bool
  pub registered_at : Timestamptz
  pub listings_active : ℕ
  pub districts_count : ℕ
  pub cities_count : ℕ
  pub score_personhood : ℤ
  pub score_listings_count : ℕ
  pub score_geography : ℕ
  pub score_account_age : ℕ
  pub real_seller_score : ℕ
  pub manual_label : Text

pub record ListingsWithClassification : Type 0 where
  pub listing_id : ℕ
  pub olx_listing_id : String
  pub url : String
  pub title : Text
  pub price : Option Decimal
  pub currency : Text
  pub city : Text
  pub district : Text
  pub posted_at : Timestamptz
  pub listing_last_seen : Time
  pub seller_id : ℕ
  pub olx_user_id : String
  pub seller_name : Text
  pub is_business : Bool
  pub seller_registered_at : Timestamptz
  pub seller_listings_active : ℕ
  pub seller_districts_count : ℕ
  pub real_seller_score : ℕ
  pub property_type : Text
  pub deal_type : Text
  pub manual_label : Text

-- l.seller_id = s.id
abbrev pub belongs : ℕ → Listing → Bool
belongs seller l = elim l.seller_id [ none ↦ false | some n ↦ n == seller ]

unfoldable pub listings_of : ℕ → List Listing → List Listing
listings_of seller [] = []
listings_of seller (l ∷ rest) =
    let others = listings_of seller rest in if belongs seller l then l ∷ others else others

unfoldable pub count_active : List Listing → ℕ
count_active [] = 0
count_active (l ∷ rest) = let n = count_active rest in if str_eq l.status "active" then suc n else n

-- whether a text stands among the values that are not NULL
unfoldable pub occurs : String → List Text → Bool
occurs t [] = false
occurs t (none ∷ rest) = occurs t rest
occurs t (some u ∷ rest) = if str_eq u t then true else occurs t rest

-- COUNT(DISTINCT column)
unfoldable pub count_distinct : List Text → ℕ
count_distinct [] = 0
count_distinct (none ∷ rest) = count_distinct rest
count_distinct (some t ∷ rest) = let n = count_distinct rest in if occurs t rest then n else suc n

unfoldable pub column : (Listing → Text) → List Listing → List Text
column field [] = []
column field (l ∷ rest) = field l ∷ column field rest

-- MIN(posted_at) and MAX(posted_at), of the values that are not NULL
abbrev pub earlier_of : Timestamptz → Timestamptz → Timestamptz
earlier_of none u = u
earlier_of (some t) none = some t
earlier_of (some t) (some u) = if ltb u t then some u else some t

abbrev pub later_of : Timestamptz → Timestamptz → Timestamptz
later_of none u = u
later_of (some t) none = some t
later_of (some t) (some u) = if ltb t u then some u else some t

unfoldable pub first_posted : List Listing → Timestamptz
first_posted [] = none
first_posted (l ∷ rest) = earlier_of l.posted_at (first_posted rest)

unfoldable pub last_posted : List Listing → Timestamptz
last_posted [] = none
last_posted (l ∷ rest) = later_of l.posted_at (last_posted rest)

abbrev pub stat_of : List Listing → Seller → SellerStat
stat_of listings s =
    let own = listings_of s.id listings in
    record {
      seller_id = s.id;
      olx_user_id = s.olx_user_id;
      is_business = s.is_business;
      listings_total = length own;
      listings_active = count_active own;
      districts_count = count_distinct (column (λ l. l.district) own);
      cities_count = count_distinct (column (λ l. l.city) own);
      first_listing_at = first_posted own;
      last_listing_at = last_posted own;
    }

unfoldable pub seller_stats : List Listing → List Seller → List SellerStat
seller_stats listings [] = []
seller_stats listings (s ∷ rest) = stat_of listings s ∷ seller_stats listings rest

-- LEFT JOIN seller_stats ss ON ss.seller_id = s.id, and COALESCE(ss.…, 0)
abbrev pub joined_count : (SellerStat → ℕ) → ℕ → List SellerStat → ℕ
joined_count field seller stats = elim (find? (λ ss. ss.seller_id == seller) stats) [
  | none ↦ 0
  | some ss ↦ field ss
]

module _ (calendar : Calendar) (now : Time) where
  unfoldable pub classify : List SellerStat → Seller → SellerClassification
  classify stats s =
      let active = joined_count (λ ss. ss.listings_active) s.id stats in
      let districts = joined_count (λ ss. ss.districts_count) s.id stats in
      let count = score_listings_count active in
      let geography = score_geography districts in
      let age = score_account_age calendar now s.registered_at in
      record {
        seller_id = s.id;
        olx_user_id = s.olx_user_id;
        display_name = s.display_name;
        is_business = s.is_business;
        registered_at = s.registered_at;
        listings_active = active;
        districts_count = districts;
        cities_count = joined_count (λ ss. ss.cities_count) s.id stats;
        score_personhood = score_personhood s.is_business;
        score_listings_count = count;
        score_geography = geography;
        score_account_age = age;
        real_seller_score =
            real_seller_score s.manual_label (formula s.is_business count geography age);
        manual_label = s.manual_label;
      }

  unfoldable pub seller_classifications : List SellerStat → List Seller → List SellerClassification
  seller_classifications stats [] = []
  seller_classifications stats (s ∷ rest) = classify stats s ∷ seller_classifications stats rest

abbrev pub classified : Listing → SellerClassification → ListingsWithClassification
classified l sc = record {
  listing_id = l.id;
  olx_listing_id = l.olx_listing_id;
  url = l.url;
  title = l.title;
  price = l.price;
  currency = l.currency;
  city = l.city;
  district = l.district;
  posted_at = l.posted_at;
  listing_last_seen = l.last_seen_at;
  seller_id = sc.seller_id;
  olx_user_id = sc.olx_user_id;
  seller_name = sc.display_name;
  is_business = sc.is_business;
  seller_registered_at = sc.registered_at;
  seller_listings_active = sc.listings_active;
  seller_districts_count = sc.districts_count;
  real_seller_score = sc.real_seller_score;
  property_type = l.property_type;
  deal_type = l.deal_type;
  manual_label = sc.manual_label;
}

-- JOIN seller_classifications sc ON sc.seller_id = l.seller_id; a seller's number is a key
abbrev pub seller_of : Listing → List SellerClassification → Option SellerClassification
seller_of l sellers = find? (λ sc. belongs sc.seller_id l) sellers

-- WHERE l.status = 'active'
unfoldable pub with_classification :
    List SellerClassification → List Listing → List ListingsWithClassification
with_classification sellers [] = []
with_classification sellers (l ∷ rest) =
    let others = with_classification sellers rest in
    if str_eq l.status "active"
    then elim (seller_of l sellers) [ none ↦ others | some sc ↦ classified l sc ∷ others ]
    else others

-- The views as they stand for a query at a time.
abbrev pub classifications_in : Calendar → Time → Db → List SellerClassification
classifications_in calendar now db = seller_classifications calendar now db.seller_stats db.sellers

abbrev pub listings_in : Calendar → Time → Db → List ListingsWithClassification
listings_in calendar now db = with_classification (classifications_in calendar now db) db.listings
