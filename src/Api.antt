-- ===== src/Api.antt =====
-- internal/api/server.go: what the HTTP layer reads of a request and writes in a reply.
pub mod Replies
pub mod Handlers
pub mod Routes
mod Tests
use Prim.Native.String.{◌++◌ as append}
use real_estate_robot.Base.{
  ℕ, ◌-◌, ◌%◌, ◌^◌, String, str_eq, ltb, Bool, Option, none, some, List, [], ◌∷◌, if◌then◌else◌,
}
use real_estate_robot.Base.Int.{ℤ, pos, negsuc, ltb_ℤ}
use real_estate_robot.Base.Values.{Bytes, Time, Float64, Decimal, Text, Timestamptz, Result}
use real_estate_robot.Runtime.Env.{Stream}
use real_estate_robot.Classification.Views.{ListingsWithClassification}
use real_estate_robot.Classification.Queries.{Numeric}

-- The broker's management API, and whether there is a publisher.
pub record Server : Type 0 where
  pub has_publisher : Bool
  pub rabbit_mgmt : String
  pub rabbit_user : String
  pub rabbit_pass : String

-- Listing of server.go
pub record ApiListing : Type 0 where
  pub listing_id : ℕ
  pub olx_user_id : String
  pub manual_label : String
  pub olx_listing_id : String
  pub url : String
  pub title : String
  pub price : Option Float64
  pub currency : String
  pub city : String
  pub district : String
  pub property_type : String
  pub deal_type : String
  pub posted_at : Option String
  pub seller_id : ℕ
  pub seller_name : String
  pub is_business : Bool
  pub seller_listings : ℕ
  pub seller_districts : ℕ
  pub real_seller_score : Float64

pub record Stats : Type 0 where
  pub private_sellers : ℕ
  pub business_sellers : ℕ
  pub private_avg_score : Float64
  pub business_avg_score : Float64
  pub last_parsed_at : Option String

pub record Category : Type 0 where
  pub property_type : String
  pub deal_type : String
  pub count : ℕ

pub record CityCount : Type 0 where
  pub city : String
  pub count : ℕ

pub record WorkerStatus : Type 0 where
  pub name : String
  pub queue : String
  pub running : Bool
  pub consumers : ℕ

pub record CrawlRequest : Type 0 where
  pub city_slug : String
  pub category_slug : String

pub record DiscoveryTask : Type 0 where
  pub search_url : String
  pub page : ℤ

-- What the handlers marshal.
pub data Payload : Type 0 where
  healthy : Payload  -- {"status": "ok"}
  failure : String → Payload  -- {"error": …}
  listings : List ApiListing → Payload
  stats : Stats → Payload
  categories : List Category → Payload
  cities : List CityCount → Payload
  workers : List WorkerStatus → Payload
  labeled : String → String → Payload  -- olx_user_id, label
  crawling : String → Payload  -- url
  nothing : Payload  -- no body

pub record Reply : Type 0 where
  pub status : ℕ
  pub payload : Payload

-- r.URL.Query()
abbrev pub Query : Type 0
Query = List (String × List String)

-- What encoding/json, strconv, strings, time and pgtype do for the handlers.
pub record Formats : Type 0 where
  pub decode_label : Stream → Result (Option String)
  pub decode_crawl : Stream → Result CrawlRequest
  pub encode_task : DiscoveryTask → Bytes
  pub decode_consumers : Stream → Result (List String)  -- the queues of the consumers
  pub trim_space : String → String
  pub atoi : String → Option ℤ
  pub parse_float : String → Option Float64
  pub zero_float : Float64
  pub format_float_4 : Float64 → String  -- 'f', with 4 digits
  pub scan : String → Numeric
  pub rfc3339 : Time → String
  pub float_of : Decimal → Option Float64
  pub float_of_hundredths : ℕ → Float64
  pub average : List ℕ → Float64  -- AVG(…)::float of hundredths
  pub collation : String → String → Bool
  pub basic_auth : String → String → String  -- of a user and a password

-- q[name]
unfoldable pub values : String → Query → Option (List String)
values name [] = none
values name ((k, v) ∷ rest) = if str_eq k name then some v else values name rest

-- q.Get(name)
unfoldable pub get : String → Query → String
get name q = elim (values name q) [ none ↦ "" | some vs ↦ elim vs [ [] ↦ "" | v ∷ _ ↦ v ] ]

-- int32(n)
abbrev pub signed32 : ℕ → ℤ
signed32 n = if ltb n (2 ^ 31) then pos n else negsuc (2 ^ 32 - 1 - n)

unfoldable pub int32 : ℤ → ℤ
int32 (pos n) = signed32 (n % 2 ^ 32)
int32 (negsuc n) = signed32 (2 ^ 32 - 1 - n % 2 ^ 32)

-- if v.Valid { out = v.String }
abbrev pub text_of : Text → String
text_of none = ""
text_of (some t) = t

abbrev pub or_default : {A : Type 0} → Option A → A → A
or_default none fallback = fallback
or_default (some a) fallback = a

module _ (formats : Formats) where
  unfoldable pub int_param : Query → String → ℤ → ℤ
  int_param q name fallback = elim (values name q) [
    | none ↦ fallback
    | some vs ↦ elim vs [
      | [] ↦ fallback
      | v ∷ _ ↦ or_default (formats.atoi (formats.trim_space v)) fallback
    ]
  ]

  unfoldable pub float_param : Query → String → Float64 → Float64
  float_param q name fallback = elim (values name q) [
    | none ↦ fallback
    | some vs ↦ elim vs [
      | [] ↦ fallback
      | v ∷ _ ↦ or_default (formats.parse_float (formats.trim_space v)) fallback
    ]
  ]

  unfoldable pub numeric_from_float : Float64 → Numeric
  numeric_from_float f = formats.scan (formats.format_float_4 f)

  abbrev pub price_of : Option Decimal → Option Float64
  price_of none = none
  price_of (some d) = formats.float_of d

  abbrev pub time_of : Timestamptz → Option String
  time_of none = none
  time_of (some t) = some (formats.rfc3339 t)

  unfoldable pub to_api_listing : ListingsWithClassification → ApiListing
  to_api_listing r = record {
    listing_id = r.listing_id;
    olx_user_id = r.olx_user_id;
    manual_label = text_of r.manual_label;
    olx_listing_id = r.olx_listing_id;
    url = r.url;
    title = text_of r.title;
    price = price_of r.price;
    currency = text_of r.currency;
    city = text_of r.city;
    district = text_of r.district;
    property_type = text_of r.property_type;
    deal_type = text_of r.deal_type;
    posted_at = time_of r.posted_at;
    seller_id = r.seller_id;
    seller_name = text_of r.seller_name;
    is_business = r.is_business;
    seller_listings = r.seller_listings_active;
    seller_districts = r.seller_districts_count;
    real_seller_score = formats.float_of_hundredths r.real_seller_score;
  }
