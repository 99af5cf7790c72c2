-- ===== src/Parser/Page.antt =====
-- Parse of internal/parser/parser.go, and hash.go: the listing and the seller of one page.
pub mod Coherence
pub mod Hashes
use Prim.Native.String.{◌++◌ as append}
use text.Mathlib.Text.{find?, get?}
use real_estate_robot.Base.{
  ℕ, String, str_eq, ◌==◌, Bool, true, false, ◌||◌, not, Option, none, some, List, [], ◌∷◌, ◌++◌,
  if◌then◌else◌,
}
use real_estate_robot.Base.Int.{ℤ, pos, negsuc}
use real_estate_robot.Base.Values.{Bytes, Time, Float64, Error, Result, ok, err, message, wrap}
use real_estate_robot.Parser.State.{extract_prerendered_state}

pub record Seller : Type 0 where
  pub olx_user_id : String
  pub display_name : String
  pub profile_url : String
  pub registered_at : Option Time
  pub is_business : Bool

pub record Listing : Type 0 where
  pub olx_listing_id : String
  pub url : String
  pub title : String
  pub description : String
  pub price : Option Float64
  pub currency : String
  pub status : String
  pub posted_at : Option Time
  pub city : String
  pub district : String
  pub address : String
  pub lat : Option Float64
  pub lon : Option Float64
  pub property_type : String
  pub deal_type : String
  pub attributes : Bytes

-- Result of parser.go
pub record Parsed : Type 0 where
  pub seller : Seller
  pub listing : Listing

pub record Breadcrumb : Type 0 where
  pub label : String
  pub href : String
  pub category_id : ℤ

pub record AdUser : Type 0 where
  pub uuid : String
  pub name : String
  pub created : Time

pub record AdLocation : Type 0 where
  pub city_name : String
  pub district_name : String
  pub path_name : String

pub record Ad : Type 0 where
  pub id : ℤ
  pub url : String
  pub title : String
  pub description : String
  pub created_time : Time
  pub status : String
  pub is_business : Bool
  pub price_value : Float64  -- price.regularPrice
  pub price_currency : String
  pub location : AdLocation
  pub map_lat : Float64
  pub map_lon : Float64
  pub user : AdUser
  pub params : Bytes
  pub category : String

pub record Prerendered : Type 0 where
  pub ad : Ad
  pub breadcrumbs : List Breadcrumb

-- What encoding/json, goquery, crypto/sha256, strconv, strings and the comparisons of float64 do.
pub record Reading : Type 0 where
  pub decode_string : Bytes → Result Bytes  -- into a string
  pub decode_state : Bytes → Result Prerendered
  pub first_title : Bytes → Result String  -- doc.Find("title").First().Text()
  pub bytes_of : String → Bytes
  pub sha256_hex : Bytes → String
  pub format_int : ℤ → String  -- in base 10
  pub format_float : Float64 → String  -- 'f', with 2 digits
  pub to_lower : String → String
  pub trim_space : String → String
  pub is_positive : Float64 → Bool  -- v > 0
  pub is_zero : Float64 → Bool  -- v == 0

-- strings.Contains(s, sep)
unfoldable pub contains : String → String → Bool
contains s sep = elim (find? s sep) [ none ↦ false | some _ ↦ true ]

abbrev pub is_zero_id : ℤ → Bool
is_zero_id (pos n) = n == 0
is_zero_id (negsuc n) = false

unfoldable pub seller_profile_url : String → String
seller_profile_url uuid =
    if str_eq uuid "" then "" else append "https://www.olx.ua/uk/user/" (append uuid "/")

unfoldable pub non_zero_time : Time → Option Time
non_zero_time t = if t == 0 then none else some t

-- s[:12], of a text of at least that many bytes
abbrev pub first_twelve : String → String
first_twelve s = elim (get? s 0 12) [ none ↦ s | some t ↦ t ]

module _ (reading : Reading) where
  -- what is written to the hash
  unfoldable pub joined : List String → Bytes
  joined [] = []
  joined (p ∷ parts) = reading.bytes_of p ++ 0 ∷ joined parts

  unfoldable pub sha256_new_sum : List String → String
  sha256_new_sum parts = reading.sha256_hex (joined parts)

  unfoldable pub hash_fragment : String → String
  hash_fragment s = first_twelve (sha256_new_sum (s ∷ []))

  unfoldable pub deal_type_from_href : String → String
  deal_type_from_href href =
      let h = reading.to_lower href in
      if contains h "/prodazha-"
      then "sale"
      else if contains h "/posutochno-" || contains h "/pochasovo-"
      then "rent_short"
      else if contains h "/arenda-" || contains h "/dolgosrochnaya-"
      then "rent_long"
      else ""

  -- the property type and the deal type
  unfoldable pub categorize_from_breadcrumbs : List Breadcrumb → String × String
  categorize_from_breadcrumbs (_ ∷ _ ∷ c ∷ []) = (reading.to_lower (reading.trim_space c.label), "")
  categorize_from_breadcrumbs (_ ∷ _ ∷ c ∷ d ∷ _) =
      (reading.to_lower (reading.trim_space c.label), deal_type_from_href d.href)
  categorize_from_breadcrumbs _ = ("", "")

  -- the text of the error carries that of the first one too
  unfoldable pub fallback_parse : String → Bytes → Error → Result Parsed
  fallback_parse page_url html state_err = elim (reading.first_title html) [
    | err e ↦ err (wrap "fallback parse" e)
    | ok title ↦ ok (record {
      seller = record {
        olx_user_id = append "stub-user-" (hash_fragment page_url);
        display_name = "Stub Seller";
        profile_url = page_url;
        registered_at = none;
        is_business = false;
      };
      listing = record {
        olx_listing_id = append "stub-listing-" (hash_fragment page_url);
        url = page_url;
        title = (if str_eq title "" then "(no title)" else title);
        description = "(fallback parse — __PRERENDERED_STATE__ not present)";
        price = none;
        currency = "";
        status = "";
        posted_at = none;
        city = "";
        district = "";
        address = "";
        lat = none;
        lon = none;
        property_type = "";
        deal_type = "";
        attributes = [];
      };
    })
  ]

  -- a map position counts unless both coordinates are zero
  abbrev pub has_position : Ad → Bool
  has_position a = not (reading.is_zero a.map_lat) || not (reading.is_zero a.map_lon)

  -- the seller and the listing of a decoded state
  unfoldable pub parsed_state : Prerendered → Parsed
  parsed_state p =
      let a = p.ad in
      let (property_type, deal_type) = categorize_from_breadcrumbs p.breadcrumbs in
      record {
        seller = record {
          olx_user_id = a.user.uuid;
          display_name = a.user.name;
          profile_url = seller_profile_url a.user.uuid;
          registered_at = non_zero_time a.user.created;
          is_business = a.is_business;
        };
        listing = record {
          olx_listing_id = reading.format_int a.id;
          url = a.url;
          title = a.title;
          description = a.description;
          price = (if reading.is_positive a.price_value then some a.price_value else none);
          currency = (if reading.is_positive a.price_value then a.price_currency else "");
          status = a.status;
          posted_at = non_zero_time a.created_time;
          city = a.location.city_name;
          district = a.location.district_name;
          address = a.location.path_name;
          lat = (if has_position a then some a.map_lat else none);
          lon = (if has_position a then some a.map_lon else none);
          property_type = property_type;
          deal_type = deal_type;
          attributes = a.params;
        };
      }

  unfoldable pub parse_state : Prerendered → Result Parsed
  parse_state p =
      if is_zero_id p.ad.id || str_eq p.ad.user.uuid ""
      then err (message "prerendered state missing required fields (ad.id / user.uuid)")
      else ok (parsed_state p)

  -- Parse
  unfoldable pub parse : String → Bytes → Result Parsed
  parse page_url html = elim (extract_prerendered_state reading.decode_string html) [
    | err e ↦ fallback_parse page_url html e
    | ok state ↦ elim (reading.decode_state state) [
      | err e ↦ err (wrap "decode prerendered state" e)
      | ok p ↦ parse_state p
    ]
  ]
