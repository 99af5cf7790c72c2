-- ===== src/Storage/Rows.antt =====
-- The rows of internal/db/sqlc/models.go, and the tables that hold them.
use real_estate_robot.Base.{ℕ, String, Bool, Option, List, []}
use real_estate_robot.Base.Int.{ℤ}
use real_estate_robot.Base.Values.{Bytes, Time, Float64, Decimal, Text, Timestamptz}

pub record Seller : Type 0 where
  pub id : ℕ
  pub olx_user_id : String
  pub display_name : Text
  pub profile_url : Text
  pub registered_at : Timestamptz
  pub is_business : Bool
  pub phone_hash : Text
  pub avatar_url : Text
  pub location : Text
  pub raw : Bytes
  pub first_seen_at : Time
  pub last_seen_at : Time
  pub last_scraped_at : Timestamptz
  pub created_at : Time
  pub updated_at : Time
  pub last_enriched_at : Timestamptz
  pub manual_label : Text

pub record Listing : Type 0 where
  pub id : ℕ
  pub olx_listing_id : String
  pub seller_id : Option ℕ
  pub url : String
  pub title : Text
  pub description : Text
  pub price : Option Decimal
  pub currency : Text
  pub deal_type : Text
  pub property_type : Text
  pub rooms : Option ℤ
  pub area_total : Option Decimal
  pub area_living : Option Decimal
  pub floor : Option ℤ
  pub floors_total : Option ℤ
  pub city : Text
  pub district : Text
  pub address : Text
  pub lat : Option Float64
  pub lon : Option Float64
  pub posted_at : Timestamptz
  pub updated_at_remote : Timestamptz
  pub status : String
  pub attributes : Bytes
  pub raw : Bytes
  pub first_seen_at : Time
  pub last_seen_at : Time
  pub last_scraped_at : Timestamptz
  pub created_at : Time
  pub updated_at : Time

pub record ListingHtmlFetch : Type 0 where
  pub id : ℕ
  pub url : String
  pub status_code : ℤ  -- int16
  pub html : Option Bytes
  pub headers : Bytes
  pub error : Text
  pub fetched_at : Time

pub record ListingSnapshot : Type 0 where
  pub id : ℕ
  pub listing_id : ℕ
  pub price : Option Decimal
  pub currency : Text
  pub status : Text
  pub title : Text
  pub raw_hash : String
  pub captured_at : Time

-- A row of the materialized view seller_stats.
pub record SellerStat : Type 0 where
  pub seller_id : ℕ
  pub olx_user_id : String
  pub is_business : Bool
  pub listings_total : ℕ
  pub listings_active : ℕ
  pub districts_count : ℕ
  pub cities_count : ℕ
  pub first_listing_at : Timestamptz
  pub last_listing_at : Timestamptz

pub record Db : Type 0 where
  pub sellers : List Seller
  pub listings : List Listing
  pub snapshots : List ListingSnapshot
  pub fetches : List ListingHtmlFetch
  pub seller_stats : List SellerStat  -- as of its last refresh

-- The BIGSERIAL sequences: the last number drawn from each. A rollback gives no number back.
pub record Serials : Type 0 where
  pub seller : ℕ
  pub listing : ℕ
  pub snapshot : ℕ
  pub fetch : ℕ

abbrev pub no_rows_yet : Db
no_rows_yet = record {
  sellers = [];
  listings = [];
  snapshots = [];
  fetches = [];
  seller_stats = [];
}
