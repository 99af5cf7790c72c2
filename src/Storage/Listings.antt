-- ===== src/Storage/Listings.antt =====
-- The queries of internal/db/sqlc/listings.sql.go on the tables listings and listing_snapshots.
pub mod Keys
use real_estate_robot.Base.{
  ℕ, ◌+◌, String, str_eq, ◌==◌, Bool, true, false, ◌&&◌, Option, none, some, List, [], ◌∷◌, ◌++◌,
  find?, if◌then◌else◌, length,
}
use real_estate_robot.Base.Values.{Bytes, Time, Float64, Decimal, Text, Timestamptz}
use real_estate_robot.Storage.Rows.{Listing, ListingSnapshot}

pub record UpsertListingParams : Type 0 where
  pub olx_listing_id : String
  pub seller_id : Option ℕ
  pub url : String
  pub title : Text
  pub description : Text
  pub price : Option Decimal
  pub currency : Text
  pub status : String
  pub deal_type : Text
  pub property_type : Text
  pub city : Text
  pub district : Text
  pub address : Text
  pub lat : Option Float64
  pub lon : Option Float64
  pub posted_at : Timestamptz
  pub attributes : Bytes
  pub raw : Bytes

-- INSERT INTO listings …, with the defaults of the other columns
abbrev pub inserted : Time → ℕ → UpsertListingParams → Listing
inserted now id p = record {
  id = id;
  olx_listing_id = p.olx_listing_id;
  seller_id = p.seller_id;
  url = p.url;
  title = p.title;
  description = p.description;
  price = p.price;
  currency = p.currency;
  deal_type = p.deal_type;
  property_type = p.property_type;
  rooms = none;
  area_total = none;
  area_living = none;
  floor = none;
  floors_total = none;
  city = p.city;
  district = p.district;
  address = p.address;
  lat = p.lat;
  lon = p.lon;
  posted_at = p.posted_at;
  updated_at_remote = none;
  status = p.status;
  attributes = p.attributes;
  raw = p.raw;
  first_seen_at = now;
  last_seen_at = now;
  last_scraped_at = some now;
  created_at = now;
  updated_at = now;
}

-- ON CONFLICT (olx_listing_id) DO UPDATE SET …, which leaves the url as it is; updated_at is set by
-- the table's trigger
abbrev pub updated : Time → UpsertListingParams → Listing → Listing
updated now p l = record l {
  seller_id = p.seller_id;
  title = p.title;
  description = p.description;
  price = p.price;
  currency = p.currency;
  status = p.status;
  deal_type = p.deal_type;
  property_type = p.property_type;
  city = p.city;
  district = p.district;
  address = p.address;
  lat = p.lat;
  lon = p.lon;
  posted_at = p.posted_at;
  attributes = p.attributes;
  raw = p.raw;
  last_seen_at = now;
  last_scraped_at = some now;
  updated_at = now;
}

unfoldable pub upsert_listing : Time → ℕ → UpsertListingParams → List Listing → List Listing
upsert_listing now id p [] = inserted now id p ∷ []
upsert_listing now id p (l ∷ rest) =
    if str_eq l.olx_listing_id p.olx_listing_id
    then updated now p l ∷ rest
    else l ∷ upsert_listing now id p rest

-- WHERE olx_listing_id = $1; with the table above, this is also the row that RETURNING gives
unfoldable pub get_listing_by_olx_id : String → List Listing → Option Listing
get_listing_by_olx_id olx_listing_id table =
    find? (λ l. str_eq l.olx_listing_id olx_listing_id) table

pub record InsertListingSnapshotParams : Type 0 where
  pub listing_id : ℕ
  pub price : Option Decimal
  pub currency : Text
  pub status : Text
  pub title : Text
  pub raw_hash : String

abbrev pub snapshot_row : Time → ℕ → InsertListingSnapshotParams → ListingSnapshot
snapshot_row now id p = record {
  id = id;
  listing_id = p.listing_id;
  price = p.price;
  currency = p.currency;
  status = p.status;
  title = p.title;
  raw_hash = p.raw_hash;
  captured_at = now;
}

-- whether a row stands under the unique pair (listing_id, raw_hash)
unfoldable pub has_snapshot : ℕ → String → List ListingSnapshot → Bool
has_snapshot listing_id raw_hash [] = false
has_snapshot listing_id raw_hash (s ∷ rest) =
    if s.listing_id == listing_id && str_eq s.raw_hash raw_hash
    then true
    else has_snapshot listing_id raw_hash rest

-- INSERT … ON CONFLICT (listing_id, raw_hash) DO NOTHING; the number of rows inserted is returned
unfoldable pub insert_listing_snapshot :
    Time → ℕ → InsertListingSnapshotParams → List ListingSnapshot → ℕ × List ListingSnapshot
insert_listing_snapshot now id p table =
    if has_snapshot p.listing_id p.raw_hash table
    then (0, table)
    else (1, table ++ snapshot_row now id p ∷ [])

-- SELECT COUNT(*) FROM listings
unfoldable pub count_listings : List Listing → ℕ
count_listings table = length table
