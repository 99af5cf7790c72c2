-- ===== src/Parser/Worker.antt =====
-- internal/parser/worker.go: the worker on listings.parse. It parses a stored page, upserts the
-- seller and the listing with a snapshot in one transaction, and then asks for the enrichment.
pub mod Transactions
pub mod Atomicity
pub mod Reparse
pub mod Samples
use real_estate_robot.Base.{
  ℕ, suc, String, str_eq, Bool, true, false, Option, none, some, List, [], ◌∷◌, if◌then◌else◌, ◌==◌,
}
use real_estate_robot.Base.Int.{ℤ, pos, negsuc}
use real_estate_robot.Base.Values.{
  Bytes, Time, Text, Timestamptz, Float64, Decimal, Error, no_rows, message, wrap, Result, ok, err,
}
use real_estate_robot.Storage.Rows.{Db, Seller, Listing, ListingHtmlFetch}
use real_estate_robot.Storage.Sellers.{UpsertSellerParams, upsert_seller, get_seller_by_olx_id}
use real_estate_robot.Storage.Listings.{
  UpsertListingParams, upsert_listing, get_listing_by_olx_id, InsertListingSnapshotParams,
  insert_listing_snapshot,
}
use real_estate_robot.Storage.Fetches.{get_fetch_by_id}
use real_estate_robot.Runtime.Env.{Env, World, M, pure, raise, lift, wrapping, ◌>>=◌, ◌>>◌}
use real_estate_robot.Runtime.Actions.{query, statement}
use real_estate_robot.Queue.Names.{queue_sellers_enrich}
use real_estate_robot.Queue.Publisher.{publish}
use real_estate_robot.Parser.Page.{Parsed, Reading, is_zero_id, sha256_new_sum, parse}

pub record Task : Type 0 where
  pub fetch_id : ℤ
  pub url : String

-- What encoding/json does with the worker's types, and pgtype.Numeric.Scan with a text.
pub record Json : Type 0 where
  pub decode_task : Bytes → Result Task
  pub encode_next : String → Bytes  -- NextTask{OlxUserID: id}
  pub scan : String → Option Decimal

abbrev pub text : String → Text
text s = if str_eq s "" then none else some s

abbrev pub timestamptz_ptr : Option Time → Timestamptz
timestamptz_ptr none = none
timestamptz_ptr (some t) = if t == 0 then none else some t

abbrev pub default_if_empty : String → String → String
default_if_empty s fallback = if str_eq s "" then fallback else s

-- `{}`
abbrev pub empty_object : Bytes
empty_object = 123 ∷ 125 ∷ []

abbrev pub non_nil_json : Bytes → Bytes
non_nil_json [] = empty_object
non_nil_json (c ∷ j) = c ∷ j

-- `{"source":"parser"}`
abbrev pub source_parser : Bytes
source_parser =
    123 ∷ 34 ∷ 115 ∷ 111 ∷ 117 ∷ 114 ∷ 99 ∷ 101 ∷ 34 ∷ 58 ∷ 34 ∷ 112 ∷ 97 ∷ 114 ∷ 115 ∷ 101 ∷ 114
    ∷ 34 ∷ 125 ∷ []

-- the id of a BIGINT column
abbrev pub find_fetch : ℤ → World → Result ListingHtmlFetch
find_fetch (negsuc n) w = err no_rows
find_fetch (pos n) w = elim (get_fetch_by_id n w.db.fetches) [ none ↦ err no_rows | some r ↦ ok r ]

-- RETURNING id: that of the row in conflict, or the number drawn for a new row
abbrev pub seller_id : String → ℕ → List Seller → ℕ
seller_id key drawn table = elim (get_seller_by_olx_id key table) [ none ↦ drawn | some s ↦ s.id ]

abbrev pub listing_id : String → ℕ → List Listing → ℕ
listing_id key drawn table = elim (get_listing_by_olx_id key table) [ none ↦ drawn | some l ↦ l.id ]

module _ (env : Env) (reading : Reading) (json : Json) where
  abbrev pub numeric_from_float_ptr : Option Float64 → Option Decimal
  numeric_from_float_ptr none = none
  numeric_from_float_ptr (some f) = json.scan (reading.format_float f)

  abbrev pub format_float_ptr : Option Float64 → String
  format_float_ptr none = ""
  format_float_ptr (some f) = reading.format_float f

  unfoldable pub snapshot_hash : Parsed → String
  snapshot_hash res = sha256_new_sum reading (
      res.listing.title
      ∷ res.listing.status
      ∷ format_float_ptr res.listing.price
      ∷ res.listing.currency
      ∷ [])

  abbrev pub seller_params : Parsed → UpsertSellerParams
  seller_params res = record {
    olx_user_id = res.seller.olx_user_id;
    display_name = text res.seller.display_name;
    profile_url = text res.seller.profile_url;
    is_business = res.seller.is_business;
    phone_hash = none;
    avatar_url = none;
    location = none;
    registered_at = timestamptz_ptr res.seller.registered_at;
    raw = source_parser;
  }

  abbrev pub listing_params : Parsed → ℕ → UpsertListingParams
  listing_params res seller = record {
    olx_listing_id = res.listing.olx_listing_id;
    seller_id = some seller;
    url = res.listing.url;
    title = text res.listing.title;
    description = text res.listing.description;
    price = numeric_from_float_ptr res.listing.price;
    currency = text res.listing.currency;
    status = default_if_empty res.listing.status "active";
    deal_type = text res.listing.deal_type;
    property_type = text res.listing.property_type;
    city = text res.listing.city;
    district = text res.listing.district;
    address = text res.listing.address;
    lat = res.listing.lat;
    lon = res.listing.lon;
    posted_at = timestamptz_ptr res.listing.posted_at;
    attributes = non_nil_json res.listing.attributes;
    raw = source_parser;
  }

  abbrev pub snapshot_params : Parsed → ℕ → InsertListingSnapshotParams
  snapshot_params res listing = record {
    listing_id = listing;
    price = numeric_from_float_ptr res.listing.price;
    currency = text res.listing.currency;
    status = text res.listing.status;
    title = text res.listing.title;
    raw_hash = snapshot_hash res;
  }

  -- The three statements, each with the number that its sequence draws.
  unfoldable pub save_seller : UpsertSellerParams → M ℕ
  save_seller p = statement env (λ now w.
      let drawn = suc w.serials.seller in
      (
        seller_id p.olx_user_id drawn w.db.sellers,
        record w {
          db = record w.db { sellers = upsert_seller now drawn p w.db.sellers };
          serials = record w.serials { seller = drawn };
        },
      ))

  unfoldable pub save_listing : UpsertListingParams → M ℕ
  save_listing p = statement env (λ now w.
      let drawn = suc w.serials.listing in
      (
        listing_id p.olx_listing_id drawn w.db.listings,
        record w {
          db = record w.db { listings = upsert_listing now drawn p w.db.listings };
          serials = record w.serials { listing = drawn };
        },
      ))

  unfoldable pub save_snapshot : InsertListingSnapshotParams → M ℕ
  save_snapshot p = statement env (λ now w.
      let drawn = suc w.serials.snapshot in
      let (affected, table) = insert_listing_snapshot now drawn p w.db.snapshots in
      (
        affected,
        record w {
          db = record w.db { snapshots = table };
          serials = record w.serials { snapshot = drawn };
        },
      ))

  -- the function that runs inside the transaction
  unfoldable pub save : Parsed → M (Unit {0})
  save res = do
    seller ← wrapping (wrap "upsert seller") (save_seller (seller_params res))
    listing ← wrapping (wrap "upsert listing") (save_listing (listing_params res seller))
    wrapping (wrap "insert snapshot") (save_snapshot (snapshot_params res listing))
    pure tt

  -- pgx.BeginFunc(ctx, w.Pool, fn)
  module _ (begin_func : M (Unit {0}) → M (Unit {0})) where
    unfoldable pub store : Parsed → M (Unit {0})
    store res = do
      begin_func (save res)
      wrapping (wrap "publish enrich task")
          (publish env queue_sellers_enrich (json.encode_next res.seller.olx_user_id))

    -- what follows the lookup of the page
    unfoldable pub digest : String → ListingHtmlFetch → M (Unit {0})
    digest url fetch = elim fetch.html [
      | none ↦ pure tt
      | some html ↦ (do res ← wrapping (wrap "parse") (lift (parse reading url html)); store res)
    ]

    unfoldable pub handle : Bytes → M (Unit {0})
    handle body = do
      task ← wrapping (wrap "decode task") (lift (json.decode_task body))
      if is_zero_id task.fetch_id then raise (message "task has zero fetch_id") else do
        fetch ← wrapping (wrap "load fetch row") (query env (find_fetch task.fetch_id))
        digest task.url fetch
