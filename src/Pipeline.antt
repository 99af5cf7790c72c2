-- ===== src/Pipeline.antt =====
-- The workers, the scheduler, the API and the classifier as one system around the database and the
-- broker: what a message and a table promise to the part that reads them.
pub mod Sellers
pub mod Tables
pub mod Sending
pub mod Fetching
pub mod Exploring
pub mod Enriching
pub mod Parsing
pub mod Saving
pub mod Storing
pub mod Serving
pub mod Scheduling
pub mod System
pub mod Handoffs
pub mod Views
pub mod Columns
pub mod Counts
pub mod Journey
mod Tests
use real_estate_robot.Base.{
  ℕ, ◌≤◌, ◌≡◌, ◌≢◌, ◌⊎◌, String, true, some, none, Option, List, [], ◌∷◌, map, All, In,
}
use real_estate_robot.Base.Int.{ℤ}
use real_estate_robot.Base.Values.{Bytes}
use real_estate_robot.Storage.Rows.{Db, Seller, Listing, ListingSnapshot, ListingHtmlFetch, Serials}
use real_estate_robot.Storage.Sellers.{get_seller_by_olx_id}
use real_estate_robot.Storage.Sellers.Keys.{IsKeyed}
use real_estate_robot.Storage.Listings.Keys.{IsUnique}
use real_estate_robot.Storage.Fetches.{get_fetch_by_id}
use real_estate_robot.Runtime.Env.{World, Message}
use real_estate_robot.Queue.Names.{
  exchange_dead, queue_listings_discover, queue_listings_fetch, queue_listings_parse,
  queue_sellers_enrich,
}
use real_estate_robot.Fetcher.{Json as FetcherJson}
use real_estate_robot.Discovery.{Json as DiscoveryJson, is_listing_url}
use real_estate_robot.Enrich.{Json as EnrichJson}
use real_estate_robot.Parser.Worker.{Json as ParserJson}
use real_estate_robot.Scheduler.{DiscoveryTask as SchedulerTask}
use real_estate_robot.Api.{Formats}
use real_estate_robot.Pipeline.Tables.{seller_ids, listing_ids, IsNumbered, IsOwned, IsCaptured}
use real_estate_robot.Pipeline.Sellers.{HasSeller}

-- What encoding/json does in each of the programs.
pub record Wire : Type 0 where
  pub discovery : DiscoveryJson
  pub fetcher : FetcherJson
  pub parser : ParserJson
  pub enrich : EnrichJson
  pub schedule : SchedulerTask → Bytes
  pub api : Formats

-- The bodies that ask for a page of a search: of the discovery worker, the scheduler and the API.
abbrev pub search_bodies : Wire → String → ℤ → List Bytes
search_bodies wire url page =
    wire.discovery.encode_task (record { search_url = url; page = page })
    ∷ wire.schedule (record { search_url = url; page = page })
    ∷ wire.api.encode_task (record { search_url = url; page = page })
    ∷ []

-- The bodies that ask for the page of a URL: of the discovery worker and the enricher.
abbrev pub fetch_bodies : Wire → String → List Bytes
fetch_bodies wire url = wire.discovery.encode_fetch url ∷ wire.enrich.encode_fetch url ∷ []

-- What a message says about the tables, by the queue that it is for. A body may stand on the dead
-- exchange whatever it is.
pub data IsWork (wire : Wire) (db : Db) (m : Message) : Type 0 where
  search :
      (url : String) (page : ℤ)
      → url ≢ ""
      → m.routing_key ≡ queue_listings_discover
      → In m.body (search_bodies wire url page)
      → IsWork wire db m
  fetch :
      (url : String)
      → is_listing_url url ≡ true
      → m.routing_key ≡ queue_listings_fetch
      → In m.body (fetch_bodies wire url)
      → IsWork wire db m
  parse :
      (row : ListingHtmlFetch) (html : Bytes)
      → row.id ≢ 0
      → get_fetch_by_id row.id db.fetches ≡ some row
      → row.html ≡ some html
      → m.routing_key ≡ queue_listings_parse
      → m.body ≡ wire.fetcher.encode_next (record { fetch_id = row.id; url = row.url })
      → IsWork wire db m
  enrich :
      (olx_user_id : String)
      → olx_user_id ≢ ""
      → HasSeller olx_user_id db.sellers
      → m.routing_key ≡ queue_sellers_enrich
      → m.body ≡ wire.parser.encode_next olx_user_id
      → IsWork wire db m
  given_up : m.exchange ≡ exchange_dead → IsWork wire db m

-- What the parts together keep: each table's keys are unique, each number that a row refers to is
-- that of a row, each number is at most the last one drawn, and each message handed to the broker
-- is one that its reader can work on.
pub record IsConsistent (wire : Wire) (db : Db) (serials : Serials) (sent : List Message)
    : Type 0 where
  pub keyed : IsKeyed db.sellers
  pub sellers_numbered : IsNumbered serials.seller (seller_ids db.sellers)
  pub listings_numbered : IsNumbered serials.listing (listing_ids db.listings)
  pub owned : All (IsOwned (seller_ids db.sellers)) db.listings
  pub captured : All (IsCaptured (listing_ids db.listings)) db.snapshots
  pub unique : IsUnique db.snapshots
  pub fetches_numbered : All (λ r. r.id ≤ serials.fetch) db.fetches
  pub workable : All (IsWork wire db) sent

abbrev pub IsSound : Wire → World → Type 0
IsSound wire w = IsConsistent wire w.db w.serials w.sent
