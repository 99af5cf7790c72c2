-- ===== src/Api/Replies.antt =====
-- The replies that the handlers of internal/api/server.go make of what the queries return.
use Prim.Native.String.{◌++◌ as append}
use real_estate_robot.Base.{
  ℕ, suc, String, str_eq, ltb, Option, none, some, List, [], ◌∷◌, map, if◌then◌else◌,
}
use real_estate_robot.Base.Values.{Result, ok, err}
use real_estate_robot.Queue.Names.{
  queue_listings_discover, queue_listings_fetch, queue_listings_parse, queue_sellers_enrich,
}
use real_estate_robot.Classification.Queries.{
  GetDistinctCitiesRow, GetDistinctCategoriesRow, GetSellerCountsRow,
}
use real_estate_robot.Api.{
  Stats, Category, CityCount, WorkerStatus, CrawlRequest, Payload, failure, categories, cities,
  workers, labeled, crawling, Reply, text_of,
}

abbrev pub reply : ℕ → Payload → Reply
reply status payload = record { status = status; payload = payload }

abbrev pub query_failed : Reply
query_failed = reply 500 (failure "query failed")

-- if !r.City.Valid { continue }
unfoldable pub city_counts : List GetDistinctCitiesRow → List CityCount
city_counts [] = []
city_counts (r ∷ rows) = elim r.city [
  | none ↦ city_counts rows
  | some c ↦ record { city = c; count = r.n } ∷ city_counts rows
]

abbrev pub category_of : GetDistinctCategoriesRow → Category
category_of r = record {
  property_type = text_of r.property_type;
  deal_type = text_of r.deal_type;
  count = r.n;
}

abbrev pub fill_row : Stats → GetSellerCountsRow → Stats
fill_row st row =
    if row.is_business
    then record st { business_sellers = row.sellers; business_avg_score = row.avg_score }
    else record st { private_sellers = row.sellers; private_avg_score = row.avg_score }

-- the loop over the groups
unfoldable pub fill : Stats → List GetSellerCountsRow → Stats
fill st [] = st
fill st (row ∷ rows) = fill (fill_row st row) rows

-- counts[q]
unfoldable pub consumers_on : String → List String → ℕ
consumers_on q [] = 0
consumers_on q (c ∷ rest) = let n = consumers_on q rest in if str_eq c q then suc n else n

abbrev pub worker_queues : List (String × String)
worker_queues =
    ("discovery", queue_listings_discover)
    ∷ ("fetcher", queue_listings_fetch)
    ∷ ("parser", queue_listings_parse)
    ∷ ("enricher", queue_sellers_enrich)
    ∷ []

abbrev pub status_of : List String → String × String → WorkerStatus
status_of consumers (name, q) = record {
  name = name;
  queue = q;
  running = ltb 0 (consumers_on q consumers);
  consumers = consumers_on q consumers;
}

abbrev pub cities_reply : Result (List GetDistinctCitiesRow) → Reply
cities_reply (err e) = query_failed
cities_reply (ok rows) = reply 200 (cities (city_counts rows))

abbrev pub categories_reply : Result (List GetDistinctCategoriesRow) → Reply
categories_reply (err e) = query_failed
categories_reply (ok rows) = reply 200 (categories (map category_of rows))

abbrev pub label_value : Option String → String
label_value none = ""
label_value (some l) = l

abbrev pub label_reply : String → String → Result (Unit {0}) → Reply
label_reply olx_user_id value (err e) = reply 500 (failure "db error")
label_reply olx_user_id value (ok _) = reply 200 (labeled olx_user_id value)

abbrev pub crawl_url : CrawlRequest → String
crawl_url req =
    append "https://www.olx.ua/uk/nedvizhimost/"
      (append req.category_slug (append "/" (append req.city_slug "/")))

abbrev pub crawl_reply : CrawlRequest → Result (Unit {0}) → Reply
crawl_reply req (err e) = reply 500 (failure "failed to queue task")
crawl_reply req (ok _) = reply 202 (crawling (crawl_url req))

abbrev pub workers_reply : List String → Reply
workers_reply consumers = reply 200 (workers (map (status_of consumers) worker_queues))
