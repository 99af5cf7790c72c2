-- ===== src/Api/Handlers.antt =====
-- The handlers of internal/api/server.go. Each makes its calls of the database, of the broker or of
-- its management API, and replies.
pub mod Limits
pub mod Labels
pub mod Crawls
pub mod Totals
use Prim.Native.String.{◌++◌ as append}
use real_estate_robot.Base.{
  ℕ, zero, suc, String, str_eq, ◌==◌, ltb, Bool, true, false, ◌||◌, ◌&&◌, not, Option, none, some,
  List, [], ◌∷◌, ◌++◌, map, if◌then◌else◌, find?,
}
use real_estate_robot.Base.Int.{ℤ, pos, ltb_ℤ}
use real_estate_robot.Base.Values.{
  Bytes, Time, Float64, Timestamptz, Error, message, Result, ok, err,
}
use real_estate_robot.Storage.Rows.{Seller, Db}
use real_estate_robot.Storage.Sellers.{get_seller_by_olx_id, label_seller}
use real_estate_robot.Runtime.Env.{
  Env, World, M, Request, Response, Stream, done, refused, lost, tick,
}
use real_estate_robot.Runtime.Actions.{query, statement, do_request}
use real_estate_robot.Queue.Names.{
  queue_listings_discover, queue_listings_fetch, queue_listings_parse, queue_sellers_enrich,
}
use real_estate_robot.Queue.Publisher.{publish}
use real_estate_robot.Classification.Score.{Calendar}
use real_estate_robot.Classification.Views.{
  SellerClassification, ListingsWithClassification, classifications_in, listings_in,
}
use real_estate_robot.Classification.Queries.{
  ListListingsForApiParams, list_listings_for_api, GetDistinctCitiesRow, get_distinct_cities,
  GetDistinctCategoriesRow, get_distinct_categories, GetSellerCountsRow, get_seller_counts,
  get_last_parsed_at, refresh_seller_stats,
}
use real_estate_robot.Api.{
  Server, Stats, Category, CityCount, WorkerStatus, CrawlRequest, DiscoveryTask, Payload, healthy,
  failure, listings, stats, categories, cities, workers, labeled, crawling, nothing, Reply, Query,
  Formats, get, int32, text_of, int_param, float_param, numeric_from_float, to_api_listing,
}
use real_estate_robot.Api.Replies.{
  reply, query_failed, fill, cities_reply, categories_reply, label_value, label_reply, crawl_url,
  crawl_reply, workers_reply,
}

-- the CHECK of migrations/0007: a label is NULL, 'owner' or 'agency'
abbrev pub is_label : String → Bool
is_label label = str_eq label "" || str_eq label "owner" || str_eq label "agency"

-- The CHECK is of a row that is updated: without a row of this seller there is none.
abbrev pub keeps_check : String → String → Db → Bool
keeps_check label olx_user_id db = elim (get_seller_by_olx_id olx_user_id db.sellers) [
  | none ↦ true
  | some _ ↦ is_label label
]

abbrev pub relabel : String → String → Time → World → Unit {0} × World
relabel value olx_user_id now w = (
  tt,
  record w { db = record w.db { sellers = label_seller now value olx_user_id w.db.sellers } },
)

-- how a handler ends: with a reply, or with a panic, which net/http turns into a closed connection
pub data Served : Type 0 where
  replied : Reply → Served
  panicked : Served

-- the hard cap
unfoldable pub capped : ℤ → ℤ
capped limit = if ltb_ℤ (pos 1000) limit then pos 1000 else limit

module _ (env : Env) (calendar : Calendar) (formats : Formats) (server : Server) where
  abbrev pub view : World → List ListingsWithClassification
  view w = listings_in calendar (env.db_clock w.ticks) w.db

  unfoldable pub listings_params : Query → ListListingsForApiParams
  listings_params q = record {
    max_age_days = int32 (int_param formats q "max_age_days" (pos 30));
    min_score = numeric_from_float formats (float_param formats q "min_score" formats.zero_float);
    property_type = formats.trim_space (get "property_type" q);
    deal_type = formats.trim_space (get "deal_type" q);
    city = formats.trim_space (get "city" q);
    limit_n = int32 (capped (int_param formats q "limit" (pos 200)));
  }

  abbrev pub list_rows : Query → World → Result (List ListingsWithClassification)
  list_rows q w = list_listings_for_api (env.db_clock w.ticks) (listings_params q) (view w)

  abbrev pub listings_reply : Result (List ListingsWithClassification) → Reply
  listings_reply (err e) = query_failed
  listings_reply (ok rows) = reply 200 (listings (map (to_api_listing formats) rows))

  unfoldable pub get_listings : Query → World → Reply × World
  get_listings q w = let (r, w') = query env (list_rows q) w in (listings_reply r, w')

  unfoldable pub get_cities : World → Reply × World
  get_cities w =
      let (r, w') = query env (λ v. ok (get_distinct_cities formats.collation (view v))) w in
      (cities_reply r, w')

  unfoldable pub get_categories : World → Reply × World
  get_categories w =
      let (r, w') = query env (λ v. ok (get_distinct_categories formats.collation (view v))) w in
      (categories_reply r, w')

  abbrev pub no_stats : Stats
  no_stats = record {
    private_sellers = 0;
    business_sellers = 0;
    private_avg_score = formats.zero_float;
    business_avg_score = formats.zero_float;
    last_parsed_at = none;
  }

  -- an error, like a NULL, leaves the field empty
  abbrev pub last_parsed : Result Timestamptz → Option String
  last_parsed (err e) = none
  last_parsed (ok none) = none
  last_parsed (ok (some t)) = some (formats.rfc3339 t)

  unfoldable pub stats_reply : Result (List GetSellerCountsRow) → World → Reply × World
  stats_reply (err e) w = (query_failed, w)
  stats_reply (ok rows) w =
      let (r, w') = query env (λ v. ok (get_last_parsed_at v.db.listings)) w in
      (reply 200 (stats (record (fill no_stats rows) { last_parsed_at = last_parsed r })), w')

  unfoldable pub get_stats : World → Reply × World
  get_stats w =
      let (r, w') =
        query env
          (λ v. ok (
            get_seller_counts formats.average
              (classifications_in calendar (env.db_clock v.ticks) v.db)))
          w in
      stats_reply r w'

  -- LabelSeller as a statement: refused where it would break the CHECK
  unfoldable pub label : String → String → M (Unit {0})
  label value olx_user_id w =
      if keeps_check value olx_user_id w.db
      then statement env (relabel value olx_user_id) w
      else (err (message "violates check constraint"), tick w)

  unfoldable pub patch_label : String → Stream → World → Reply × World
  patch_label olx_user_id body w =
      if str_eq olx_user_id ""
      then (reply 400 (failure "missing olx_user_id"), w)
      else elim (formats.decode_label body) [
        | err e ↦ (reply 400 (failure "invalid JSON"), w)
        | ok value ↦
            let (r, w') = label (label_value value) olx_user_id w in
            (label_reply olx_user_id (label_value value) r, w')
      ]

  abbrev pub crawl_body : CrawlRequest → Bytes
  crawl_body req = formats.encode_task (record { search_url = crawl_url req; page = pos 1 })

  unfoldable pub queue_crawl : CrawlRequest → World → Reply × World
  queue_crawl req w =
      if str_eq req.city_slug "" || str_eq req.category_slug ""
      then (reply 400 (failure "city_slug and category_slug are required"), w)
      else let (r, w') = publish env queue_listings_discover (crawl_body req) w in
        (crawl_reply req r, w')

  unfoldable pub post_crawl : Stream → World → Reply × World
  post_crawl body w =
      if server.has_publisher
      then elim (formats.decode_crawl body) [
        | err e ↦ (reply 400 (failure "invalid JSON"), w)
        | ok req ↦ queue_crawl req w
      ]
      else (reply 503 (failure "AMQP not configured — start api with AMQP_URL set"), w)

  abbrev pub consumers_request : Request
  consumers_request = record {
    url = append server.rabbit_mgmt "/api/consumers/%2F";
    headers = ("Authorization", formats.basic_auth server.rabbit_user server.rabbit_pass) ∷ [];
  }

  -- no consumers where the call fails, answers another status, or does not decode
  unfoldable pub consumers_in : Result Response → List String
  consumers_in (err e) = []
  consumers_in (ok resp) =
      if resp.status == 200
      then elim (formats.decode_consumers resp.body) [ err e ↦ [] | ok qs ↦ qs ]
      else []

  -- The error of NewRequestWithContext is dropped: its request is nil then, and SetBasicAuth panics.
  unfoldable pub get_worker_status : World → Served × World
  get_worker_status w = elim (env.bad_url consumers_request.url) [
    | some e ↦ (panicked, w)
    | none ↦
        let (r, w') = do_request env consumers_request w in
        (replied (workers_reply (consumers_in r)), w')
  ]

  -- RefreshSellerStats
  unfoldable pub refresh : M (Unit {0})
  refresh = statement env (λ now w. (tt, record w { db = refresh_seller_stats w.db }))

  -- the ticks of StartBackgroundRefresh: an error is logged, and the loop goes on
  unfoldable pub background_refresh : ℕ → World → World
  background_refresh zero w = w
  background_refresh (suc n) w = background_refresh n (refresh w).1
