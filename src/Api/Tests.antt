-- ===== src/Api/Tests.antt =====
-- The API's theorems at concrete requests and tables, and two runs that its limit and its routes
-- decide.
use real_estate_robot.Base.{◌≡◌, refl, true, false, none, some, [], ◌∷◌, arith}
use real_estate_robot.Base.Int.{pos, negsuc}
use real_estate_robot.Base.Values.{Float64, ok}
use real_estate_robot.Storage.Rows.{Seller}
use real_estate_robot.Storage.Sellers.{inserted, get_seller_by_olx_id}
use real_estate_robot.Runtime.Env.{World, Stream, start}
use real_estate_robot.Runtime.Samples.{all_well, some_body}
use real_estate_robot.Classification.Score.{Calendar}
use real_estate_robot.Classification.Views.{classifications_in}
use real_estate_robot.Classification.Queries.{get_seller_classification, number}
use real_estate_robot.Api.{Server, CrawlRequest, Formats, Query, labeled, int_param, values, int32}
use real_estate_robot.Api.Handlers.{label, get_listings, get_stats, patch_label, post_crawl, capped}
use real_estate_robot.Api.Replies.{reply, label_value}
use real_estate_robot.Api.Handlers.Limits.{Listed, get_listings-Listed, asked}
use real_estate_robot.Api.Handlers.Labels.{relabeled, map_ok, patch_label-get_seller_classification}
use real_estate_robot.Api.Handlers.Crawls.{Crawled, post_crawl-Crawled}
use real_estate_robot.Api.Handlers.Totals.{Totaled, get_stats-Totaled}
use real_estate_robot.Api.Routes.{
  Incoming, Mux, found, listings, handle, IsUnchanged, handle-IsUnchanged,
}

abbrev calendar : Calendar
calendar = record { two_years_before = λ t. 100; six_months_before = λ t. 400 }

abbrev zero_float : Float64
zero_float = record { bits = 0 }

abbrev kyiv : CrawlRequest
kyiv = record { city_slug = "kiev"; category_slug = "prodazha-kvartir" }

abbrev formats : Formats
formats = record {
  decode_label = λ b. ok (some "owner");
  decode_crawl = λ b. ok kyiv;
  encode_task = λ t. some_body;
  decode_consumers = λ b. ok [];
  trim_space = λ s. s;
  atoi = λ s. some (pos 5_000);
  parse_float = λ s. none;
  zero_float = zero_float;
  format_float_4 = λ f. "0.0000";
  scan = λ s. number (record { coefficient = pos 0; exponent = negsuc 3 });
  rfc3339 = λ t. "2026-01-01T00:00:00Z";
  float_of = λ d. none;
  float_of_hundredths = λ n. zero_float;
  average = λ l. zero_float;
  collation = λ a b. true;
  basic_auth = λ u p. "Basic";
}

abbrev request_body : Stream
request_body = record { bytes = some_body; fault = none }

abbrev server : Server
server = record {
  has_publisher = true;
  rabbit_mgmt = "http://localhost:15672";
  rabbit_user = "olx";
  rabbit_pass = "olx";
}

abbrev seller : Seller
seller = inserted 10 1 (record {
  olx_user_id = "u1";
  display_name = some "Olena";
  profile_url = none;
  is_business = false;
  phone_hash = none;
  avatar_url = none;
  location = none;
  registered_at = some 7;
  raw = [];
})

abbrev with_seller : World
with_seller = record start { db = record start.db { sellers = seller ∷ [] } }

abbrev large : Query
large = ("limit", "5000" ∷ []) ∷ []

asks_much : asked formats large ≡ pos 5_000
unfolding int_param values
asks_much = refl

get_listings-Listed_example :
    Listed all_well calendar formats server large with_seller
      (get_listings all_well calendar formats server large with_seller).0
get_listings-Listed_example =
    get_listings-Listed all_well calendar formats server large with_seller
      (ground (arith, asks_much))

patched :
    (patch_label all_well calendar formats server "u1" request_body with_seller).0
    ≡ reply 200 (labeled "u1" (label_value (some "owner")))
unfolding patch_label label get_seller_by_olx_id
patched = refl

patch_label-get_seller_classification_example :
    get_seller_classification "u1" (
      classifications_in calendar 900
        (patch_label all_well calendar formats server "u1" request_body with_seller).1.db)
    ≡ map_ok
        (relabeled "u1" (label_value (some "owner")))
        (get_seller_classification "u1" (classifications_in calendar 900 with_seller.db))
patch_label-get_seller_classification_example =
    patch_label-get_seller_classification all_well calendar formats server "u1" request_body
      (some "owner") with_seller 900 "u1" refl patched

post_crawl-Crawled_example :
    Crawled all_well calendar formats server request_body start
      (post_crawl all_well calendar formats server request_body start)
post_crawl-Crawled_example = post_crawl-Crawled all_well calendar formats server request_body start

get_stats-Totaled_example :
    Totaled all_well calendar formats server with_seller
      (get_stats all_well calendar formats server with_seller).0
get_stats-Totaled_example = get_stats-Totaled all_well calendar formats server with_seller

abbrev mux : Mux
mux routes method path = found listings ""

abbrev list_request : Incoming
list_request = record { method = "GET"; path = "/api/listings"; query = large; body = request_body }

handle-IsUnchanged_example :
    IsUnchanged all_well calendar formats server mux with_seller
      (handle all_well calendar formats server mux list_request with_seller).1
handle-IsUnchanged_example =
    handle-IsUnchanged all_well calendar formats server mux list_request with_seller refl

-- A limit below -2^31 passes the cap and becomes a positive number of 32 bits.
wrapped_limit : int32 (capped (negsuc 2_294_967_295)) ≡ pos 2_000_000_000
unfolding int32 capped
wrapped_limit = refl
