-- ===== src/Pipeline/Tests/Course.antt =====
-- The run of the fetcher and the parser's at a concrete URL.
use real_estate_robot.Base.{
  ◌^◌, ◌<◌, ◌≡◌, refl, ap, [], ◌∷◌, none, String, false, ◌≢◌, eq_iff, arith,
}
use real_estate_robot.Base.Int.{pos}
use real_estate_robot.Base.Values.{Bytes, ok}
use real_estate_robot.Runtime.Env.{start, Response}
use real_estate_robot.Runtime.Env.{read_limited, max_bytes}
use real_estate_robot.Runtime.Samples.{all_well, page_of_request}
use real_estate_robot.Storage.Fetches.{get_latest_fetch_by_url, latest_from}
use real_estate_robot.Fetcher.{Config, NextTask, get_request, handle as fetch_page}
use real_estate_robot.Parser.Page.{
  Parsed, parse as parse_html, fallback_parse, hash_fragment, sha256_new_sum,
}
use real_estate_robot.Parser.State.{extract_prerendered_state, index, has_prefix}
use real_estate_robot.Parser.Worker.{handle as parse_page}
use real_estate_robot.Parser.Worker.Samples.{begin_func, atomic, commits}
use real_estate_robot.Pipeline.System.{begun}
use real_estate_robot.Pipeline.Journey.{Handed}
use real_estate_robot.Pipeline.Journey.Arrival.{Arrived}
use real_estate_robot.Pipeline.Journey.Course.{handle-Arrived}
use real_estate_robot.Pipeline.Tests.Samples.{wire, reading}
use real_estate_robot.Pipeline.Tests.Codec.{codes, text_of-codes}

abbrev config : Config
config = record { user_agent = "robot"; min_refetch_interval = pos 0 }

abbrev url : String
url = "https://www.olx.ua/d/1"

abbrev reply : Response
reply = page_of_request (get_request "robot" url)

abbrev html : Bytes
html = 60 ∷ 62 ∷ []

abbrev stub : Parsed
stub = record {
  seller = record {
    olx_user_id = "stub-user-e3b0c44298fc";
    display_name = "Stub Seller";
    profile_url = url;
    registered_at = none;
    is_business = false;
  };
  listing = record {
    olx_listing_id = "stub-listing-e3b0c44298fc";
    url = url;
    title = "Flat";
    description = "(fallback parse — __PRERENDERED_STATE__ not present)";
    price = none;
    currency = "";
    status = "";
    posted_at = none;
    city = "";
    district = "";
    address = "";
    lat = none;
    lon = none;
    property_type = "";
    deal_type = "";
    attributes = [];
  };
}

readable : parse_html reading url html ≡ ok stub
unfolding parse_html fallback_parse extract_prerendered_state hash_fragment sha256_new_sum index
    has_prefix
readable = refl

whole : read_limited max_bytes reply.body ≡ ok html
unfolding read_limited
whole = refl

first : get_latest_fetch_by_url url start.db.fetches ≡ none
unfolding get_latest_fetch_by_url latest_from
first = refl

named : ◌≢◌ {A = String} url ""
named = ground (arith, eq_iff url "")

agree :
    (n : NextTask)
    → n.fetch_id < 2 ^ 63
    → wire.parser.decode_task (wire.fetcher.encode_next n)
      ≡ ok (record { fetch_id = pos n.fetch_id; url = n.url })
agree n h = ap (λ u. ok (record { fetch_id = pos n.fetch_id; url = u })) (text_of-codes n.url)

handle-Arrived_example :
    Handed wire.fetcher url html start (fetch_page all_well config wire.fetcher (codes url) start)
    × Arrived wire.parser stub
        (fetch_page all_well config wire.fetcher (codes url) start).1.confirmed
        (parse_page all_well reading wire.parser begin_func
          (wire.fetcher.encode_next (record { fetch_id = 1; url = url }))
          (fetch_page all_well config wire.fetcher (codes url) start).1)
handle-Arrived_example =
    handle-Arrived wire all_well (λ n. refl) (λ n. refl) (λ n. refl) config reading begin_func
      atomic commits agree url reply html stub refl (λ n. refl) whole (omega arith) readable begun
      (codes url) (ap (λ u. ok (record { url = u })) (text_of-codes url)) named first (omega arith)
