-- ===== src/Pipeline/Tests.antt =====
-- The system at a concrete history: one page is fetched, it is parsed, and its
-- seller's profile is read.
mod Codec
mod Course
mod Histories
mod Samples
use real_estate_robot.Base.{
  ℕ, ◌≡◌, refl, sym, subst, ap, ◌∙◌, inl, inr, String, true, Option, none, some, List, [], ◌∷◌, In,
}
use real_estate_robot.Base.Int.{ℤ, pos}
use real_estate_robot.Base.Values.{Duration, message, Result, ok, err}
use real_estate_robot.Storage.Rows.{Seller}
use real_estate_robot.Storage.Sellers.{get_seller_by_olx_id}
use real_estate_robot.Storage.Fetches.{get_fetch_by_id}
use real_estate_robot.Runtime.Env.{World, Message, start, tick}
use real_estate_robot.Runtime.Samples.{all_well, some_body}
use real_estate_robot.Queue.Names.{queue_listings_fetch, queue_listings_parse, queue_sellers_enrich}
use real_estate_robot.Queue.Publisher.Batch.{publish_each}
use real_estate_robot.Queue.Headers.{end}
use real_estate_robot.Queue.Headers.{x_death_count, count_of, lookup}
use real_estate_robot.Queue.Publisher.{work_message, publish, publishing}
use real_estate_robot.Queue.Consumer.{Delivery, dispatch, attempt, settle}
use real_estate_robot.Storage.Fetches.{insert_fetch}
use real_estate_robot.Runtime.Env.{read_limited}
use real_estate_robot.Classification.Queries.{null}
use real_estate_robot.Fetcher.{
  skips, download, fetch, received, store, insert, Config as FetcherConfig, handle as fetch_page,
}
use real_estate_robot.Discovery.{Json as DiscoveryJson, is_listing_url}
use real_estate_robot.Enrich.{
  Config as EnrichConfig, new as new_enrich, mark, enrich as enrich_row, look_up, visit, spread,
  fetch_profile, extract, collect, is_fresh, is_listing_url as is_link, contains,
  handle as enrich_seller,
}
use real_estate_robot.Parser.Page.{
  Reading, fallback_parse, hash_fragment, sha256_new_sum, parse as parse_html,
}
use real_estate_robot.Parser.State.{extract_prerendered_state, index, has_prefix}
use real_estate_robot.Storage.Sellers.{upsert_seller}
use real_estate_robot.Storage.Listings.{upsert_listing, insert_listing_snapshot}
use real_estate_robot.Parser.Worker.{
  Json as ParserJson, Task as ParserTask, digest, store as store_page, save, save_seller,
  save_listing, save_snapshot, handle as parse_page,
}
use real_estate_robot.Parser.Worker.Samples.{begin_func, atomic}
use real_estate_robot.Api.{Formats}
use real_estate_robot.Commands.{user_agent, fetcher_handler, handler_of}
use real_estate_robot.Pipeline.{Wire, IsConsistent, IsSound}
use real_estate_robot.Pipeline.System.{History, begun, then, parses, enriches, History-IsSound}
use real_estate_robot.Pipeline.Handoffs.{fetching, handle-knows_seller, handle-stays_on_site}
use real_estate_robot.Commands.Stages.{Accounted, Parsing, parser_delivery-Accounted}
use real_estate_robot.Commands.Spreading.{
  Enriching, enricher_delivery-Accounted, Exploring, discovery_delivery-Accounted,
}
use real_estate_robot.Discovery.{Config as DiscoveryConfig, handle as discover}
use real_estate_robot.Queue.Names.{queue_listings_discover}
use real_estate_robot.Pipeline.Tests.Samples.{wire, reading, web}
use real_estate_robot.Pipeline.Tests.Codec.{char_of, codes, text_of, text_of-codes}
use real_estate_robot.Pipeline.Tests.Histories.{
  asked, fetched, passed_on, stored, parsed_too, known, visited, enriched_too,
}
use real_estate_robot.Base.{All, map}
use real_estate_robot.Classification.Score.{Calendar}
use real_estate_robot.Classification.Views.{classifications_in, listings_in}
use real_estate_robot.Classification.Queries.{refresh_seller_stats}
use real_estate_robot.Pipeline.Views.{active_pairs, pair_of, listings_in_complete}
use real_estate_robot.Pipeline.Counts.{IsCounted, refresh_seller_stats-IsCounted}

-- After the three steps the tables and the messages agree.
History-IsSound_example : IsSound wire visited
History-IsSound_example = History-IsSound wire enriched_too

abbrev config : EnrichConfig
config = record { user_agent = "robot"; freshness = pos 0 }

abbrev fetcher_config : FetcherConfig
fetcher_config = record { user_agent = "robot"; min_refetch_interval = pos 0 }

-- The message that the fetcher has sent, and the parser's.
abbrev parse_message : Message
parse_message =
    work_message all_well queue_listings_parse (1 ∷ codes "https://www.olx.ua/d/1")
      (record start { ticks = 3 })

abbrev enrich_message : Message
enrich_message =
    work_message all_well queue_sellers_enrich (codes "stub-user-e3b0c44298fc")
      (record start { ticks = 8 })

enrich_sent : In enrich_message stored.sent
unfolding dispatch attempt x_death_count count_of lookup settle char_of fetch_page skips download
    fetch received read_limited store insert insert_fetch publish publishing parse_page digest
    store_page parse_html save save_seller save_listing save_snapshot get_fetch_by_id fallback_parse
    extract_prerendered_state hash_fragment sha256_new_sum index has_prefix upsert_seller
    upsert_listing insert_listing_snapshot
enrich_sent = inr (inl refl)

abbrev fetch_message : Message
fetch_message =
    work_message all_well queue_listings_fetch (codes "https://www.olx.ua/d/2")
      (record start { ticks = 12 })

-- The enricher's three steps behind the row of the seller.
fetch_sent : In fetch_message visited.sent
unfolding dispatch attempt x_death_count count_of lookup settle char_of fetch_page skips download
    fetch received read_limited store insert insert_fetch publish publishing parse_page digest
    store_page parse_html save save_seller save_listing save_snapshot get_fetch_by_id fallback_parse
    extract_prerendered_state hash_fragment sha256_new_sum index has_prefix upsert_seller
    upsert_listing insert_listing_snapshot enrich_seller new_enrich look_up get_seller_by_olx_id
    enrich_row visit spread fetch_profile extract collect is_fresh is_link contains publish_each
    mark
fetch_sent = inr (inr (inl refl))

enrich_agrees :
    (key : String)
    → wire.enrich.decode_task (wire.parser.encode_next key) ≡ ok (record { olx_user_id = key })
enrich_agrees key = ap (λ k. ok (record { olx_user_id = k })) (text_of-codes key)

handle-knows_seller_example :
    (key : String) × (seller : Seller) × (get_seller_by_olx_id key stored.db.sellers ≡ some seller)
    × (enrich_seller all_well config wire.enrich enrich_message.body stored
        ≡ enrich_row all_well config wire.enrich (ok seller) (tick stored))
handle-knows_seller_example =
    handle-knows_seller wire all_well config parsed_too enrich_message enrich_sent refl refl
      enrich_agrees refl

fetch_agrees : (url : String) → wire.fetcher.decode_task (codes url) ≡ ok (record { url = url })
fetch_agrees url = ap (λ u. ok (record { url = u })) (text_of-codes url)

handle-stays_on_site_example :
    (url : String) × (is_listing_url url ≡ true)
    × (fetch_page all_well fetcher_config wire.fetcher fetch_message.body visited
        ≡ fetching wire all_well fetcher_config url visited)
handle-stays_on_site_example =
    handle-stays_on_site wire all_well fetcher_config enriched_too fetch_message fetch_sent refl
      refl fetch_agrees fetch_agrees

parser_delivery-Accounted_example :
    Accounted all_well queue_listings_parse
      (Parsing all_well reading wire.parser begin_func passed_on.body fetched)
      passed_on
      fetched
      (dispatch all_well queue_listings_parse
        (pos 3)
        (handler_of (parse_page all_well reading wire.parser begin_func))
        passed_on
        fetched)
parser_delivery-Accounted_example =
    parser_delivery-Accounted all_well reading wire.parser begin_func atomic (pos 3) passed_on
      fetched

enricher_delivery-Accounted_example :
    Accounted all_well queue_sellers_enrich
      (Enriching all_well config wire.enrich known.body stored)
      known
      stored
      (dispatch all_well queue_sellers_enrich
        (pos 3)
        (handler_of (enrich_seller all_well config wire.enrich))
        known
        stored)
enricher_delivery-Accounted_example =
    enricher_delivery-Accounted all_well config wire.enrich (pos 3) known stored

abbrev two_pages : DiscoveryConfig
two_pages = record { user_agent = "robot"; max_page = pos 2 }

abbrev searched : Delivery
searched = record {
  headers = end;
  message_id = "id";
  body = codes "https://www.olx.ua/uk/nedvizhimost/";
}

discovery_delivery-Accounted_example :
    Accounted all_well queue_listings_discover
      (Exploring web all_well two_pages wire.discovery searched.body start)
      searched
      start
      (dispatch all_well queue_listings_discover
        (pos 3)
        (handler_of (discover web all_well two_pages wire.discovery))
        searched
        start)
discovery_delivery-Accounted_example =
    discovery_delivery-Accounted web all_well two_pages wire.discovery (pos 3) searched start

abbrev calendar : Calendar
calendar = record { two_years_before = λ t. 100; six_months_before = λ t. 400 }

listings_in_complete_example :
    map pair_of (listings_in calendar 900 visited.db) ≡ active_pairs visited.db.listings
listings_in_complete_example = listings_in_complete wire enriched_too calendar 900

refresh_seller_stats-IsCounted_example :
    All
      (IsCounted visited.db.listings)
      (classifications_in calendar 900 (refresh_seller_stats visited.db))
refresh_seller_stats-IsCounted_example =
    refresh_seller_stats-IsCounted wire enriched_too calendar 900
