-- ===== src/Commands/Mains.antt =====
-- The mains of cmd/fetcher, cmd/parser and cmd/enricher, each with the queue and the handler that it
-- wires.
use real_estate_robot.Base.{String}
use real_estate_robot.Base.Values.{Duration}
use real_estate_robot.Runtime.Env.{Env, World, M}
use real_estate_robot.Queue.Names.{queue_listings_fetch, queue_listings_parse, queue_sellers_enrich}
use real_estate_robot.Queue.Consumer.{Handler}
use real_estate_robot.Fetcher.{Json as FetcherJson}
use real_estate_robot.Enrich.{Json as EnrichJson, new as new_enrich, handle as enrich_seller}
use real_estate_robot.Parser.Page.{Reading}
use real_estate_robot.Parser.Worker.{Json as ParserJson, handle as parse_page}
use real_estate_robot.Commands.{
  user_agent, Flags, handler_of, fetcher_handler, fetcher_config, parser_config, enricher_config,
  Booted, Boot, boot_worker,
}
use real_estate_robot.Commands.Booting.{Boots, boot_worker-Boots}

-- A worker with a database, with its own flags and what its libraries do.
pub data Program : Type 0 where
  fetcher : FetcherJson → Duration → Program
  parser : Reading → ParserJson → (M (Unit {0}) → M (Unit {0})) → Program
  enricher : EnrichJson → Duration → Program

abbrev pub queue_of : Program → String
queue_of (fetcher json min_refetch) = queue_listings_fetch
queue_of (parser reading json begin_func) = queue_listings_parse
queue_of (enricher json freshness) = queue_sellers_enrich

module _ (env : Env) where
  unfoldable pub fetcher_main : FetcherJson → Duration → Flags → Boot → World → Booted
  fetcher_main json min_refetch flags b w =
      boot_worker b (fetcher_config env json min_refetch flags) w

  unfoldable pub parser_main :
      Reading → ParserJson → (M (Unit {0}) → M (Unit {0})) → Flags → Boot → World → Booted
  parser_main reading json begin_func flags b w =
      boot_worker b (parser_config env reading json begin_func flags) w

  unfoldable pub enricher_main : EnrichJson → Duration → Flags → Boot → World → Booted
  enricher_main json freshness flags b w =
      boot_worker b (enricher_config env json freshness flags) w

  abbrev pub main : Program → Flags → Boot → World → Booted
  main (fetcher json min_refetch) flags b w = fetcher_main json min_refetch flags b w
  main (parser reading json begin_func) flags b w = parser_main reading json begin_func flags b w
  main (enricher json freshness) flags b w = enricher_main json freshness flags b w

  -- the method of the worker that the program builds
  abbrev pub method_of : Program → Handler
  method_of (fetcher json min_refetch) = fetcher_handler env json min_refetch
  method_of (parser reading json begin_func) = handler_of (parse_page env reading json begin_func)
  method_of (enricher json freshness) = handler_of (
      enrich_seller env (new_enrich (record { user_agent = user_agent; freshness = freshness }))
        json)

  -- The main of a worker with a database ends with status 1 where a variable is not set or one of
  -- its calls fails; else it has subscribed to the queue of its stage with the method of its worker,
  -- with a positive prefetch and a positive retry budget whatever its flags are, and no delivery is
  -- taken yet.
  pub main-Boots :
      (p : Program) (flags : Flags) (b : Boot) (w : World)
      → Boots (queue_of p) flags (method_of p) b w (main p flags b w)
  unfolding fetcher_main parser_main enricher_main
  main-Boots (fetcher json min_refetch) flags b w =
      boot_worker-Boots queue_listings_fetch flags (fetcher_handler env json min_refetch) b w
  main-Boots (parser reading json begin_func) flags b w =
      boot_worker-Boots queue_listings_parse flags
        (handler_of (parse_page env reading json begin_func)) b w
  main-Boots (enricher json freshness) flags b w =
      boot_worker-Boots queue_sellers_enrich flags
        (handler_of (
          enrich_seller env (new_enrich (record { user_agent = user_agent; freshness = freshness }))
            json))
        b w
