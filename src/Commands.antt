-- ===== src/Commands.antt =====
-- The mains of cmd/fetcher, cmd/discovery, cmd/parser, cmd/enricher, cmd/consume, cmd/publish,
-- cmd/topology and cmd/api, from their flags and variables on. os.Exit runs no deferred call, so an
-- error leaves to the end of the process what was open.
pub mod Booting
pub mod Fetching
pub mod Stages
pub mod Spreading
pub mod Mains
pub mod Serving
mod Tests
use real_estate_robot.Base.{
  String, str_eq, Bool, true, false, ◌||◌, Option, none, some, List, [], ◌∷◌, ◌++◌, if◌then◌else◌,
  ℕ, ◌==◌, not, length,
}
use real_estate_robot.Base.Int.{ℤ}
use real_estate_robot.Base.Values.{Bytes, Duration, Error, Result, ok, err, message}
use real_estate_robot.Runtime.Env.{Env, World, M}
use real_estate_robot.Queue.Names.{
  queue_listings_discover, queue_listings_fetch, queue_listings_parse, queue_sellers_enrich,
}
use real_estate_robot.Queue.Publisher.{publish}
use real_estate_robot.Queue.Topology.{Call, declare}
use real_estate_robot.Queue.Consumer.{
  Delivery, Handler, ConsumerConfig, Dialing, new_consumer, returned,
}
use real_estate_robot.Queue.Consumer.Run.{Running, start_consume}
use real_estate_robot.Connections.{Pooling, connect, Confirming, new_publisher}
use real_estate_robot.Api.{Server}
use real_estate_robot.Fetcher.{Config as FetcherConfig, Json as FetcherJson, handle as fetch_page}
use real_estate_robot.Discovery.{
  Config as DiscoveryConfig, Json as DiscoveryJson, Web, new as new_discovery, handle as discover,
}
use real_estate_robot.Enrich.{
  Config as EnrichConfig, Json as EnrichJson, new as new_enrich, handle as enrich_seller,
}
use real_estate_robot.Parser.Page.{Reading}
use real_estate_robot.Parser.Worker.{Json as ParserJson, handle as parse_page}

abbrev pub user_agent : String
user_agent = "olx-real-estate-robot (https://github.com/brtnchk/real-estate-robot)"

-- the flags of a consumer
pub record Flags : Type 0 where
  pub prefetch : ℤ
  pub max_retries : ℤ

-- A worker's method as the consumer calls it.
abbrev pub handler_of : (Bytes → M (Unit {0})) → Handler
handler_of h d w = (returned (h d.body w).0, (h d.body w).1)

abbrev pub config_of : String → Flags → Handler → ConsumerConfig
config_of q flags handler = record {
  queue = q;
  prefetch = flags.prefetch;
  max_retries = flags.max_retries;
  handler = some handler;
}

module _ (env : Env) where
  abbrev pub fetcher_handler : FetcherJson → Duration → Handler
  fetcher_handler json min_refetch =
      handler_of (
        fetch_page env (record { user_agent = user_agent; min_refetch_interval = min_refetch })
          json)

  abbrev pub fetcher_config : FetcherJson → Duration → Flags → ConsumerConfig
  fetcher_config json min_refetch flags =
      config_of queue_listings_fetch flags (fetcher_handler json min_refetch)

  abbrev pub discovery_config : Web → DiscoveryJson → ℤ → Flags → ConsumerConfig
  discovery_config web json max_page flags = config_of queue_listings_discover flags (
      handler_of (
        discover web env (new_discovery (record { user_agent = user_agent; max_page = max_page }))
          json))

  abbrev pub enricher_config : EnrichJson → Duration → Flags → ConsumerConfig
  enricher_config json freshness flags = config_of queue_sellers_enrich flags (
      handler_of (
        enrich_seller env (new_enrich (record { user_agent = user_agent; freshness = freshness }))
          json))

  abbrev pub parser_config :
      Reading → ParserJson → (M (Unit {0}) → M (Unit {0})) → Flags → ConsumerConfig
  parser_config reading json begin_func flags =
      config_of queue_listings_parse flags (handler_of (parse_page env reading json begin_func))

-- the handler of cmd/consume
abbrev pub sandbox_handler : Bool → Handler
sandbox_handler fail =
    handler_of
      (λ body w. (if fail then err (message "synthetic failure for testing") else ok tt, w))

-- How a main ends: with a status, or Run has subscribed and goes on from there.
pub data Booted : Type 0 where
  exited : ℕ → Booted
  running : ConsumerConfig → Running → Booted

-- The variables, and what the constructors and ConsumeWithContext answer.
pub record Boot : Type 0 where
  pub database_url : String
  pub amqp_url : String
  pub pooling : Pooling
  pub confirming : Confirming
  pub dialing : Dialing
  pub consume : Option Error

-- NewConsumer and Run
unfoldable pub boot_consumer : Boot → ConsumerConfig → World → Booted
boot_consumer b cfg w = elim (new_consumer b.dialing cfg).result [
  | err e ↦ exited 1
  | ok checked ↦ elim (start_consume b.consume w) [ err e ↦ exited 1 | ok s ↦ running checked s ]
]

-- NewPublisher, and what follows it
unfoldable pub boot_publisher : Boot → ConsumerConfig → World → Booted
boot_publisher b cfg w = elim (new_publisher b.confirming).result [
  | err e ↦ exited 1
  | ok _ ↦ boot_consumer b cfg w
]

-- Connect, and what follows it
unfoldable pub boot_pool : Boot → ConsumerConfig → World → Booted
boot_pool b cfg w = elim (connect b.pooling).result [
  | err e ↦ exited 1
  | ok _ ↦ boot_publisher b cfg w
]

-- main of cmd/fetcher, cmd/parser and cmd/enricher
unfoldable pub boot_worker : Boot → ConsumerConfig → World → Booted
boot_worker b cfg w =
    if str_eq b.database_url "" || str_eq b.amqp_url "" then exited 1 else boot_pool b cfg w

-- main of cmd/discovery
unfoldable pub boot_discovery : Boot → ConsumerConfig → World → Booted
boot_discovery b cfg w = if str_eq b.amqp_url "" then exited 1 else boot_publisher b cfg w

-- main of cmd/consume, from its arguments
unfoldable pub boot_sandbox : List String → Bool → Flags → Boot → World → Booted
boot_sandbox (q ∷ []) fail flags b w =
    if str_eq b.amqp_url ""
    then exited 1
    else boot_publisher b (config_of q flags (sandbox_handler fail)) w
boot_sandbox args fail flags b w = exited 2

-- main of cmd/publish, from its arguments: the status and the world
module _ (env : Env) (bytes_of : String → Bytes) where
  unfoldable pub publish_once : String → String → Confirming → World → ℕ × World
  publish_once q body c w = elim (new_publisher c).result [
    | err e ↦ (1, w)
    | ok _ ↦
        let (r, v) = publish env q (bytes_of body) w in elim r [ err e ↦ (1, v) | ok _ ↦ (0, v) ]
  ]

  unfoldable pub publish_main : List String → String → Confirming → World → ℕ × World
  publish_main (q ∷ body ∷ []) url c w = if str_eq url "" then (1, w) else publish_once q body c w
  publish_main args url c w = (2, w)

-- main of cmd/topology: the status, and the calls made on the channel
unfoldable pub topology_main :
    String → Option Error → Option Error → (List Call → Option Error) → ℕ × List Call
topology_main url dial open_channel broker = if str_eq url "" then (1, []) else elim dial [
  | some e ↦ (1, [])
  | none ↦ elim open_channel [
    | some e ↦ (1, [])
    | none ↦ let (r, calls) = declare broker in elim r [ err e ↦ (1, calls) | ok _ ↦ (0, calls) ]
  ]
]

abbrev pub or_else : String → String → String
or_else value fallback = if str_eq value "" then fallback else value

-- if amqpURL != "" { … }: whether there is a publisher
unfoldable pub has_publisher : String → Confirming → Bool
has_publisher amqp_url c =
    if str_eq amqp_url ""
    then false
    else elim (new_publisher c).result [ err e ↦ false | ok _ ↦ true ]

-- main of cmd/api up to the server, from its variables; none where it exits with status 1
unfoldable pub api_server :
    String → Pooling → String → Confirming → String → String → String → Option Server
api_server database_url pooling amqp_url c mgmt user pass =
    if str_eq database_url "" then none else elim (connect pooling).result [
      | err e ↦ none
      | ok _ ↦ some (record {
        has_publisher = has_publisher amqp_url c;
        rabbit_mgmt = or_else mgmt "http://localhost:15672";
        rabbit_user = or_else user "olx";
        rabbit_pass = or_else pass "olx";
      })
    ]
