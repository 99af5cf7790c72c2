-- ===== src/Connections/Workers.antt =====
-- The constructors of the workers that make requests: New of internal/fetcher/fetcher.go,
-- internal/discovery/discovery.go and internal/enrich/enrich.go, with their client and limiter. The
-- queries, the publisher and the log that they pass on are those of the process.
use real_estate_robot.Base.{◌≡◌, true, arith}
use real_estate_robot.Base.Int.{ℤ, pos, ltb_ℤ}
use real_estate_robot.Base.Values.{Duration, Float64}
use real_estate_robot.Discovery.{Config as DiscoveryConfig, new as discovery_defaults}
use real_estate_robot.Enrich.{Config as EnrichConfig, new as enrich_defaults}
use real_estate_robot.Fetcher.{Config as FetcherConfig}
use real_estate_robot.Connections.{Client, new_client}

-- rate.NewLimiter(rate.Limit(rps), burst)
pub record Limiter : Type 0 where
  pub rps : Float64
  pub burst : ℤ

-- what the three configurations share
pub record Pace : Type 0 where
  pub rps : Float64
  pub burst : ℤ
  pub http_timeout : Duration

-- A worker with its client and its limiter, and the settings that its handler reads.
pub record Built (Settings : Type 0) : Type 0 where
  pub http : Client
  pub limiter : Limiter
  pub settings : Settings

abbrev built : {Settings : Type 0} → Pace → Settings → Built Settings
built pace settings = record {
  http = new_client pace.http_timeout;
  limiter = record { rps = pace.rps; burst = pace.burst };
  settings = settings;
}

unfoldable pub new_fetcher : Pace → FetcherConfig → Built FetcherConfig
new_fetcher pace cfg = built pace cfg

unfoldable pub new_discovery : Pace → DiscoveryConfig → Built DiscoveryConfig
new_discovery pace cfg = built pace (discovery_defaults cfg)

unfoldable pub new_enricher : Pace → EnrichConfig → Built EnrichConfig
new_enricher pace cfg = built pace (enrich_defaults cfg)

timeout_positive : (d : Duration) → ltb_ℤ (pos 0) (new_client d).timeout ≡ true
unfolding new_client
timeout_positive d = ground arith

-- However the flags are set, no worker waits for a response without a limit, the discovery worker
-- has a positive page cap, and the enricher a positive freshness.
pub new-positive :
    (pace : Pace) (f : FetcherConfig) (d : DiscoveryConfig) (e : EnrichConfig)
    → (ltb_ℤ (pos 0) (new_fetcher pace f).http.timeout ≡ true)
      × (ltb_ℤ (pos 0) (new_discovery pace d).http.timeout ≡ true)
      × (ltb_ℤ (pos 0) (new_enricher pace e).http.timeout ≡ true)
      × (ltb_ℤ (pos 0) (new_discovery pace d).settings.max_page ≡ true)
      × (ltb_ℤ (pos 0) (new_enricher pace e).settings.freshness ≡ true)
unfolding new_fetcher new_discovery new_enricher discovery_defaults enrich_defaults
new-positive pace f d e = (
  timeout_positive pace.http_timeout,
  timeout_positive pace.http_timeout,
  timeout_positive pace.http_timeout,
  ground arith,
  ground arith,
)
