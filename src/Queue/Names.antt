-- ===== src/Queue/Names.antt =====
-- The names of internal/queue/topology.go.
use real_estate_robot.Base.{String, List, [], ◌∷◌}

abbrev pub exchange_work : String
exchange_work = "olx.work"

abbrev pub exchange_retry : String
exchange_retry = "olx.retry"

abbrev pub exchange_dead : String
exchange_dead = "olx.dead"

abbrev pub queue_listings_discover : String
queue_listings_discover = "listings.discover"

abbrev pub queue_listings_fetch : String
queue_listings_fetch = "listings.fetch"

abbrev pub queue_listings_parse : String
queue_listings_parse = "listings.parse"

abbrev pub queue_sellers_enrich : String
queue_sellers_enrich = "sellers.enrich"

abbrev pub work_queues : List String
work_queues =
    queue_listings_discover ∷ queue_listings_fetch ∷ queue_listings_parse ∷ queue_sellers_enrich
    ∷ []
