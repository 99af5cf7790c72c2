-- ===== src/Pipeline/System.antt =====
-- The system's histories: the workers on any deliveries, the scheduler's ticks, the API's requests
-- and the refreshes of the view, in any order and against any answers of what they call.
use real_estate_robot.Base.{ℕ, ◌≡◌, refl, inl, inr, String, Bool-cases}
use real_estate_robot.Base.Int.{ℤ, leb_ℤ}
use real_estate_robot.Base.Values.{Duration, ok, err}
use real_estate_robot.Runtime.Env.{Env, World, M, start, Result-cases}
use real_estate_robot.Queue.Names.{
  queue_listings_discover, queue_listings_fetch, queue_listings_parse, queue_sellers_enrich,
}
use real_estate_robot.Queue.Headers.{x_death_count}
use real_estate_robot.Queue.Publisher.{publish_dead}
use real_estate_robot.Queue.Consumer.{
  Delivery, Ending, returned, panicked, Handler, settle, give_up, attempt, dispatch,
}
use real_estate_robot.Discovery.{Web, new as new_discovery, handle as discover}
use real_estate_robot.Enrich.{new as new_enrich, handle as enrich_seller}
use real_estate_robot.Parser.Page.{Reading}
use real_estate_robot.Parser.Worker.{handle as parse_page}
use real_estate_robot.Parser.Worker.Transactions.{Transacted}
use real_estate_robot.Scheduler.{Texts, search_urls, ticks}
use real_estate_robot.Classification.Score.{Calendar}
use real_estate_robot.Api.{Server}
use real_estate_robot.Api.Handlers.{background_refresh}
use real_estate_robot.Api.Routes.{Mux, Incoming, handle as serve}
use real_estate_robot.Commands.{handler_of, user_agent, fetcher_handler}
use real_estate_robot.Pipeline.{Wire, IsSound}
use real_estate_robot.Pipeline.Sending.{publish_dead-IsSound}
use real_estate_robot.Pipeline.Fetching.{handle-IsSound as fetcher-IsSound}
use real_estate_robot.Pipeline.Exploring.{handle-IsSound as discovery-IsSound}
use real_estate_robot.Pipeline.Enriching.{handle-IsSound as enricher-IsSound}
use real_estate_robot.Pipeline.Storing.{handle-IsSound as parser-IsSound}
use real_estate_robot.Pipeline.Serving.{
  handle-IsSound as server-IsSound, background_refresh-IsSound,
}
use real_estate_robot.Pipeline.Scheduling.{search_urls-AreNamed, ticks-IsSound}

-- One delivery to a worker from its queue, one run of the scheduler's ticks, one request to the API,
-- or rounds of its refresh. A delivery may carry any body.
pub data Step (wire : Wire) : World → World → Type 1 where
  fetches :
      (env : Env) (min_refetch : Duration) (max_retries : ℤ) (d : Delivery) (w : World)
      → Step wire w
          (dispatch env queue_listings_fetch max_retries
            (fetcher_handler env wire.fetcher min_refetch)
            d
            w).1
  discovers :
      (env : Env) (web : Web) (max_page : ℤ) (max_retries : ℤ) (d : Delivery) (w : World)
      → Step wire w
          (dispatch env queue_listings_discover max_retries
            (handler_of (
              discover web env
                (new_discovery (record { user_agent = user_agent; max_page = max_page }))
                wire.discovery))
            d
            w).1
  parses :
      (env : Env) (reading : Reading) (begin_func : M (Unit {0}) → M (Unit {0})) (max_retries : ℤ)
      (d : Delivery) (w : World)
      → ((body : M (Unit {0})) (v : World) → Transacted body v (begin_func body v))
      → Step wire w
          (dispatch env queue_listings_parse max_retries
            (handler_of (parse_page env reading wire.parser begin_func))
            d
            w).1
  enriches :
      (env : Env) (freshness : Duration) (max_retries : ℤ) (d : Delivery) (w : World)
      → Step wire w
          (dispatch env queue_sellers_enrich max_retries
            (handler_of (
              enrich_seller env
                (new_enrich (record { user_agent = user_agent; freshness = freshness }))
                wire.enrich))
            d
            w).1
  schedules :
      (env : Env) (texts : Texts) (searches categories cities : String) (rounds : ℕ) (w : World)
      → Step wire w
          (ticks env wire.schedule rounds (search_urls texts searches categories cities) w)
  serves :
      (env : Env) (calendar : Calendar) (server : Server) (mux : Mux) (r : Incoming) (w : World)
      → Step wire w (serve env calendar wire.api server mux r w).1
  refreshes :
      (env : Env) (calendar : Calendar) (server : Server) (rounds : ℕ) (w : World)
      → Step wire w (background_refresh env calendar wire.api server rounds w)

-- What has come of empty tables and an empty broker.
pub data History (wire : Wire) : World → Type 1 where
  begun : History wire start
  then : {w v : World} → History wire w → Step wire w v → History wire v

module _ (wire : Wire) where
  give_up-IsSound :
      (env : Env) (queue : String) (max_retries : ℤ) (handler : Handler) (d : Delivery) (w : World)
      → IsSound wire w
      → IsSound wire (give_up env queue max_retries handler d w).1
  unfolding give_up
  give_up-IsSound env queue max_retries handler d w s =
      let dead = publish_dead-IsSound wire env queue d.body "retries exhausted" w s in
      elim (Result-cases (publish_dead env queue d.body "retries exhausted" w).0) [
        | inl (_, o) ↦ rw (o, give_up) dead
        | inr (e, o) ↦ rw (o, give_up) dead
      ]

  settle-world : (ending : Ending) (w : World) → (settle ending w).1 ≡ w
  unfolding settle
  settle-world (returned (ok _)) w = refl
  settle-world (returned (err e)) w = refl
  settle-world panicked w = refl

  -- A delivery keeps what its handler keeps.
  dispatch-IsSound :
      (env : Env) (queue : String) (max_retries : ℤ) (handler : Handler) (d : Delivery) (w : World)
      → (IsSound wire w → IsSound wire (handler d w).1)
      → IsSound wire w
      → IsSound wire (dispatch env queue max_retries handler d w).1
  unfolding dispatch attempt
  dispatch-IsSound env queue max_retries handler d w keeps s =
      elim (Bool-cases (leb_ℤ max_retries (x_death_count d.headers))) [
        | inl spent ↦ rw (spent, dispatch) (give_up-IsSound env queue max_retries handler d w s)
        | inr left ↦ rw (left, dispatch, settle-world (handler d w).0 (handler d w).1) (keeps s)
      ]

  start-IsSound : IsSound wire start
  start-IsSound = record {
    keyed = tt;
    sellers_numbered = tt;
    listings_numbered = tt;
    owned = tt;
    captured = tt;
    unique = tt;
    fetches_numbered = tt;
    workable = tt;
  }

  Step-IsSound : {w v : World} → Step wire w v → IsSound wire w → IsSound wire v
  Step-IsSound (fetches env m k d w) =
      dispatch-IsSound env _ k _ d w (fetcher-IsSound wire env _ d.body w)
  Step-IsSound (discovers env web m k d w) =
      dispatch-IsSound env _ k _ d w (discovery-IsSound wire web env _ d.body w)
  Step-IsSound (parses env reading begin_func k d w atomic) =
      dispatch-IsSound env _ k _ d w (parser-IsSound wire env reading begin_func atomic d.body w)
  Step-IsSound (enriches env f k d w) =
      dispatch-IsSound env _ k _ d w (enricher-IsSound wire env _ d.body w)
  Step-IsSound (schedules env texts a b c n w) =
      ticks-IsSound wire env n _ w (search_urls-AreNamed texts a b c)
  Step-IsSound (serves env calendar server mux r w) =
      server-IsSound wire env calendar server mux r w
  Step-IsSound (refreshes env calendar server n w) =
      background_refresh-IsSound wire env calendar server n w

  -- After any history the tables and the messages agree: sellers are unique by their key and by
  -- their number, and listings by their number; each listing's seller and each snapshot's listing
  -- stand in the tables; and each message that was handed to the work exchange is one that its
  -- reader can work on.
  pub History-IsSound : {w : World} → History wire w → IsSound wire w
  History-IsSound begun = start-IsSound
  History-IsSound (then h s) = Step-IsSound s (History-IsSound h)
