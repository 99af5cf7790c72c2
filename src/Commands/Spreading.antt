-- ===== src/Commands/Spreading.antt =====
-- What an acknowledged delivery stands for at the two workers that spread URLs.
use real_estate_robot.Base.{String, ◌≡◌, sym, ap, ◌∙◌, ◌⊎◌, true, none, some, List, [], ◌++◌, arith}
use real_estate_robot.Base.Int.{ℤ, ltb_ℤ}
use real_estate_robot.Base.Values.{Bytes, Time, Error, Result, ok, err, is_no_rows}
use real_estate_robot.Storage.Rows.{Seller}
use real_estate_robot.Storage.Sellers.{get_seller_by_olx_id, mark_seller_enriched}
use real_estate_robot.Runtime.Env.{Env, World, tick}
use real_estate_robot.Runtime.Actions.{query}
use real_estate_robot.Queue.Names.{queue_listings_discover, queue_sellers_enrich}
use real_estate_robot.Queue.Publisher.Batch.{letters}
use real_estate_robot.Queue.Consumer.{Delivery, dispatch}
use real_estate_robot.Enrich.{
  Config as EnrichConfig, Json as EnrichJson, Task as EnrichTask, address, find_seller, is_fresh,
  fetch_profile, handle as enrich_seller,
}
use real_estate_robot.Enrich.Visits.{
  stamped, unanswered, unstamped, fetch_letters as profile_letters,
}
use real_estate_robot.Enrich.Outcomes.{
  Enriched, refused_early, unknown, fresh, visited, handle-Enriched,
}
use real_estate_robot.Discovery.{
  Web, Config as DiscoveryConfig, Json as DiscoveryJson, Task as DiscoveryTask, page_of,
  build_search_page_url, fetch_listing_urls, handle as discover,
}
use real_estate_robot.Discovery.Walks.{
  complete, partial, unread, read, Explored, rejected, capped, walked,
  fetch_letters as page_letters, next_letters, handle-Explored,
}
use real_estate_robot.Commands.{handler_of}
use real_estate_robot.Commands.Stages.{Accounted, method-Accounted}

-- What an enricher's task comes to: no such seller, one that was visited a short time ago, or one
-- that is stamped behind the confirmed tasks for every listing of the profile.
module _ (env : Env) (cfg : EnrichConfig) (json : EnrichJson) where
  pub data Enriching (body : Bytes) (w v : World) : Type 0 where
    missing :
        (task : EnrichTask) (e : Error)
        → json.decode_task body ≡ ok task
        → (query env (find_seller env cfg json task.olx_user_id) w).0 ≡ err e
        → is_no_rows e ≡ true
        → v ≡ tick w
        → Enriching body w v
    recent :
        (task : EnrichTask) (s : Seller)
        → json.decode_task body ≡ ok task
        → get_seller_by_olx_id task.olx_user_id w.db.sellers ≡ some s
        → is_fresh env cfg json s.last_enriched_at (env.clock (tick w).ticks) ≡ true
        → v ≡ tick w
        → Enriching body w v
    spread :
        (task : EnrichTask) (s : Seller) (now : Time) (urls : List String)
        → json.decode_task body ≡ ok task
        → get_seller_by_olx_id task.olx_user_id w.db.sellers ≡ some s
        → v.db.sellers ≡ mark_seller_enriched now s.id w.db.sellers
        → letters v.confirmed ≡ letters w.confirmed ++ profile_letters env cfg json urls
        → ((address s.profile_url ≡ none) × (urls ≡ []))
          ⊎ ((url : String) × (address s.profile_url ≡ some url)
              × ((fetch_profile env cfg json url (tick (tick w))).0 ≡ ok urls))
        → Enriching body w v

  Enriched-Enriching :
      (body : Bytes) (w : World) {after : Result (Unit {0}) × World}
      → Enriched env cfg json body w after
      → after.0 ≡ ok tt
      → Enriching body w after.1
  Enriched-Enriching body w (refused_early e o x) h = ground (arith, sym o ∙ h)
  Enriched-Enriching body w (unknown task e t q n x) h = missing task e t q n (ap (λ p. p.1) x)
  Enriched-Enriching body w (fresh task s t f y x) h = recent task s t f y (ap (λ p. p.1) x)
  Enriched-Enriching body w (visited task s t f y (stamped now urls o m c p)) h =
      spread task s now urls t f m c p
  Enriched-Enriching body w (visited task s t f y (unanswered e now urls o m c p)) h =
      ground (arith, sym o ∙ h)
  Enriched-Enriching body w (visited task s t f y (unstamped e urls o m c p)) h =
      ground (arith, sym o ∙ h)

  -- A delivery on the enricher's queue is acknowledged only with a confirmed copy for the dead queue,
  -- where its seller is not known or was visited a short time ago, or where the tasks for every
  -- listing of the seller's profile are confirmed and the seller is stamped. Else it stays with the
  -- broker, for a redelivery or for the retry queue.
  pub enricher_delivery-Accounted :
      (max_retries : ℤ) (d : Delivery) (w : World)
      → Accounted env queue_sellers_enrich (Enriching d.body w) d w (
          dispatch env queue_sellers_enrich max_retries
            (handler_of (enrich_seller env cfg json))
            d
            w)
  enricher_delivery-Accounted max_retries d w =
      method-Accounted env queue_sellers_enrich max_retries (enrich_seller env cfg json)
        (Enriching d.body w) d w
        (Enriched-Enriching d.body w (handle-Enriched env cfg json d.body w))

-- What a discovery task comes to: a page behind the cap, or the confirmed tasks for every listing of
-- the page and for the page behind it.
module _ (web : Web) (env : Env) (cfg : DiscoveryConfig) (json : DiscoveryJson) where
  pub data Exploring (body : Bytes) (w v : World) : Type 0 where
    behind_cap :
        (task : DiscoveryTask)
        → json.decode_task body ≡ ok task
        → ltb_ℤ cfg.max_page (page_of web env cfg json task) ≡ true
        → v ≡ w
        → Exploring body w v
    turned :
        (task : DiscoveryTask) (page_url : String) (urls : List String)
        → json.decode_task body ≡ ok task
        → build_search_page_url web task.search_url (page_of web env cfg json task) ≡ ok page_url
        → (fetch_listing_urls web env cfg json page_url (tick w)).0 ≡ ok urls
        → letters v.confirmed
          ≡ letters w.confirmed
            ++ (page_letters web env cfg json urls
                ++ next_letters web env cfg json task.search_url
                    (page_of web env cfg json task)
                    urls)
        → Exploring body w v

  Explored-Exploring :
      (body : Bytes) (w : World) {after : Result (Unit {0}) × World}
      → Explored web env cfg json body w after
      → after.0 ≡ ok tt
      → Exploring body w after.1
  Explored-Exploring body w (rejected e x) h = ground (arith, sym (ap (λ p. p.0) x) ∙ h)
  Explored-Exploring body w (capped task t c x) h = behind_cap task t c (ap (λ p. p.1) x)
  Explored-Exploring body w (walked task t n c (unread e o s k)) h = ground (arith, sym o ∙ h)
  Explored-Exploring body w (walked task t n c (read u urls v b f k (complete o x))) h =
      turned task u urls t b f (
        x
        ∙ ap
            (λ l.
              l
              ++ (page_letters web env cfg json urls
                  ++ next_letters web env cfg json task.search_url (page_of web env cfg json task)
                      urls))
            k)
  Explored-Exploring body w (walked task t n c (read u urls v b f k (partial e s l x o y))) h =
      ground (arith, sym o ∙ h)

  -- A delivery on the discovery queue is acknowledged only with a confirmed copy for the dead queue,
  -- where its page is behind the cap, or where the tasks for every listing of the page are confirmed
  -- and, where there is a listing and the cap is not reached, that for the next page. Else it stays
  -- with the broker, for a redelivery or for the retry queue.
  pub discovery_delivery-Accounted :
      (max_retries : ℤ) (d : Delivery) (w : World)
      → Accounted env queue_listings_discover (Exploring d.body w) d w (
          dispatch env queue_listings_discover max_retries
            (handler_of (discover web env cfg json))
            d
            w)
  discovery_delivery-Accounted max_retries d w =
      method-Accounted env queue_listings_discover max_retries (discover web env cfg json)
        (Exploring d.body w) d w
        (Explored-Exploring d.body w (handle-Explored web env cfg json d.body w))
