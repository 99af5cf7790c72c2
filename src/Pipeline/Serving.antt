-- ===== src/Pipeline/Serving.antt =====
-- The API's requests and the refresh of the view in the system.
use real_estate_robot.Base.{
  ◌≡◌, refl, inl, inr, String, str_eq, List, arith, All-mono, Bool-cases, ℕ, zero, suc,
}
use real_estate_robot.Base.Int.{pos}
use real_estate_robot.Base.Values.{Result, ok, err}
use real_estate_robot.Runtime.Env.{Env, World, Stream, Result-cases}
use real_estate_robot.Runtime.Rules.{query_rule, statement_rule}
use real_estate_robot.Classification.Score.{Calendar}
use real_estate_robot.Classification.Queries.{
  GetSellerCountsRow, get_seller_counts, get_distinct_cities, get_distinct_categories,
  get_last_parsed_at, refresh_seller_stats,
}
use real_estate_robot.Classification.Views.{classifications_in}
use real_estate_robot.Api.{Server, Reply}
use real_estate_robot.Api.Handlers.{
  get_listings, get_cities, get_categories, get_stats, stats_reply, list_rows, view, label,
  keeps_check, relabel, patch_label, get_worker_status, refresh, background_refresh,
}
use real_estate_robot.Api.Replies.{label_value, crawl_url}
use real_estate_robot.Api.Handlers.Crawls.{
  Crawled, no_broker, no_json, no_slug, queued, unsent, unconfirmed, post_crawl-Crawled,
}
use real_estate_robot.Api.Routes.{
  Endpoint, health, listings, stats, categories, cities, crawl, label_seller, worker_status,
  Incoming, Routed, found, unrouted, Mux, routes, endpoint, routed, cors, handle,
}
use real_estate_robot.Pipeline.{Wire, IsWork, search, IsSound}
use real_estate_robot.Pipeline.Sellers.{labelled, label_seller-map}
use real_estate_robot.Pipeline.Enriching.{change-IsSound}
use real_estate_robot.Pipeline.Parsing.{IsWork-kept}
use real_estate_robot.Pipeline.Scheduling.{nedvizhimost-ne_empty}
use real_estate_robot.Pipeline.Sending.{send-IsSound}

-- What the parts keep does not speak of the view.
pub refresh-IsConsistent :
    (wire : Wire) (w : World)
    → IsSound wire w
    → IsSound wire (record w { db = refresh_seller_stats w.db })
unfolding refresh_seller_stats
refresh-IsConsistent wire w s = record {
  keyed = s.keyed;
  sellers_numbered = s.sellers_numbered;
  listings_numbered = s.listings_numbered;
  owned = s.owned;
  captured = s.captured;
  unique = s.unique;
  fetches_numbered = s.fetches_numbered;
  workable =
      All-mono (IsWork wire w.db) _ w.sent (λ m. IsWork-kept wire w.db _ m refl refl) s.workable;
}

module _ (wire : Wire) (env : Env) (calendar : Calendar) (server : Server) where
  crawl-IsSound :
      (body : Stream) (w : World) {after : Reply × World}
      → Crawled env calendar wire.api server body w after
      → IsSound wire w
      → IsSound wire after.1
  crawl-IsSound body w (no_broker h) s = s
  crawl-IsSound body w (no_json e h) s = s
  crawl-IsSound body w (no_slug r h b) s = s
  crawl-IsSound body w (queued r h a b) s =
      send-IsSound wire _ w
        (search (crawl_url r) (pos 1) (nedvizhimost-ne_empty _) refl (inr (inr (inl refl)))) s
  crawl-IsSound body w (unsent r h) s = s
  crawl-IsSound body w (unconfirmed r h) s =
      send-IsSound wire _ w
        (search (crawl_url r) (pos 1) (nedvizhimost-ne_empty _) refl (inr (inr (inl refl)))) s

  label-IsSound :
      (value key : String) (w : World)
      → IsSound wire w
      → IsSound wire (label env calendar wire.api server value key w).1
  unfolding label
  label-IsSound value key w s = elim (Bool-cases (keeps_check value key w.db)) [
    | inr bad ↦ rw bad s
    | inl fine ↦ rw fine (
        statement_rule (IsSound wire) env (relabel value key) w s λ now.
          rw (label_seller-map now value key w.db.sellers) (
            change-IsSound wire (labelled now value key) (λ r. ground arith) (λ r. ground arith) w
              s))
  ]

  patch_label-IsSound :
      (key : String) (body : Stream) (w : World)
      → IsSound wire w
      → IsSound wire (patch_label env calendar wire.api server key body w).1
  unfolding patch_label
  patch_label-IsSound key body w s = elim (Bool-cases (str_eq key "")) [
    | inl empty ↦ rw (empty, patch_label) s
    | inr named ↦ elim (Result-cases (wire.api.decode_label body)) [
      | inr (e, d) ↦ rw (named, d, patch_label) s
      | inl (value, d) ↦ rw (named, d, patch_label) (label-IsSound (label_value value) key w s)
    ]
  ]

  stats_reply-IsSound :
      (r : Result (List GetSellerCountsRow)) (w : World)
      → IsSound wire w
      → IsSound wire (stats_reply env calendar wire.api server r w).1
  unfolding stats_reply
  stats_reply-IsSound (err e) w s = s
  stats_reply-IsSound (ok rows) w s =
      query_rule (IsSound wire) env (λ v. ok (get_last_parsed_at v.db.listings)) w s

  asked :
      (w : World)
      → let v = (get_worker_status env calendar wire.api server w).1 in
        (v.db ≡ w.db) × (v.serials ≡ w.serials) × (v.sent ≡ w.sent)
  unfolding get_worker_status
  asked w = ground arith

  worker_status-IsSound :
      (w : World)
      → IsSound wire w
      → IsSound wire (get_worker_status env calendar wire.api server w).1
  worker_status-IsSound w s = let (db, serials, sent) = asked w in rw (db, serials, sent) s

  -- A read leaves the world as it is, but for the calls that it makes.
  endpoint-IsSound :
      (e : Endpoint) (mux : Mux) (v : String) (r : Incoming) (w : World)
      → IsSound wire w
      → IsSound wire (endpoint env calendar wire.api server mux e v r w).1
  unfolding get_listings get_stats get_cities get_categories get_worker_status
  endpoint-IsSound health mux v r w s = s
  endpoint-IsSound listings mux v r w s =
      query_rule (IsSound wire) env (list_rows env calendar wire.api server r.query) w s
  endpoint-IsSound stats mux v r w s = stats_reply-IsSound _ _ (
      query_rule (IsSound wire) env
        (λ x. ok (
          get_seller_counts wire.api.average
            (classifications_in calendar (env.db_clock x.ticks) x.db)))
        w s)
  endpoint-IsSound categories mux v r w s =
      query_rule (IsSound wire) env
        (λ x. ok (get_distinct_categories wire.api.collation (view env calendar wire.api server x)))
        w s
  endpoint-IsSound cities mux v r w s =
      query_rule (IsSound wire) env
        (λ x. ok (get_distinct_cities wire.api.collation (view env calendar wire.api server x))) w s
  endpoint-IsSound crawl mux v r w s =
      crawl-IsSound r.body w (post_crawl-Crawled env calendar wire.api server r.body w) s
  endpoint-IsSound label_seller mux v r w s = patch_label-IsSound v r.body w s
  endpoint-IsSound worker_status mux v r w s = worker_status-IsSound w s

  routed-IsSound :
      (mux : Mux) (r : Incoming) (w : World) (m : Routed)
      → mux routes r.method r.path ≡ m
      → IsSound wire w
      → IsSound wire (routed env calendar wire.api server mux r w).1
  unfolding routed
  routed-IsSound mux r w (found e v) m s = rw (routed, m) (endpoint-IsSound e mux v r w s)
  routed-IsSound mux r w (unrouted p) m s = rw (routed, m) s

  -- Whatever it is asked, the server keeps what the parts keep together.
  pub handle-IsSound :
      (mux : Mux) (r : Incoming) (w : World)
      → IsSound wire w
      → IsSound wire (handle env calendar wire.api server mux r w).1
  unfolding handle cors
  handle-IsSound mux r w s = elim (Bool-cases (str_eq r.method "OPTIONS")) [
    | inl preflight ↦ rw preflight s
    | inr other ↦ rw other (routed-IsSound mux r w _ refl s)
  ]

  refresh-IsSound :
      (w : World) → IsSound wire w → IsSound wire (refresh env calendar wire.api server w).1
  unfolding refresh
  refresh-IsSound w s =
      statement_rule (IsSound wire) env (λ now v. (tt, record v { db = refresh_seller_stats v.db }))
        w s (λ now. refresh-IsConsistent wire w s)

  -- So does the loop that refreshes the view.
  pub background_refresh-IsSound :
      (rounds : ℕ) (w : World)
      → IsSound wire w
      → IsSound wire (background_refresh env calendar wire.api server rounds w)
  unfolding background_refresh
  background_refresh-IsSound zero w s = s
  background_refresh-IsSound (suc n) w s = background_refresh-IsSound n _ (refresh-IsSound w s)
