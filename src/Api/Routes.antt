-- ===== src/Api/Routes.antt =====
-- Handler of internal/api/server.go: the routes, and the layers around them.
use real_estate_robot.Base.{
  ℕ, String, str_eq, ◌≡◌, refl, ◌∙◌, inl, inr, Bool, true, false, Bool-cases, Option, none, some,
  List, [], ◌∷◌, ◌++◌, ◌||◌, not, if◌then◌else◌, arith,
}
use real_estate_robot.Base.Values.{Result, ok, err}
use real_estate_robot.Runtime.Env.{Env, World, Stream}
use real_estate_robot.Runtime.Actions.{query, query-cases}
use real_estate_robot.Classification.Score.{Calendar}
use real_estate_robot.Classification.Views.{classifications_in}
use real_estate_robot.Classification.Queries.{
  GetSellerCountsRow, get_seller_counts, get_distinct_cities, get_distinct_categories,
  get_last_parsed_at,
}
use real_estate_robot.Api.{Server, healthy, nothing, Query, Reply, Formats}
use real_estate_robot.Api.Handlers.{
  Served, replied, panicked, get_listings, get_cities, get_categories, get_stats, patch_label,
  post_crawl, get_worker_status, stats_reply, view, list_rows,
}
use real_estate_robot.Api.Replies.{reply}

-- The handler that a pattern of the mux stands for.
pub data Endpoint : Type 0 where
  health listings stats categories cities crawl label_seller worker_status : Endpoint

abbrev pub routes : List (String × Endpoint)
routes =
    ("GET /api/health", health)
    ∷ ("GET /api/listings", listings)
    ∷ ("GET /api/stats", stats)
    ∷ ("GET /api/categories", categories)
    ∷ ("GET /api/cities", cities)
    ∷ ("POST /api/crawl", crawl)
    ∷ ("PATCH /api/sellers/{olx_user_id}/label", label_seller)
    ∷ ("GET /api/worker-status", worker_status)
    ∷ []

-- http.Request, as the server reads it
pub record Incoming : Type 0 where
  pub method : String
  pub path : String
  pub query : Query
  pub body : Stream

-- What http.ServeMux finds: an endpoint and the path's value, or its own reply.
pub data Routed : Type 0 where
  found : Endpoint → String → Routed
  unrouted : Reply → Routed

abbrev pub Mux : Type 0
Mux = List (String × Endpoint) → String → String → Routed

-- What the client gets: the headers that the layers set, none where the handler panics, and the
-- reply.
pub record Answer : Type 0 where
  pub headers : List (String × String)
  pub served : Served

abbrev pub cors_headers : List (String × String)
cors_headers =
    ("Access-Control-Allow-Origin", "*")
    ∷ ("Access-Control-Allow-Methods", "GET, OPTIONS")
    ∷ ("Access-Control-Allow-Headers", "Content-Type")
    ∷ []

-- what writeJSON adds before a body
abbrev pub json_headers : List (String × String)
json_headers = ("Content-Type", "application/json; charset=utf-8") ∷ []

-- One line of the access log, for a handler that does not panic.
pub record Line : Type 0 where
  pub method : String
  pub path : String
  pub status : ℕ

module _ (env : Env) (calendar : Calendar) (formats : Formats) (server : Server) (mux : Mux) where
  abbrev pub written : Reply × World → Answer × World
  written p = (record { headers = json_headers; served = replied p.0 }, p.1)

  abbrev pub endpoint : Endpoint → String → Incoming → World → Answer × World
  endpoint health v r w = written (reply 200 healthy, w)
  endpoint listings v r w = written (get_listings env calendar formats server r.query w)
  endpoint stats v r w = written (get_stats env calendar formats server w)
  endpoint categories v r w = written (get_categories env calendar formats server w)
  endpoint cities v r w = written (get_cities env calendar formats server w)
  endpoint crawl v r w = written (post_crawl env calendar formats server r.body w)
  endpoint label_seller v r w = written (patch_label env calendar formats server v r.body w)
  endpoint worker_status v r w =
      let (s, w') = get_worker_status env calendar formats server w in
      (record { headers = json_headers; served = s }, w')

  -- mux.ServeHTTP
  unfoldable pub routed : Incoming → World → Answer × World
  routed r w = elim (mux routes r.method r.path) [
    | found e v ↦ endpoint e v r w
    | unrouted p ↦ (record { headers = []; served = replied p }, w)
  ]

  abbrev pub with_cors : Answer → Answer
  with_cors a = record a { headers = cors_headers ++ a.headers }

  -- cors(mux)
  unfoldable pub cors : Incoming → World → Answer × World
  cors r w =
      if str_eq r.method "OPTIONS"
      then (record { headers = cors_headers; served = replied (reply 204 nothing) }, w)
      else let (a, w') = routed r w in (with_cors a, w')

  -- what statusWriter has kept; a panic passes logRequest by, without a line
  abbrev pub line_of : Incoming → Served → Option Line
  line_of r (replied p) = some (record { method = r.method; path = r.path; status = p.status })
  line_of r panicked = none

  -- logRequest(s.Log, cors(mux))
  unfoldable pub handle : Incoming → World → (Answer × Option Line) × World
  handle r w = let (a, w') = cors r w in ((a, line_of r a.served), w')

  -- What a request may do to the world: nothing but reading, for all endpoints but two.
  abbrev pub IsUnchanged : World → World → Type 0
  IsUnchanged w v = (v.db ≡ w.db) × (v.sent ≡ w.sent) × (v.confirmed ≡ w.confirmed)

  query-IsUnchanged :
      {A : Type 0} (read : World → Result A) (w : World) → IsUnchanged w (query env read w).1
  query-IsUnchanged read w = elim (query-cases env read w) [
    | inl (d, r) ↦ rw r (refl, refl, refl)
    | inr (d, (e, r)) ↦ rw r (refl, refl, refl)
  ]

  stats_reply-IsUnchanged :
      (r : Result (List GetSellerCountsRow)) (w : World)
      → IsUnchanged w (stats_reply env calendar formats server r w).1
  unfolding stats_reply
  stats_reply-IsUnchanged (err e) w = (refl, refl, refl)
  stats_reply-IsUnchanged (ok rows) w =
      query-IsUnchanged (λ v. ok (get_last_parsed_at v.db.listings)) w

  get_stats-IsUnchanged : (w : World) → IsUnchanged w (get_stats env calendar formats server w).1
  unfolding get_stats
  get_stats-IsUnchanged w =
      let counted : Result (List GetSellerCountsRow) × World =
        query env
          (λ v. ok (
            get_seller_counts formats.average
              (classifications_in calendar (env.db_clock v.ticks) v.db)))
          w in
      let a : IsUnchanged w counted.1 =
        query-IsUnchanged
          (λ v. ok (
            get_seller_counts formats.average
              (classifications_in calendar (env.db_clock v.ticks) v.db)))
          w in
      let b : IsUnchanged counted.1
          (stats_reply env calendar formats server counted.0 counted.1).1 =
        stats_reply-IsUnchanged counted.0 counted.1 in
      (b.0 ∙ a.0, b.1 ∙ a.1, b.2 ∙ a.2)

  get_worker_status-IsUnchanged :
      (w : World) → IsUnchanged w (get_worker_status env calendar formats server w).1
  unfolding get_worker_status
  get_worker_status-IsUnchanged w = ground arith

  -- Whether an endpoint is one of the two that change something.
  abbrev pub changes : Endpoint → Bool
  changes crawl = true
  changes label_seller = true
  changes _ = false

  endpoint-IsUnchanged :
      (e : Endpoint) (v : String) (r : Incoming) (w : World)
      → changes e ≡ false
      → IsUnchanged w (endpoint e v r w).1
  unfolding get_listings get_cities get_categories
  endpoint-IsUnchanged health v r w h = (refl, refl, refl)
  endpoint-IsUnchanged listings v r w h =
      query-IsUnchanged (list_rows env calendar formats server r.query) w
  endpoint-IsUnchanged stats v r w h = get_stats-IsUnchanged w
  endpoint-IsUnchanged categories v r w h =
      query-IsUnchanged
        (λ x. ok (get_distinct_categories formats.collation (view env calendar formats server x))) w
  endpoint-IsUnchanged cities v r w h =
      query-IsUnchanged
        (λ x. ok (get_distinct_cities formats.collation (view env calendar formats server x))) w
  endpoint-IsUnchanged crawl v r w h = ground arith
  endpoint-IsUnchanged label_seller v r w h = ground arith
  endpoint-IsUnchanged worker_status v r w h = get_worker_status-IsUnchanged w

  -- Whether a request only reads: a preflight, one that the mux answers, or one for such an endpoint.
  abbrev pub reads : Incoming → Bool
  reads r =
      str_eq r.method "OPTIONS"
      || elim (mux routes r.method r.path) [ found e v ↦ not (changes e) | unrouted p ↦ true ]

  routed-IsUnchanged :
      (r : Incoming) (w : World) (m : Routed)
      → mux routes r.method r.path ≡ m
      → elim m [ found e v ↦ not (changes e) | unrouted p ↦ true ] ≡ true
      → IsUnchanged w (routed r w).1
  unfolding routed
  routed-IsUnchanged r w (found e v) m h =
      rw (routed, m) (endpoint-IsUnchanged e v r w (ground arith))
  routed-IsUnchanged r w (unrouted p) m h = rw (routed, m) (refl, refl, refl)

  -- A request that only reads, a preflight to any path included, leaves the database, the messages
  -- handed to the broker and those it has confirmed as they are, whatever the external calls
  -- answer.
  pub handle-IsUnchanged :
      (r : Incoming) (w : World) → reads r ≡ true → IsUnchanged w (handle r w).1
  unfolding handle cors
  handle-IsUnchanged r w h = elim (Bool-cases (str_eq r.method "OPTIONS")) [
    | inl o ↦ rw o (refl, refl, refl)
    | inr o ↦ rw o (routed-IsUnchanged r w _ refl (ground arith))
  ]
