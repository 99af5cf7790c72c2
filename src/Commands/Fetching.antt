-- ===== src/Commands/Fetching.antt =====
-- The fetcher's process as a whole: what an acknowledged delivery stands for.
use real_estate_robot.Base.{
  ℕ, suc, ◌≤◌, ◌<◌, ◌≡◌, ◌≢◌, refl, sym, ap, ◌∙◌, true, false, none, some, [], ◌∷◌, ◌++◌, arith,
}
use real_estate_robot.Base.Int.{ℤ}
use real_estate_robot.Base.Values.{Duration, Result, ok}
use real_estate_robot.Storage.Rows.{ListingHtmlFetch}
use real_estate_robot.Storage.Fetches.{get_latest_fetch_by_url, fetch_row}
use real_estate_robot.Runtime.Env.{Env, World}
use real_estate_robot.Queue.Names.{queue_listings_fetch, queue_listings_parse}
use real_estate_robot.Queue.Publisher.{dead_message, work_message}
use real_estate_robot.Queue.Consumer.{
  Delivery, handler_called, dead_published, ack, nack, Settled, dispatch, Handler,
}
use real_estate_robot.Queue.Consumer.Policy.{buried, put_back, handled, failed, dispatch-Outcome}
use real_estate_robot.Fetcher.{Config, Json, Task, Fetched, recently_fetched, row_params, handle}
use real_estate_robot.Fetcher.Outcomes.{Stored, transient, gone, page, faulty}
use real_estate_robot.Fetcher.Gate.{Handled, refused_early, skipped, downloaded, handle-Handled}
use real_estate_robot.Fetcher.Requests.{Met}
use real_estate_robot.Commands.{user_agent, fetcher_handler}

module _ (env : Env) (json : Json) (min_refetch : Duration) (max_retries : ℤ) where
  abbrev config : Config
  config = record { user_agent = user_agent; min_refetch_interval = min_refetch }

  -- What becomes of a delivery on the fetch queue.
  pub data Accounted (d : Delivery) (w : World) (s : Settled) : Type 0 where
    -- It stays with the broker.
    kept : s.0 ≡ nack true ∷ [] → Accounted d w s
    retried : s.0 ≡ handler_called ∷ nack false ∷ [] → Accounted d w s
    -- It is acknowledged: given up, with a confirmed copy for the dead queue,
    dead :
        s.0 ≡ dead_published ∷ ack ∷ []
        → s.1.confirmed
          ≡ w.confirmed ++ dead_message env queue_listings_fetch d.body "retries exhausted" w ∷ []
        → Accounted d w s
    -- done before, by a row that is recent,
    recent :
        (task : Task) (r : ListingHtmlFetch)
        → s.0 ≡ handler_called ∷ ack ∷ []
        → json.decode_task d.body ≡ ok task
        → get_latest_fetch_by_url task.url w.db.fetches ≡ some r
        → recently_fetched r.fetched_at (env.clock (suc w.ticks)) min_refetch ≡ true
        → Accounted d w s
    -- answered by a 4xx other than 429, and remembered by a row without a page,
    missing :
        (task : Task) (f : Fetched) (k : ℕ) (v : World) (now : ℕ)
        → s.0 ≡ handler_called ∷ ack ∷ []
        → json.decode_task d.body ≡ ok task
        → Met env config task.url k w f v
        → f.error ≡ none
        → 400 ≤ f.status
        → f.status < 500
        → f.status ≢ 429
        → s.1.db.fetches
          ≡ w.db.fetches
            ++ fetch_row now (suc w.serials.fetch) (row_params env config json task.url f none) ∷ []
        → Accounted d w s
    -- or stored, and the parser's task for the row confirmed by the broker.
    passed_on :
        (task : Task) (f : Fetched) (k : ℕ) (u : World) (now : ℕ) (v : World)
        → s.0 ≡ handler_called ∷ ack ∷ []
        → json.decode_task d.body ≡ ok task
        → Met env config task.url k w f u
        → f.error ≡ none
        → f.status < 400
        → s.1.db.fetches
          ≡ w.db.fetches
            ++ fetch_row now
                (suc w.serials.fetch)
                (row_params env config json task.url f (some f.body))
              ∷ []
        → s.1.confirmed
          ≡ w.confirmed
            ++ work_message env queue_listings_parse
                (json.encode_next (record { fetch_id = suc w.serials.fetch; url = task.url }))
                v
              ∷ []
        → Accounted d w s

  abbrev tasks : Handler
  tasks = fetcher_handler env json min_refetch

  store-Accounted :
      (d : Delivery) (w v : World) (s : Settled) (task : Task) (f : Fetched) (k : ℕ)
      (met : Met env config task.url k w f v) (after : Result (Unit {0}) × World)
      → s.0 ≡ handler_called ∷ ack ∷ []
      → s.1 ≡ after.1
      → after.0 ≡ ok tt
      → json.decode_task d.body ≡ ok task
      → v.db ≡ w.db
      → v.serials ≡ w.serials
      → v.confirmed ≡ w.confirmed
      → Stored env config json task.url f v after
      → Accounted d w s
  store-Accounted d w v s task f k met after a e o t db serials confirmed (transient x y z) =
      ground (arith, sym o ∙ ap (λ p. p.0) z)
  store-Accounted d w v s task f k met after a e o t db serials confirmed
        (gone n x y z o' rows sent) =
      missing task f k v (env.db_clock v.ticks) a t met n x y z
        (ap (λ u. u.db.fetches) e ∙ rows ∙ rw (db, serials) refl)
  store-Accounted d w v s task f k met after a e o t db serials confirmed
        (page u x y o' rows done) =
      passed_on task f k v (env.db_clock v.ticks) u a t met x y
        (ap (λ u. u.db.fetches) e ∙ rows ∙ rw (db, serials) refl)
        (ap (λ u. u.confirmed) e ∙ done ∙ rw (confirmed, serials) refl)
  store-Accounted d w v s task f k met after a e o t db serials confirmed (faulty x why m y z) =
      ground (arith, sym o ∙ m)

  attempt-Accounted :
      (d : Delivery) (w : World) (s : Settled) (after : Result (Unit {0}) × World)
      → s.0 ≡ handler_called ∷ ack ∷ []
      → s.1 ≡ after.1
      → after.0 ≡ ok tt
      → Handled env config json d.body w after
      → Accounted d w s
  attempt-Accounted d w s after a e o (refused_early x why k l m n p) = ground (arith, sym o ∙ k)
  attempt-Accounted d w s after a e o (skipped task r t l q k) = recent task r a t l q
  attempt-Accounted d w s after a e o
        (downloaded task f k v t n met req db serials sent confirmed st) =
      store-Accounted d w v s task f k met after a e o t db serials confirmed st

  -- A delivery on the fetch queue is acknowledged only where its work is accounted for: with a
  -- confirmed copy for the dead queue, by a recent row of its URL, by a row for a 4xx other than 429 that
  -- its request met, or by a row with the page that its request met and the parser's task for that row confirmed. Else it stays with the broker, for
  -- a redelivery or for the retry queue.
  pub dispatch-Accounted :
      (d : Delivery) (w : World)
      → Accounted d w (dispatch env queue_listings_fetch max_retries tasks d w)
  dispatch-Accounted d w = elim (dispatch-Outcome env queue_listings_fetch max_retries tasks d w) [
    | buried l a c ↦ dead a c
    | put_back x l p a c ↦ kept a
    | failed l r a e ↦ retried a
    | handled l r a e ↦
        attempt-Accounted d w _ (handle env config json d.body w) a e (ground (arith, r))
          (handle-Handled env config json d.body w)
  ]
