-- ===== src/Fetcher/Outcomes.antt =====
-- What one run of the fetcher's handler does, on every path.
use real_estate_robot.Base.{
  suc, ◌≤◌, ◌<◌, String, ◌≡◌, ◌≢◌, refl, ◌⊎◌, inl, inr, true, false, none, some, [], ◌∷◌, ◌++◌,
  arith, append-nil, IsExtension, Bool-cases, ◌||◌, leb, ◌==◌, Option-cases,
}
use real_estate_robot.Base.Values.{Bytes, Error, Result, ok, err, wrap, numbered}
use real_estate_robot.Storage.Rows.{ListingHtmlFetch}
use real_estate_robot.Storage.Fetches.{InsertFetchParams, fetch_row, insert_fetch}
use real_estate_robot.Runtime.Env.{Env, World, done, acked, tick, DbReply-cases}
use real_estate_robot.Queue.Names.{queue_listings_parse}
use real_estate_robot.Queue.Publisher.{
  publish, publishing, work_message, Publishes, delivered, dropped, unsure, publish-Publishes,
}
use real_estate_robot.Fetcher.{Config, Json, Fetched, row_params, insert, store}

module _ (env : Env) (cfg : Config) (json : Json) (url : String) where
  -- The four ways in which a fetched page is dealt with.
  pub data Stored (f : Fetched) (w : World) (after : Result (Unit {0}) × World) : Type 0 where
    -- A failed request, a 5xx or a 429: an error, and nothing is written or sent.
    transient :
        (e : Error)
        → (f.error ≢ none) ⊎ (500 ≤ f.status) ⊎ (f.status ≡ 429)
        → after ≡ (err e, w)
        → Stored f w after
    -- Another 4xx: the dead URL is remembered by a row with no html, and nothing is sent.
    gone :
        f.error ≡ none
        → 400 ≤ f.status
        → f.status < 500
        → f.status ≢ 429
        → after.0 ≡ ok tt
        → after.1.db.fetches
          ≡ w.db.fetches
            ++ fetch_row
                (env.db_clock w.ticks)
                (suc w.serials.fetch)
                (row_params env cfg json url f none)
              ∷ []
        → after.1.sent ≡ w.sent
        → Stored f w after
    -- A page: its row is written, and the parser's task with the row's number is confirmed.
    page :
        (v : World)
        → f.error ≡ none
        → f.status < 400
        → after.0 ≡ ok tt
        → after.1.db.fetches
          ≡ w.db.fetches
            ++ fetch_row
                (env.db_clock w.ticks)
                (suc w.serials.fetch)
                (row_params env cfg json url f (some f.body))
              ∷ []
        → after.1.confirmed
          ≡ w.confirmed
            ++ work_message env queue_listings_parse
                (json.encode_next (record { fetch_id = suc w.serials.fetch; url = url }))
                v
              ∷ []
        → Stored f w after
    -- The database or the broker failed: an error, at most a row more, and no confirmed message.
    faulty :
        (e : Error)
        → (env.database w.ticks ≢ done) ⊎ (env.broker (suc w.ticks) ≢ acked)
        → after.0 ≡ err e
        → IsExtension w.db.fetches after.1.db.fetches
        → after.1.confirmed ≡ w.confirmed
        → Stored f w after

  store-error :
      (f : Fetched) (w : World) (e : Error)
      → f.error ≡ some e
      → Stored f w (store env cfg json url f w)
  unfolding store
  store-error f w e h = transient (wrap "fetch" e) (inl (λ k. cc)) (ground arith)

  store-busy :
      (f : Fetched) (w : World)
      → f.error ≡ none
      → (leb 500 f.status || f.status == 429) ≡ true
      → Stored f w (store env cfg json url f w)
  unfolding store
  store-busy f w h b =
      transient (numbered "fetch returned status" f.status) (inr (ground arith)) (ground arith)

  store-gone :
      (f : Fetched) (w : World)
      → f.error ≡ none
      → (leb 500 f.status || f.status == 429) ≡ false
      → leb 400 f.status ≡ true
      → Stored f w (store env cfg json url f w)
  unfolding store insert insert_fetch
  store-gone f w h b c = elim (DbReply-cases (env.database w.ticks)) [
    | inl d ↦
        gone h (ground arith) (ground arith) (ground arith) (ground arith) (ground arith)
          (ground arith)
    | inr (inl (e, d)) ↦
        faulty (wrap "insert fetch row (4xx)" e) (inl (λ k. ground arith)) (ground arith)
          ([], ground (arith, append-nil w.db.fetches)) (ground arith)
    | inr (inr (e, d)) ↦
        faulty (wrap "insert fetch row (4xx)" e) (inl (λ k. ground arith)) (ground arith)
          (
            fetch_row (env.db_clock w.ticks) (suc w.serials.fetch)
                  (row_params env cfg json url f none)
                ∷ [],
            ground arith,
          )
          (ground arith)
  ]

  abbrev page_params : Fetched → InsertFetchParams
  page_params f = row_params env cfg json url f (some f.body)

  abbrev page_row : Fetched → World → ListingHtmlFetch
  page_row f w = fetch_row (env.db_clock w.ticks) (suc w.serials.fetch) (page_params f)

  -- the world once the page's row is written
  abbrev written : Fetched → World → World
  written f w = tick (record w {
    db = record w.db { fetches = w.db.fetches ++ page_row f w ∷ [] };
    serials = record w.serials { fetch = suc w.serials.fetch };
  })

  abbrev next_task : World → Bytes
  next_task w = json.encode_next (record { fetch_id = suc w.serials.fetch; url = url })

  publish-acked :
      (q : String) (body : Bytes) (w : World)
      → env.broker w.ticks ≡ acked
      → (publish env q body w).0 ≡ ok tt
  unfolding publish publishing
  publish-acked q body w k = ground arith

  store-written :
      (f : Fetched) (w : World) {sent : Result (Unit {0}) × World}
      → f.error ≡ none
      → leb 400 f.status ≡ false
      → env.database w.ticks ≡ done
      → publish env queue_listings_parse (next_task w) (written f w) ≡ sent
      → Publishes
          (work_message env queue_listings_parse (next_task w) (written f w))
          (written f w)
          sent
      → Stored f w (store env cfg json url f w)
  unfolding store insert insert_fetch
  store-written f w h c d p (delivered r s) =
      page (written f w) h (ground arith) (ground arith) (ground arith) (ground arith)
  store-written f w h c d p (dropped e r s) =
      faulty (wrap "publish parse task" e)
        (inr (λ k.
          let a = publish-acked queue_listings_parse (next_task w) (written f w) k in ground arith))
        (ground arith) (page_row f w ∷ [], ground arith) (ground arith)
  store-written f w h c d p (unsure e r s) =
      faulty (wrap "publish parse task" e)
        (inr (λ k.
          let a = publish-acked queue_listings_parse (next_task w) (written f w) k in ground arith))
        (ground arith) (page_row f w ∷ [], ground arith) (ground arith)

  store-page :
      (f : Fetched) (w : World)
      → f.error ≡ none
      → leb 400 f.status ≡ false
      → Stored f w (store env cfg json url f w)
  unfolding store insert insert_fetch
  store-page f w h c = elim (DbReply-cases (env.database w.ticks)) [
    | inl d ↦ store-written f w h c d refl (publish-Publishes env _ _ _)
    | inr (inl (e, d)) ↦
        faulty (wrap "insert fetch row" e) (inl (λ k. ground arith)) (ground arith)
          ([], ground (arith, append-nil w.db.fetches)) (ground arith)
    | inr (inr (e, d)) ↦
        faulty (wrap "insert fetch row" e) (inl (λ k. ground arith)) (ground arith)
          (page_row f w ∷ [], ground arith) (ground arith)
  ]

  -- However the download went, the handler deals with it in one of the four ways of Stored.
  pub store-Stored : (f : Fetched) (w : World) → Stored f w (store env cfg json url f w)
  store-Stored f w = elim (Option-cases f.error) [
    | inr (e, h) ↦ store-error f w e h
    | inl h ↦ elim (Bool-cases (leb 500 f.status || f.status == 429)) [
      | inl b ↦ store-busy f w h b
      | inr b ↦ elim (Bool-cases (leb 400 f.status)) [
        | inl c ↦ store-gone f w h b c
        | inr c ↦ store-page f w h c
      ]
    ]
  ]
