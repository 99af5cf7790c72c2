-- ===== src/Pipeline/Journey.antt =====
-- What comes of a listing's page where every call works.
pub mod Arrival
pub mod Course
use real_estate_robot.Base.{
  ℕ, suc, ◌<◌, ◌≤◌, ◌^◌, ◌≡◌, ◌≢◌, refl, sym, ap, ◌∙◌, subst, inl, inr, ◌⊎◌, String, Bool,
  Bool-cases, true, false, Option, none, some, List, [], ◌∷◌, ◌++◌, All, arith, eq_iff,
  if◌then◌else◌, leb,
}
use real_estate_robot.Base.Int.{pos, ltb_ℤ}
use real_estate_robot.Base.Values.{Bytes, Result, ok, err}
use real_estate_robot.Storage.Rows.{ListingHtmlFetch}
use real_estate_robot.Storage.Fetches.{
  fetch_row, insert_fetch, get_fetch_by_id, get_latest_fetch_by_url,
}
use real_estate_robot.Runtime.Env.{
  Env, World, Message, Request, Response, acked, done, tick, read_limited, max_bytes,
}
use real_estate_robot.Queue.Names.{queue_listings_parse}
use real_estate_robot.Queue.Publisher.{publish, publishing, work_message, confirm}
use real_estate_robot.Fetcher.{
  Config, Json, Task, Fetched, get_request, received, fetch, insert, row_params, store, judge,
  skips, download, handle,
}
use real_estate_robot.Fetcher.Gate.{download-fetches}
use real_estate_robot.Pipeline.Tables.{get_fetch-last}

module _ (json : Json) (url : String) where
  -- The page is stored under the next number, and the parser's task for it is confirmed.
  pub record Handed (html : Bytes) (w : World) (after : Result (Unit {0}) × World) : Type 0 where
    pub worked : after.0 ≡ ok tt
    pub message : Message
    pub routed : message.routing_key ≡ queue_listings_parse
    pub asked :
        message.body ≡ json.encode_next (record { fetch_id = suc w.serials.fetch; url = url })
    pub confirmed : after.1.confirmed ≡ w.confirmed ++ message ∷ []
    pub row : ListingHtmlFetch
    pub numbered : row.id ≡ suc w.serials.fetch
    pub found : get_fetch_by_id row.id after.1.db.fetches ≡ some row
    pub kept : (row.url ≡ url) × (row.html ≡ some html)
    pub others : after.1.db ≡ record w.db { fetches = after.1.db.fetches }

module _ (env : Env) (acks : (n : ℕ) → env.broker n ≡ acked)
    (answers : (n : ℕ) → env.database n ≡ done) (waits : (n : ℕ) → env.limiter n ≡ none) where
  module _ (cfg : Config) (json : Json) (url : String) where
    abbrev page_row : Fetched → World → ListingHtmlFetch
    page_row f w =
        fetch_row (env.db_clock w.ticks) (suc w.serials.fetch)
          (row_params env cfg json url f (some f.body))

    -- the world once the page's row is written, and once the parser is asked
    abbrev written : Fetched → World → World
    written f w = tick (record w {
      db = record w.db { fetches = w.db.fetches ++ page_row f w ∷ [] };
      serials = record w.serials { fetch = suc w.serials.fetch };
    })

    abbrev asking : Fetched → World → Message
    asking f w =
        work_message env queue_listings_parse
          (json.encode_next (record { fetch_id = suc w.serials.fetch; url = url })) (written f w)

    store-confirms :
        (f : Fetched) (w : World)
        → f.error ≡ none
        → leb 400 f.status ≡ false
        → store env cfg json url f w ≡ (ok tt, tick (confirm (asking f w) (written f w)))
    unfolding store insert insert_fetch publish publishing
    store-confirms f w h c = let a = acks (suc w.ticks) in let d = answers w.ticks in ground arith

    -- The gate lets a URL through that was never fetched.
    skips-first :
        (w : World)
        → get_latest_fetch_by_url url w.db.fetches ≡ none
        → (k : ℕ) × (skips env cfg json url w ≡ (ok false, record w { ticks = k }))
    unfolding skips judge
    skips-first w h = elim (Bool-cases (ltb_ℤ (pos 0) cfg.min_refetch_interval)) [
      | inr off ↦ (w.ticks, ground arith)
      | inl on ↦ let d = answers w.ticks in (suc w.ticks, ground arith)
    ]

    module _ (resp : Response) (html : Bytes) (good : env.bad_url url ≡ none)
        (replies : (n : ℕ) → env.http n (get_request cfg.user_agent url) ≡ ok resp)
        (whole : read_limited max_bytes resp.body ≡ ok html) (fine : resp.status < 400) where
      abbrev page : Fetched
      page = record { body = html; status = resp.status; headers = resp.headers; error = none }

      abbrev visited : World → World
      visited w = tick (record w { requested = w.requested ++ get_request cfg.user_agent url ∷ [] })

      fetch-page : (w : World) → fetch env cfg json url w ≡ (page, visited w)
      unfolding fetch received
      fetch-page w = let r = replies w.ticks in ground arith

      abbrev met : World → World
      met w = visited (tick w)

      download-confirms :
          (w : World)
          → download env cfg json url w
            ≡ (ok tt, tick (confirm (asking page (met w)) (written page (met w))))
      download-confirms w =
          download-fetches env cfg json url w (waits w.ticks)
          ∙ ap (λ p. store env cfg json url p.0 p.1) (fetch-page (tick w))
          ∙ store-confirms page (met w) refl (ground arith)

      download-Handed :
          (w : World) (k : ℕ)
          → All (λ r. r.id ≤ w.serials.fetch) w.db.fetches
          → Handed json url html w (download env cfg json url (record w { ticks = k }))
      download-Handed w k h =
          let x : World = record w { ticks = k } in
          rw (download-confirms x) (record {
            worked = refl;
            message = asking page (met x);
            routed = refl;
            asked = refl;
            confirmed = refl;
            row = page_row page (met x);
            numbered = refl;
            found = get_fetch-last w.serials.fetch (page_row page (met x)) w.db.fetches h refl;
            kept = (refl, refl);
            others = refl;
          })

      -- A URL that was never fetched and whose page is there is stored under the next number, and
      -- the parser's task for it is confirmed.
      pub handle-Handed :
          (body : Bytes) (w : World)
          → json.decode_task body ≡ ok (record { url = url })
          → url ≢ ""
          → get_latest_fetch_by_url url w.db.fetches ≡ none
          → All (λ r. r.id ≤ w.serials.fetch) w.db.fetches
          → Handed json url html w (handle env cfg json body w)
      unfolding handle
      handle-Handed body w decoded named first h =
          let (k, g) = skips-first w first in
          let same : handle env cfg json body w
              ≡ download env cfg json url (record w { ticks = k }) =
            ground (arith, eq_iff url "") in
          rw same (download-Handed w k h)
