-- ===== src/Pipeline/Journey/Course.antt =====
-- The fetcher's run on a listing's URL and the parser's run behind it, in the system.
use real_estate_robot.Base.{ℕ, suc, ◌<◌, ◌^◌, ◌≡◌, ◌≢◌, refl, ap, ◌∙◌, String, none, arith}
use real_estate_robot.Base.Int.{pos}
use real_estate_robot.Base.Values.{Bytes, Result, ok}
use real_estate_robot.Storage.Fetches.{get_latest_fetch_by_url}
use real_estate_robot.Runtime.Env.{
  Env, World, M, Response, acked, done, tick, read_limited, max_bytes,
}
use real_estate_robot.Fetcher.{Config, NextTask, get_request, handle as fetch_page}
use real_estate_robot.Parser.Page.{Parsed, Reading, parse as parse_html}
use real_estate_robot.Parser.Worker.{store, handle as parse_page}
use real_estate_robot.Parser.Worker.Transactions.{Transacted}
use real_estate_robot.Pipeline.{Wire}
use real_estate_robot.Pipeline.System.{History, History-IsSound}
use real_estate_robot.Pipeline.Handoffs.{parsing, handle_row}
use real_estate_robot.Pipeline.Journey.{Handed, handle-Handed}
use real_estate_robot.Pipeline.Journey.Arrival.{Arrived, store-Arrived}

module _ (wire : Wire) (env : Env) (acks : (n : ℕ) → env.broker n ≡ acked)
    (answers : (n : ℕ) → env.database n ≡ done) (waits : (n : ℕ) → env.limiter n ≡ none)
    (cfg : Config) (reading : Reading) (begin_func : M (Unit {0}) → M (Unit {0}))
    (atomic : (body : M (Unit {0})) (w : World) → Transacted body w (begin_func body w))
    (commits : (body : M (Unit {0})) (w : World)
      → ((v : World) → (body v).0 ≡ ok tt)
      → (begin_func body w).0 ≡ ok tt)
    (agree : (n : NextTask)
      → n.fetch_id < 2 ^ 63
      → wire.parser.decode_task (wire.fetcher.encode_next n)
        ≡ ok (record { fetch_id = pos n.fetch_id; url = n.url })) where
  -- what the parser makes of the task for the page that the fetcher stores next
  abbrev next_page : String → World → World → Result (Unit {0}) × World
  next_page url w v =
      parse_page env reading wire.parser begin_func
        (wire.fetcher.encode_next (record { fetch_id = suc w.serials.fetch; url = url })) v

  parsing-store :
      (url : String) (html : Bytes) (res : Parsed) (v : World)
      → parse_html reading url html ≡ ok res
      → parsing wire env reading begin_func url html v
        ≡ store env reading wire.parser begin_func res v
  parsing-store url html res v h = rw h refl

  module _ (url : String) (resp : Response) (html : Bytes) (res : Parsed)
      (good : env.bad_url url ≡ none)
      (replies : (n : ℕ) → env.http n (get_request cfg.user_agent url) ≡ ok resp)
      (whole : read_limited max_bytes resp.body ≡ ok html) (fine : resp.status < 400)
      (readable : parse_html reading url html ≡ ok res) where
    next-Arrived :
        (w : World) (after : Result (Unit {0}) × World)
        → suc w.serials.fetch < 2 ^ 63
        → Handed wire.fetcher url html w after
        → Arrived wire.parser res after.1.confirmed (next_page url w after.1)
    next-Arrived w after small handed =
        let task : NextTask = record { fetch_id = suc w.serials.fetch; url = url } in
        let same : next_page url w after.1
            ≡ store env reading wire.parser begin_func res (tick after.1) =
          handle_row wire env reading begin_func (wire.fetcher.encode_next task) handed.row html
            after.1 (agree task small ∙ ground arith) (λ e. ground arith) (answers after.1.ticks)
            handed.found handed.kept.1
          ∙ ap (λ u. parsing wire env reading begin_func u html (tick after.1)) handed.kept.0
          ∙ parsing-store url html res (tick after.1) readable in
        rw same (
          store-Arrived env acks answers reading wire.parser begin_func atomic commits res
            (tick after.1))

    -- After any history, where every call works, BeginFunc commits, the number drawn next for a page
    -- is below 2^63, the JSON of the fetcher's tasks decodes to them, and the URL was never fetched,
    -- is answered with a status below 400, and its page parses: the fetcher stores the page under the
    -- next number and the parser's task for it is confirmed; and the parser's run on that task leaves
    -- the listing's row, with the number of its seller's row, and the task for the seller's
    -- enrichment is confirmed.
    pub handle-Arrived :
        {w : World} (h : History wire w) (body : Bytes)
        → wire.fetcher.decode_task body ≡ ok (record { url = url })
        → url ≢ ""
        → get_latest_fetch_by_url url w.db.fetches ≡ none
        → suc w.serials.fetch < 2 ^ 63
        → Handed wire.fetcher url html w (fetch_page env cfg wire.fetcher body w)
          × Arrived wire.parser res
              (fetch_page env cfg wire.fetcher body w).1.confirmed
              (next_page url w (fetch_page env cfg wire.fetcher body w).1)
    handle-Arrived {w} h body decoded named first small =
        let handed =
          handle-Handed env acks answers waits cfg wire.fetcher url resp html good replies whole
            fine body w decoded named first (History-IsSound wire h).fetches_numbered in
        (handed, next-Arrived w (fetch_page env cfg wire.fetcher body w) small handed)
