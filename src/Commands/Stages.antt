-- ===== src/Commands/Stages.antt =====
-- The processes of the parser, the enricher and the discovery worker as wholes: what an acknowledged
-- delivery stands for.
use real_estate_robot.Base.{
  String, ◌≡◌, sym, ap, ◌∙◌, true, false, none, some, [], ◌∷◌, ◌++◌, arith,
}
use real_estate_robot.Base.Int.{ℤ}
use real_estate_robot.Base.Values.{Bytes, Result, ok}
use real_estate_robot.Storage.Rows.{ListingHtmlFetch}
use real_estate_robot.Runtime.Env.{Env, World, M, tick}
use real_estate_robot.Queue.Names.{queue_listings_parse, queue_sellers_enrich}
use real_estate_robot.Queue.Publisher.{dead_message, work_message}
use real_estate_robot.Queue.Consumer.{
  Delivery, handler_called, dead_published, ack, nack, Settled, dispatch,
}
use real_estate_robot.Queue.Consumer.Policy.{
  buried, put_back, handled, failed, Outcome, dispatch-Outcome,
}
use real_estate_robot.Parser.Page.{Parsed, Reading, parse}
use real_estate_robot.Parser.Worker.{
  Task as ParserTask, Json as ParserJson, find_fetch, handle as parse_page,
}
use real_estate_robot.Parser.Worker.Transactions.{Transacted, Saved}
use real_estate_robot.Parser.Worker.Atomicity.{
  nothing, everything, rows_alone, Digested, refused_early, empty, digested, handle-Digested,
}
use real_estate_robot.Commands.{handler_of}

-- What becomes of a delivery, by what an acknowledgement behind the handler stands for.
pub data Accounted (env : Env) (queue : String) (Done : World → Type 0) (d : Delivery) (w : World)
    (s : Settled) : Type 0 where
  -- It stays with the broker.
  kept : s.0 ≡ nack true ∷ [] → Accounted env queue Done d w s
  retried : s.0 ≡ handler_called ∷ nack false ∷ [] → Accounted env queue Done d w s
  -- It is acknowledged: given up, with a confirmed copy for the dead queue,
  dead :
      s.0 ≡ dead_published ∷ ack ∷ []
      → s.1.confirmed ≡ w.confirmed ++ dead_message env queue d.body "retries exhausted" w ∷ []
      → Accounted env queue Done d w s
  -- or done.
  acked : s.0 ≡ handler_called ∷ ack ∷ [] → Done s.1 → Accounted env queue Done d w s

-- Where a success of the worker's method means that its work is done, so does an acknowledgement.
module _ (env : Env) (queue : String) (max_retries : ℤ) (method : Bytes → M (Unit {0}))
    (Done : World → Type 0) (d : Delivery) (w : World)
    (sound : (method d.body w).0 ≡ ok tt → Done (method d.body w).1) where
  Outcome-Accounted :
      (s : Settled)
      → Outcome env queue max_retries (handler_of method) d w s
      → Accounted env queue Done d w s
  Outcome-Accounted s (buried l a c) = dead a c
  Outcome-Accounted s (put_back x l p a c) = kept a
  Outcome-Accounted s (failed l r a e) = retried a
  Outcome-Accounted s (handled l r a e) = acked a (rw e (sound (ground arith)))

  pub method-Accounted :
      Accounted env queue Done d w (dispatch env queue max_retries (handler_of method) d w)
  method-Accounted =
      Outcome-Accounted _ (dispatch-Outcome env queue max_retries (handler_of method) d w)

-- What a parser's task comes to: its page has no body, or its rows are written and the enricher's
-- task for the seller is confirmed.
module _ (env : Env) (reading : Reading) (json : ParserJson)
    (begin_func : M (Unit {0}) → M (Unit {0})) where
  pub data Parsing (body : Bytes) (w v : World) : Type 0 where
    bodiless :
        (task : ParserTask) (row : ListingHtmlFetch)
        → json.decode_task body ≡ ok task
        → find_fetch task.fetch_id w ≡ ok row
        → row.html ≡ none
        → v ≡ tick w
        → Parsing body w v
    stored :
        (task : ParserTask) (row : ListingHtmlFetch) (html : Bytes) (res : Parsed) (u : World)
        → json.decode_task body ≡ ok task
        → find_fetch task.fetch_id w ≡ ok row
        → row.html ≡ some html
        → parse reading task.url html ≡ ok res
        → Saved env reading json res w.db v.db
        → v.confirmed
          ≡ w.confirmed
            ++ work_message env queue_sellers_enrich (json.encode_next res.seller.olx_user_id) u
              ∷ []
        → Parsing body w v

  Digested-Parsing :
      (body : Bytes) (w : World) {after : Result (Unit {0}) × World}
      → Digested env reading json begin_func body w after
      → after.0 ≡ ok tt
      → Parsing body w after.1
  Digested-Parsing body w (refused_early e o x) h = ground (arith, sym o ∙ h)
  Digested-Parsing body w (empty task row t f n e) h = bodiless task row t f n (ap (λ p. p.1) e)
  Digested-Parsing body w (digested task row html res t f h' p (nothing e o db s c)) h =
      ground (arith, sym o ∙ h)
  Digested-Parsing body w (digested task row html res t f h' p (everything u o s c)) h =
      stored task row html res u t f h' p s c
  Digested-Parsing body w (digested task row html res t f h' p (rows_alone e o s c)) h =
      ground (arith, sym o ∙ h)

  module _
      (atomic : (body : M (Unit {0})) (w : World) → Transacted body w (begin_func body w)) where
    -- Where begin_func is a transaction, a delivery on the parser's queue is acknowledged only with
    -- a confirmed copy for the dead queue, with a row that has no page, or with the three rows of
    -- its page written and the enricher's task for the page's seller confirmed. Else it stays with
    -- the broker, for a redelivery or for the retry queue.
    pub parser_delivery-Accounted :
        (max_retries : ℤ) (d : Delivery) (w : World)
        → Accounted env queue_listings_parse (Parsing d.body w) d w (
            dispatch env queue_listings_parse max_retries
              (handler_of (parse_page env reading json begin_func))
              d
              w)
    parser_delivery-Accounted max_retries d w =
        method-Accounted env queue_listings_parse max_retries
          (parse_page env reading json begin_func) (Parsing d.body w) d w
          (Digested-Parsing d.body w (handle-Digested env reading json begin_func atomic d.body w))
