-- ===== src/Api/Handlers/Crawls.antt =====
-- How a POST of a crawl ends, and what it leaves in the broker.
use real_estate_robot.Base.{
  str_eq, ◌≡◌, ◌≢◌, refl, sym, subst, inl, inr, true, false, Bool-cases, ◌||◌, arith, eq_iff,
}
use real_estate_robot.Base.Values.{Error, ok, err}
use real_estate_robot.Runtime.Env.{Env, World, Stream, Message, tick, Result-cases}
use real_estate_robot.Queue.Names.{queue_listings_discover}
use real_estate_robot.Queue.Publisher.{
  work_message, confirm, hand_over, delivered, dropped, unsure, publish-Publishes,
}
use real_estate_robot.Classification.Score.{Calendar}
use real_estate_robot.Api.{Server, CrawlRequest, failure, crawling, Reply, Formats}
use real_estate_robot.Api.Handlers.{crawl_body, queue_crawl, post_crawl}
use real_estate_robot.Api.Replies.{reply, crawl_url}

abbrev queue_failed : Reply
queue_failed = reply 500 (failure "failed to queue task")

module _ (env : Env) (calendar : Calendar) (formats : Formats) (server : Server) where
  abbrev task : CrawlRequest → World → Message
  task req w =
      work_message env queue_listings_discover (crawl_body env calendar formats server req) w

  -- How a request to crawl ends. Only a request that is complete reaches the broker.
  pub data Crawled (body : Stream) (w : World) : Reply × World → Type 0 where
    no_broker :
        server.has_publisher ≡ false
        → Crawled body w
            (reply 503 (failure "AMQP not configured — start api with AMQP_URL set"), w)
    no_json :
        (e : Error)
        → formats.decode_crawl body ≡ err e
        → Crawled body w (reply 400 (failure "invalid JSON"), w)
    no_slug :
        (req : CrawlRequest)
        → formats.decode_crawl body ≡ ok req
        → (str_eq req.city_slug "" || str_eq req.category_slug "") ≡ true
        → Crawled body w (reply 400 (failure "city_slug and category_slug are required"), w)
    queued :
        (req : CrawlRequest)
        → formats.decode_crawl body ≡ ok req
        → req.city_slug ≢ ""
        → req.category_slug ≢ ""
        → Crawled body w (reply 202 (crawling (crawl_url req)), tick (confirm (task req w) w))
    unsent :
        (req : CrawlRequest)
        → formats.decode_crawl body ≡ ok req
        → Crawled body w (queue_failed, tick w)
    unconfirmed :
        (req : CrawlRequest)
        → formats.decode_crawl body ≡ ok req
        → Crawled body w (queue_failed, tick (hand_over (task req w) w))

  off :
      (body : Stream) (w : World)
      → server.has_publisher ≡ false
      → post_crawl env calendar formats server body w
        ≡ (reply 503 (failure "AMQP not configured — start api with AMQP_URL set"), w)
  unfolding post_crawl
  off body w h = rw h refl

  on :
      (body : Stream) (w : World)
      → server.has_publisher ≡ true
      → post_crawl env calendar formats server body w ≡ elim (formats.decode_crawl body) [
        | err e ↦ (reply 400 (failure "invalid JSON"), w)
        | ok req ↦ queue_crawl env calendar formats server req w
      ]
  unfolding post_crawl
  on body w h = rw h refl

  queue_crawl-Crawled :
      (body : Stream) (req : CrawlRequest) (w : World)
      → formats.decode_crawl body ≡ ok req
      → Crawled body w (queue_crawl env calendar formats server req w)
  unfolding queue_crawl
  queue_crawl-Crawled body req w d =
      elim (Bool-cases (str_eq req.city_slug "" || str_eq req.category_slug "")) [
        | inl s ↦ rw s (no_slug req d s)
        | inr s ↦
            elim (publish-Publishes env queue_listings_discover
              (crawl_body env calendar formats server req) w) [
                | delivered a b ↦
                    rw (s, a, b)
                      (queued req d (λ e. ground (arith, eq_iff req.city_slug ""))
                        (λ e. ground (arith, eq_iff req.category_slug "")))
                | dropped e a b ↦ rw (s, a, b) (unsent req d)
                | unsure e a b ↦ rw (s, a, b) (unconfirmed req d)
              ]
      ]

  -- A crawl is answered 202 only where its one message, for the discovery queue and for page 1 of
  -- the address in the reply, is confirmed by the broker; a failed publish is answered 500, and no
  -- message is confirmed; and without a publisher, with a body that is no JSON or with an empty
  -- slug the world stays as it is, behind a 503 or a 400.
  pub post_crawl-Crawled :
      (body : Stream) (w : World) → Crawled body w (post_crawl env calendar formats server body w)
  unfolding post_crawl
  post_crawl-Crawled body w = elim (Bool-cases server.has_publisher) [
    | inr h ↦ subst (Crawled body w) (sym (off body w h)) (no_broker h)
    | inl h ↦
        subst (Crawled body w) (sym (on body w h))
          (elim (Result-cases (formats.decode_crawl body)) [
            | inr (e, d) ↦ rw d (no_json e d)
            | inl (req, d) ↦ rw d (queue_crawl-Crawled body req w d)
          ])
  ]
