-- ===== src/Pipeline/Handoffs.antt =====
-- What a worker finds behind a message that another part has sent it.
use real_estate_robot.Base.{
  ◌≡◌, ◌≢◌, ◌⊎◌, sym, subst, ap, ◌∙◌, inl, inr, String, eq_iff, some, true, arith, All-In, In,
  if◌then◌else◌,
}
use real_estate_robot.Base.Int.{pos}
use real_estate_robot.Base.Values.{Bytes, ok, wrap}
use real_estate_robot.Storage.Rows.{Seller, ListingHtmlFetch}
use real_estate_robot.Storage.Sellers.{get_seller_by_olx_id}
use real_estate_robot.Storage.Fetches.{get_fetch_by_id}
use real_estate_robot.Runtime.Env.{Env, World, M, Message, done, tick, pure, wrapping, lift, ◌>>=◌}
use real_estate_robot.Queue.Names.{
  exchange_work, exchange_dead, queue_listings_discover, queue_listings_fetch, queue_listings_parse,
  queue_sellers_enrich,
}
use real_estate_robot.Fetcher.{skips, download, Config as FetcherConfig, handle as fetch_page}
use real_estate_robot.Discovery.{is_listing_url}
use real_estate_robot.Enrich.{
  Config as EnrichConfig, look_up, enrich as enrich_row, handle as enrich_seller,
}
use real_estate_robot.Parser.Page.{Reading, parse as parse_html}
use real_estate_robot.Parser.Worker.{store, digest, handle as parse_page}
use real_estate_robot.Pipeline.{Wire, IsWork, search, fetch, parse, enrich, given_up}
use real_estate_robot.Pipeline.System.{History, History-IsSound}

apart : (a b c : String) → a ≢ b → c ≡ a → c ≡ b → ⊥
apart a b c n p q = n (sym p ∙ q)

work_is_not_dead : ◌≢◌ {A = String} exchange_dead exchange_work
work_is_not_dead e = ground (arith, eq_iff exchange_dead exchange_work)

fetch_is_not_parse : ◌≢◌ {A = String} queue_listings_fetch queue_listings_parse
fetch_is_not_parse e = ground (arith, eq_iff queue_listings_fetch queue_listings_parse)

enrich_is_not_parse : ◌≢◌ {A = String} queue_sellers_enrich queue_listings_parse
enrich_is_not_parse e = ground (arith, eq_iff queue_sellers_enrich queue_listings_parse)

discover_is_not_enrich : ◌≢◌ {A = String} queue_listings_discover queue_sellers_enrich
discover_is_not_enrich e = ground (arith, eq_iff queue_listings_discover queue_sellers_enrich)

fetch_is_not_enrich : ◌≢◌ {A = String} queue_listings_fetch queue_sellers_enrich
fetch_is_not_enrich e = ground (arith, eq_iff queue_listings_fetch queue_sellers_enrich)

discover_is_not_fetch : ◌≢◌ {A = String} queue_listings_discover queue_listings_fetch
discover_is_not_fetch e = ground (arith, eq_iff queue_listings_discover queue_listings_fetch)

module _ (wire : Wire) where
  module _ (env : Env) (reading : Reading) (begin_func : M (Unit {0}) → M (Unit {0})) where
    -- what the parser does with a page
    abbrev pub parsing : String → Bytes → M (Unit {0})
    parsing url html =
        wrapping (wrap "parse") (lift (parse_html reading url html))
        >>= store env reading wire.parser begin_func

    pub handle_row :
        (body : Bytes) (row : ListingHtmlFetch) (html : Bytes) (w : World)
        → wire.parser.decode_task body ≡ ok (record { fetch_id = pos row.id; url = row.url })
        → row.id ≢ 0
        → env.database w.ticks ≡ done
        → get_fetch_by_id row.id w.db.fetches ≡ some row
        → row.html ≡ some html
        → parse_page env reading wire.parser begin_func body w ≡ parsing row.url html (tick w)
    unfolding parse_page digest
    handle_row body row html w decoded n d f h = ground arith

  -- The seller that a message for the enricher names.
  IsWork-enrich :
      (w : World) (m : Message)
      → m.exchange ≡ exchange_work
      → m.routing_key ≡ queue_sellers_enrich
      → IsWork wire w.db m
      → (key : String) × (seller : Seller) × (key ≢ "")
        × (get_seller_by_olx_id key w.db.sellers ≡ some seller)
        × (m.body ≡ wire.parser.encode_next key)
  IsWork-enrich w m x k (search url page n q b) = absurd (apart _ _ _ discover_is_not_enrich q k)
  IsWork-enrich w m x k (fetch url l q b) = absurd (apart _ _ _ fetch_is_not_enrich q k)
  IsWork-enrich w m x k (parse row html n f h q b) = absurd (apart _ _ _ enrich_is_not_parse k q)
  IsWork-enrich w m x k (enrich key n (seller, f) q b) = (key, seller, n, f, b)
  IsWork-enrich w m x k (given_up d) = absurd (apart _ _ _ work_is_not_dead d x)

  module _ (env : Env) (cfg : EnrichConfig) where
    handle_seller :
        (body : Bytes) (key : String) (seller : Seller) (w : World)
        → wire.enrich.decode_task body ≡ ok (record { olx_user_id = key })
        → key ≢ ""
        → env.database w.ticks ≡ done
        → get_seller_by_olx_id key w.db.sellers ≡ some seller
        → enrich_seller env cfg wire.enrich body w
          ≡ enrich_row env cfg wire.enrich (ok seller) (tick w)
    unfolding enrich_seller look_up
    handle_seller body key seller w decoded n d f = ground (arith, eq_iff key "")

    -- A message for the enricher that was sent in some history names a seller with a row: where the
    -- JSON of the parser's tasks decodes to them and the lookup is answered, the enricher goes on
    -- with that row. It never meets a task that it cannot decode, an empty key or a seller that is
    -- not known.
    pub handle-knows_seller :
        {w : World} (h : History wire w) (m : Message)
        → In m w.sent
        → m.exchange ≡ exchange_work
        → m.routing_key ≡ queue_sellers_enrich
        → ((key : String)
            → wire.enrich.decode_task (wire.parser.encode_next key)
              ≡ ok (record { olx_user_id = key }))
        → env.database w.ticks ≡ done
        → (key : String) × (seller : Seller) × (get_seller_by_olx_id key w.db.sellers ≡ some seller)
          × (enrich_seller env cfg wire.enrich m.body w
              ≡ enrich_row env cfg wire.enrich (ok seller) (tick w))
    handle-knows_seller {w} h m i x k agree d =
        let s = History-IsSound wire h in
        let (key, seller, n, f, b) =
          IsWork-enrich w m x k (All-In (IsWork wire w.db) m w.sent s.workable i) in
        (
          key,
          seller,
          f,
          handle_seller m.body key seller w (ap wire.enrich.decode_task b ∙ agree key) n d f,
        )

  -- The listing that a message for the fetcher names.
  IsWork-fetch :
      (w : World) (m : Message)
      → m.exchange ≡ exchange_work
      → m.routing_key ≡ queue_listings_fetch
      → IsWork wire w.db m
      → (url : String) × (is_listing_url url ≡ true)
        × ((m.body ≡ wire.discovery.encode_fetch url) ⊎ (m.body ≡ wire.enrich.encode_fetch url))
  IsWork-fetch w m x k (search url page n q b) = absurd (apart _ _ _ discover_is_not_fetch q k)
  IsWork-fetch w m x k (fetch url l q (inl b)) = (url, l, inl (sym b))
  IsWork-fetch w m x k (fetch url l q (inr (inl b))) = (url, l, inr (sym b))
  IsWork-fetch w m x k (fetch url l q (inr (inr none'))) = elim none' [ ]
  IsWork-fetch w m x k (parse row html n f h q b) = absurd (apart _ _ _ fetch_is_not_parse k q)
  IsWork-fetch w m x k (enrich key n f q b) = absurd (apart _ _ _ fetch_is_not_enrich k q)
  IsWork-fetch w m x k (given_up d) = absurd (apart _ _ _ work_is_not_dead d x)

  listing-named : (url : String) → is_listing_url url ≡ true → url ≢ ""
  unfolding is_listing_url
  listing-named url l e =
      let never : is_listing_url "" ≡ true = subst (λ u. is_listing_url u ≡ true) e l in cc

  module _ (env : Env) (cfg : FetcherConfig) where
    -- what the fetcher does with a URL
    abbrev pub fetching : String → M (Unit {0})
    fetching url = skips env cfg wire.fetcher url >>= λ skip.
        if skip then pure tt else download env cfg wire.fetcher url

    handle_url :
        (body : Bytes) (url : String) (w : World)
        → wire.fetcher.decode_task body ≡ ok (record { url = url })
        → url ≢ ""
        → fetch_page env cfg wire.fetcher body w ≡ fetching url w
    unfolding fetch_page
    handle_url body url w decoded n = ground (arith, eq_iff url "")

    -- A message for the fetcher that was sent in some history asks for the page of a listing: where
    -- the JSON of the two workers that ask decodes to their URLs, the fetcher goes on with a URL on
    -- one of the two paths of the site's listings. It never meets a task that it cannot decode, or
    -- an empty URL, and no link leads it away from the site.
    pub handle-stays_on_site :
        {w : World} (h : History wire w) (m : Message)
        → In m w.sent
        → m.exchange ≡ exchange_work
        → m.routing_key ≡ queue_listings_fetch
        → ((url : String)
            → wire.fetcher.decode_task (wire.discovery.encode_fetch url)
              ≡ ok (record { url = url }))
        → ((url : String)
            → wire.fetcher.decode_task (wire.enrich.encode_fetch url) ≡ ok (record { url = url }))
        → (url : String) × (is_listing_url url ≡ true)
          × (fetch_page env cfg wire.fetcher m.body w ≡ fetching url w)
    handle-stays_on_site {w} h m i x k discovered enriched =
        let s = History-IsSound wire h in
        let (url, l, b) = IsWork-fetch w m x k (All-In (IsWork wire w.db) m w.sent s.workable i) in
        let decoded : wire.fetcher.decode_task m.body ≡ ok (record { url = url }) = elim b [
          | inl e ↦ ap wire.fetcher.decode_task e ∙ discovered url
          | inr e ↦ ap wire.fetcher.decode_task e ∙ enriched url
        ] in
        (url, l, handle_url m.body url w decoded (listing-named url l))
