-- ===== src/Pipeline/Exploring.antt =====
-- A run of the discovery worker in the system: it asks for listings and for pages of a search only.
use real_estate_robot.Base.{
  ◌≡◌, ◌≢◌, refl, subst, inl, inr, String, str_eq, eq_iff, Option, none, some, true, List, [], ◌∷◌,
  ◌++◌, ◌||◌, leb, ◌==◌, Option-cases, arith, All, All-append, All-mono, Bool-cases,
}
use real_estate_robot.Base.Int.{ℤ, pos, ◌+ℤ◌, ltb_ℤ}
use real_estate_robot.Base.Values.{Bytes, Result, ok, err, wrap, wrap_of}
use real_estate_robot.Storage.Rows.{Db}
use real_estate_robot.Runtime.Env.{Env, World, Response, max_bytes, wrapping, lift, Result-cases}
use real_estate_robot.Runtime.Actions.{wait_limiter}
use real_estate_robot.Runtime.Rules.{bind_rule, if_rule, wait_limiter_rule, rewrap_ok}
use real_estate_robot.Queue.Names.{queue_listings_discover, queue_listings_fetch}
use real_estate_robot.Queue.Publisher.Batch.{publish_each}
use real_estate_robot.Discovery.{
  Config, Web, is_listing_url, is_new, resolve_and_clean, collect, extract, on_response,
  fetch_listing_urls, get_request, page_of, build_search_page_url, paginate, spread, walk, handle,
}
use real_estate_robot.Pipeline.{Wire, search, fetch, IsSound}
use real_estate_robot.Pipeline.Sending.{AreWork, publish-IsSound, publish_each-IsSound}

-- URLs of listings only.
abbrev AreListings : List String → Type 0
AreListings urls = All (λ u. is_listing_url u ≡ true) urls

module _ (web : Web) where
  collect-AreListings :
      (base : web.Url) (hrefs : List (Option String)) (seen urls : List String)
      → AreListings urls
      → AreListings (collect web base hrefs seen urls)
  unfolding collect
  collect-AreListings base [] seen urls h = h
  collect-AreListings base (none ∷ hrefs) seen urls h = collect-AreListings base hrefs seen urls h
  collect-AreListings base (some href ∷ hrefs) seen urls h =
      let abs : String = resolve_and_clean web base href in
      elim (Bool-cases (is_new abs seen)) [
        | inl new ↦ rw new (
            collect-AreListings base hrefs (abs ∷ seen) (urls ++ abs ∷ [])
              (All-append (λ u. is_listing_url u ≡ true) urls (abs ∷ []) h (ground arith, tt)))
        | inr old ↦ rw old (collect-AreListings base hrefs seen urls h)
      ]

  extract-AreListings :
      (page_url : String) (resp : Response) (urls : List String)
      → extract web page_url resp ≡ ok urls
      → AreListings urls
  unfolding extract
  extract-AreListings page_url resp urls h =
      elim (Bool-cases (leb 500 resp.status || resp.status == 429)) [
        | inl busy ↦ absurd (ground arith)
        | inr calm ↦ elim (Bool-cases (leb 400 resp.status)) [
          | inl gone ↦ let e : [] ≡ urls = ground arith in subst AreListings e tt
          | inr there ↦ elim (Result-cases (web.links max_bytes resp.body)) [
            | inr (e, l) ↦ absurd (ground arith)
            | inl (hrefs, l) ↦ elim (Result-cases (web.parse page_url)) [
              | inr (e, p) ↦ absurd (ground arith)
              | inl (base, p) ↦
                  let e : collect web base hrefs [] [] ≡ urls = ground arith in
                  subst AreListings e (collect-AreListings base hrefs [] [] tt)
            ]
          ]
        ]
      ]

module _ (wire : Wire) (web : Web) (env : Env) (cfg : Config) where
  on_response-AreListings :
      (url : String) (r : Result Response) (urls : List String)
      → on_response web env cfg wire.discovery url r ≡ ok urls
      → AreListings urls
  on_response-AreListings url (ok resp) urls h = extract-AreListings web url resp urls h
  on_response-AreListings url (err e) urls h = cc

  fetch_listing_urls-AreListings :
      (url : String) (w : World) (urls : List String)
      → (fetch_listing_urls web env cfg wire.discovery url w).0 ≡ ok urls
      → AreListings urls
  unfolding fetch_listing_urls
  fetch_listing_urls-AreListings url w urls h = elim (Option-cases (env.bad_url url)) [
    | inr (e, b) ↦ absurd (ground arith)
    | inl b ↦
        on_response-AreListings url (env.http w.ticks (get_request web cfg.user_agent url)) urls
          (ground arith)
  ]

  fetch_listing_urls-IsSound :
      (url : String) (w : World)
      → IsSound wire w
      → IsSound wire (fetch_listing_urls web env cfg wire.discovery url w).1
  unfolding fetch_listing_urls
  fetch_listing_urls-IsSound url w s = elim (Option-cases (env.bad_url url)) [
    | inr (e, b) ↦ rw (b, fetch_listing_urls) s
    | inl b ↦ rw (b, fetch_listing_urls) s
  ]

  AreListings-AreWork :
      (db : Db) (urls : List String)
      → AreListings urls
      → AreWork wire env db queue_listings_fetch wire.discovery.encode_fetch urls
  AreListings-AreWork db urls h =
      All-mono (λ u. is_listing_url u ≡ true) _ urls (λ u l v. fetch u l refl (inl refl)) h

  paginate-IsSound :
      (search_url : String) (page : ℤ) (urls : List String) (w : World)
      → search_url ≢ ""
      → IsSound wire w
      → IsSound wire (paginate web env cfg wire.discovery search_url page urls w).1
  unfolding paginate
  paginate-IsSound search_url page [] w n s = s
  paginate-IsSound search_url page (u ∷ urls) w n s =
      if_rule (IsSound wire) (ltb_ℤ page cfg.max_page) _ _ w
        (λ more.
          publish-IsSound wire env queue_listings_discover
            (wire.discovery.encode_task (record { search_url = search_url; page = page +ℤ pos 1 }))
            w (search search_url (page +ℤ pos 1) n refl (inl refl)) s)
        (λ last. s)

  spread-IsSound :
      (search_url : String) (page : ℤ) (urls : List String) (w : World)
      → search_url ≢ ""
      → AreListings urls
      → IsSound wire w
      → IsSound wire (spread web env cfg wire.discovery search_url page urls w).1
  unfolding spread
  spread-IsSound search_url page urls w n l s =
      let sent =
        publish_each-IsSound wire env queue_listings_fetch wire.discovery.encode_fetch w.db urls w
          refl (AreListings-AreWork w.db urls l) s in
      bind_rule (IsSound wire)
        (publish_each env queue_listings_fetch wire.discovery.encode_fetch urls)
        (λ _. paginate web env cfg wire.discovery search_url page urls) w sent
        (λ _ o. paginate-IsSound search_url page urls _ n sent)

  walk-IsSound :
      (search_url : String) (page : ℤ) (w : World)
      → search_url ≢ ""
      → IsSound wire w
      → IsSound wire (walk web env cfg wire.discovery search_url page w).1
  unfolding walk
  walk-IsSound search_url page w n s =
      bind_rule (IsSound wire)
        (wrapping (wrap "build page url") (lift (build_search_page_url web search_url page))) _ w s
        λ page_url o.
          bind_rule (IsSound wire) (wait_limiter env) _ w (wait_limiter_rule (IsSound wire) env w s)
            λ _ o'.
              let here =
                fetch_listing_urls-IsSound page_url _ (wait_limiter_rule (IsSound wire) env w s) in
              bind_rule (IsSound wire)
                (wrapping (wrap_of "fetch search page" page_url)
                  (fetch_listing_urls web env cfg wire.discovery page_url))
                _ _ here
                λ urls f.
                  spread-IsSound search_url page urls _ n
                    (fetch_listing_urls-AreListings page_url _ urls (rewrap_ok _ _ urls f)) here

  -- Whatever body it is given, the discovery worker keeps what the parts keep together.
  pub handle-IsSound :
      (body : Bytes) (w : World)
      → IsSound wire w
      → IsSound wire (handle web env cfg wire.discovery body w).1
  unfolding handle
  handle-IsSound body w s =
      bind_rule (IsSound wire)
        (wrapping (wrap "decode task") (lift (wire.discovery.decode_task body))) _ w s
        λ task o.
          if_rule (IsSound wire) (str_eq task.search_url "") _ _ w (λ empty. s)
            λ named.
              if_rule (IsSound wire) (ltb_ℤ cfg.max_page (page_of web env cfg wire.discovery task))
                _ _ w (λ over. s)
                λ below.
                  walk-IsSound task.search_url _ w (λ e. ground (arith, eq_iff task.search_url ""))
                    s
