-- ===== src/Discovery/Walks.antt =====
-- What one run of the discovery handler publishes, on every path.
use real_estate_robot.Base.{
  String, str_eq, ◌≡◌, ◌≢◌, refl, sym, subst, ◌∙◌, ap, inl, inr, true, false, List, [], ◌∷◌, ◌++◌,
  append_assoc, append-nil, arith, eq_iff, Bool-cases, Option-cases, if◌then◌else◌,
}
use mathlib.Core.List.{map-append}
use real_estate_robot.Base.Int.{ℤ, pos, ◌+ℤ◌, ltb_ℤ}
use real_estate_robot.Base.Values.{Bytes, Error, Result, ok, err, message, wrap, wrap_of}
use real_estate_robot.Runtime.Env.{Env, World, tick, Result-cases}
use real_estate_robot.Queue.Names.{queue_listings_discover, queue_listings_fetch}
use real_estate_robot.Queue.Publisher.{
  confirm, publish, work_message, Publishes, delivered, dropped, unsure, publish-Publishes,
}
use real_estate_robot.Queue.Publisher.Batch.{
  letter, letters, publish_each, addressed, Batch, whole, broken, publish_each-Batch,
}
use real_estate_robot.Discovery.{
  Task, Config, Json, Web, build_search_page_url, fetch_listing_urls, page_of, paginate, spread,
  walk, handle,
}

module _ (web : Web) (env : Env) (cfg : Config) (json : Json) where
  -- The message for the page behind the last one that was walked, if it is to be walked.
  abbrev pub next_letters : String → ℤ → List String → List (String × Bytes)
  next_letters search_url page [] = []
  next_letters search_url page (u ∷ urls) =
      if ltb_ℤ page cfg.max_page
      then (
        queue_listings_discover,
        json.encode_task (record { search_url = search_url; page = page +ℤ pos 1 }),
      )
        ∷ []
      else []

  abbrev pub fetch_letters : List String → List (String × Bytes)
  fetch_letters urls = addressed env queue_listings_fetch json.encode_fetch urls

  -- The page's URLs and the next page are published in this order, or the first few URLs are.
  pub data Spread (search_url : String) (page : ℤ) (urls : List String) (w : World)
      (after : Result (Unit {0}) × World) : Type 0 where
    complete :
        after.0 ≡ ok tt
        → letters after.1.confirmed
          ≡ letters w.confirmed ++ (fetch_letters urls ++ next_letters search_url page urls)
        → Spread search_url page urls w after
    partial :
        (e : Error) (sent left : List String)
        → urls ≡ sent ++ left
        → after.0 ≡ err e
        → letters after.1.confirmed ≡ letters w.confirmed ++ fetch_letters sent
        → Spread search_url page urls w after

  -- How paginating ends.
  data Paginated (search_url : String) (page : ℤ) (urls : List String) (w : World)
      (after : Result (Unit {0}) × World) : Type 0 where
    turned :
        after.0 ≡ ok tt
        → letters after.1.confirmed ≡ letters w.confirmed ++ next_letters search_url page urls
        → Paginated search_url page urls w after
    stuck :
        (e : Error)
        → after.0 ≡ err e
        → letters after.1.confirmed ≡ letters w.confirmed
        → Paginated search_url page urls w after

  abbrev next_body : String → ℤ → Bytes
  next_body search_url page =
      json.encode_task (record { search_url = search_url; page = page +ℤ pos 1 })

  publish-Paginated :
      (search_url : String) (page : ℤ) (u : String) (urls : List String) (w : World)
      {after : Result (Unit {0}) × World}
      → ltb_ℤ page cfg.max_page ≡ true
      → publish env queue_listings_discover (next_body search_url page) w ≡ after
      → Publishes (work_message env queue_listings_discover (next_body search_url page) w) w after
      → Paginated search_url page
          (u ∷ urls)
          w
          (paginate web env cfg json search_url page (u ∷ urls) w)
  publish-Paginated search_url page u urls w more p (delivered o s) =
      let v : World =
        tick (confirm (work_message env queue_listings_discover (next_body search_url page) w) w) in
      let same : paginate web env cfg json search_url page (u ∷ urls) w ≡ (ok tt, v) =
        (unfold paginate in ground arith) in
      let next : next_letters search_url page (u ∷ urls)
          ≡ (queue_listings_discover, next_body search_url page) ∷ [] =
        ground arith in
      rw same (
        turned refl
          (map-append letter w.confirmed _ ∙ ap (λ t. letters w.confirmed ++ t) (sym next)))
  publish-Paginated search_url page u urls w more p (dropped e o s) =
      stuck (wrap "publish next page" e) (unfold paginate in ground arith)
        (unfold paginate in ground arith)
  publish-Paginated search_url page u urls w more p (unsure e o s) =
      stuck (wrap "publish next page" e) (unfold paginate in ground arith)
        (unfold paginate in ground arith)

  paginate-Paginated :
      (search_url : String) (page : ℤ) (urls : List String) (w : World)
      → Paginated search_url page urls w (paginate web env cfg json search_url page urls w)
  paginate-Paginated search_url page [] w =
      turned (unfold paginate in refl) (unfold paginate in sym (append-nil _))
  paginate-Paginated search_url page (u ∷ urls) w = elim (Bool-cases (ltb_ℤ page cfg.max_page)) [
    | inl more ↦
        publish-Paginated search_url page u urls w more refl
          (publish-Publishes env queue_listings_discover (next_body search_url page) w)
    | inr done ↦
        turned (unfold paginate in ground arith)
          (unfold paginate in ground (arith, append-nil (letters w.confirmed)))
  ]

  spread_step :
      (search_url : String) (page : ℤ) (urls : List String) (w : World)
      {after : Result (Unit {0}) × World}
      → publish_each env queue_listings_fetch json.encode_fetch urls w ≡ after
      → Batch env queue_listings_fetch json.encode_fetch urls w after
      → Spread search_url page urls w (spread web env cfg json search_url page urls w)
  spread_step search_url page urls w p (broken e sent u left s o c d r) =
      partial e sent (u ∷ left) s (unfold spread in ground arith) (unfold spread in ground arith)
  spread_step search_url page urls w {after} p (whole o c d r) =
      let same : spread web env cfg json search_url page urls w
          ≡ paginate web env cfg json search_url page urls after.1 =
        (unfold spread in ground arith) in
      subst (Spread search_url page urls w) (sym same)
        (then_paginate (paginate-Paginated search_url page urls after.1))
    where
      then_paginate :
          {end : Result (Unit {0}) × World}
          → Paginated search_url page urls after.1 end
          → Spread search_url page urls w end
      then_paginate (turned o' c') = complete o' (
          c'
          ∙ ap (λ t. t ++ next_letters search_url page urls) c
          ∙ append_assoc (letters w.confirmed) (fetch_letters urls) _)
      then_paginate (stuck e o' c') = partial e urls [] (sym (append-nil urls)) o' (c' ∙ c)

  spread-Spread :
      (search_url : String) (page : ℤ) (urls : List String) (w : World)
      → Spread search_url page urls w (spread web env cfg json search_url page urls w)
  spread-Spread search_url page urls w =
      spread_step search_url page urls w refl
        (publish_each-Batch env queue_listings_fetch json.encode_fetch urls w)

  -- How a walk ends: before the page's links are known, or with them.
  pub data Walked (search_url : String) (page : ℤ) (w : World) (after : Result (Unit {0}) × World)
      : Type 0 where
    unread :
        (e : Error)
        → after.0 ≡ err e
        → after.1.sent ≡ w.sent
        → after.1.confirmed ≡ w.confirmed
        → Walked search_url page w after
    read :
        (page_url : String) (urls : List String) (v : World)
        → build_search_page_url web search_url page ≡ ok page_url
        → (fetch_listing_urls web env cfg json page_url (tick w)).0 ≡ ok urls
        → letters v.confirmed ≡ letters w.confirmed
        → Spread search_url page urls v after
        → Walked search_url page w after

  fetch_listing_urls-sent :
      (url : String) (w : World) → (fetch_listing_urls web env cfg json url w).1.sent ≡ w.sent
  fetch_listing_urls-sent url w = unfold fetch_listing_urls in ground arith

  fetch_listing_urls-confirmed :
      (url : String) (w : World)
      → (fetch_listing_urls web env cfg json url w).1.confirmed ≡ w.confirmed
  fetch_listing_urls-confirmed url w = unfold fetch_listing_urls in ground arith

  walk-Walked :
      (search_url : String) (page : ℤ) (w : World)
      → Walked search_url page w (walk web env cfg json search_url page w)
  walk-Walked search_url page w = elim (Result-cases (build_search_page_url web search_url page)) [
    | inr (e, h) ↦
        unread (wrap "build page url" e) (unfold walk in ground arith) (unfold walk in ground arith)
          (unfold walk in ground arith)
    | inl (page_url, h) ↦ elim (Option-cases (env.limiter w.ticks)) [
      | inr (e, l) ↦
          unread (wrap "rate limit wait" e) (unfold walk in ground arith)
            (unfold walk in ground arith) (unfold walk in ground arith)
      | inl l ↦ elim (Result-cases (fetch_listing_urls web env cfg json page_url (tick w)).0) [
        | inr (e, f) ↦
            unread (wrap_of "fetch search page" page_url e) (unfold walk in ground arith)
              (unfold walk in ground (arith, fetch_listing_urls-sent page_url (tick w)))
              (unfold walk in ground (arith, fetch_listing_urls-confirmed page_url (tick w)))
        | inl (urls, f) ↦
            let v : World = (fetch_listing_urls web env cfg json page_url (tick w)).1 in
            let same : walk web env cfg json search_url page w
                ≡ spread web env cfg json search_url page urls v =
              (unfold walk in ground arith) in
            rw same (
              read page_url urls v h f (ap letters (fetch_listing_urls-confirmed page_url (tick w)))
                (spread-Spread search_url page urls v))
      ]
    ]
  ]

  -- How a run of the handler ends: a task that is no task, a page behind the cap, or a walk.
  pub data Explored (body : Bytes) (w : World) (after : Result (Unit {0}) × World) : Type 0 where
    rejected : (e : Error) → after ≡ (err e, w) → Explored body w after
    capped :
        (task : Task)
        → json.decode_task body ≡ ok task
        → ltb_ℤ cfg.max_page (page_of web env cfg json task) ≡ true
        → after ≡ (ok tt, w)
        → Explored body w after
    walked :
        (task : Task)
        → json.decode_task body ≡ ok task
        → task.search_url ≢ ""
        → ltb_ℤ cfg.max_page (page_of web env cfg json task) ≡ false
        → Walked task.search_url (page_of web env cfg json task) w after
        → Explored body w after

  -- Whatever the environment answers, a run of the handler ends in one of the ways of Explored: in
  -- particular a run without an error has confirmed every URL of the page, in order, and then the
  -- next page where there was a URL and the cap is not reached.
  pub handle-Explored :
      (body : Bytes) (w : World) → Explored body w (handle web env cfg json body w)
  handle-Explored body w = elim (Result-cases (json.decode_task body)) [
    | inr (e, h) ↦ rejected (wrap "decode task" e) (unfold handle in ground arith)
    | inl (task, h) ↦ elim (Bool-cases (str_eq task.search_url "")) [
      | inl empty ↦ rejected (message "task has empty search_url") (unfold handle in ground arith)
      | inr named ↦ elim (Bool-cases (ltb_ℤ cfg.max_page (page_of web env cfg json task))) [
        | inl over ↦ capped task h over (unfold handle in ground arith)
        | inr below ↦
            let same : handle web env cfg json body w
                ≡ walk web env cfg json task.search_url (page_of web env cfg json task) w =
              (unfold handle in ground arith) in
            rw same (
              walked task h (λ e. ground (arith, eq_iff task.search_url "")) below
                (walk-Walked task.search_url (page_of web env cfg json task) w))
      ]
    ]
  ]
