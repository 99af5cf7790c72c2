-- ===== src/Pipeline/Fetching.antt =====
-- A run of the fetcher in the system: the row of a page comes before the message that names it.
use real_estate_robot.Base.{
  ℕ, suc, ◌≤◌, ◌≡◌, refl, sym, subst, inl, inr, String, str_eq, none, some, [], ◌∷◌, ◌++◌, arith,
  All-append, All-mono, Bool-cases, Option-cases, ◌||◌, leb, ◌==◌,
}
use real_estate_robot.Base.Values.{Bytes, Result, ok, err, wrap}
use real_estate_robot.Storage.Rows.{ListingHtmlFetch}
use real_estate_robot.Storage.Fetches.{InsertFetchParams, fetch_row, insert_fetch}
use real_estate_robot.Runtime.Env.{Env, World, Message, M, tick, pure, wrapping, lift}
use real_estate_robot.Runtime.Actions.{query, statement_ok}
use real_estate_robot.Base.Int.{pos, ltb_ℤ}
use real_estate_robot.Runtime.Rules.{query_rule, bind_rule, if_rule, statement_rule, rewrap_ok}
use real_estate_robot.Fetcher.Gate.{download-limited, download-fetches}
use real_estate_robot.Fetcher.Requests.{fetch-db, fetch-serials, fetch-sent}
use real_estate_robot.Queue.Names.{queue_listings_parse}
use real_estate_robot.Queue.Publisher.{publish, work_message}
use real_estate_robot.Fetcher.{
  Config, Fetched, fetch, row_params, insert, store, judge, latest, skips, download, handle,
}
use real_estate_robot.Pipeline.{
  Wire, IsWork, search, fetch as page_wanted, parse, enrich, given_up, IsSound,
}
use real_estate_robot.Pipeline.Tables.{get_fetch-append, get_fetch-last}
use real_estate_robot.Pipeline.Sending.{publish-IsSound}

-- the world once a row is written
abbrev pub written : ℕ → InsertFetchParams → World → World
written now p w = record w {
  db = record w.db { fetches = insert_fetch now (suc w.serials.fetch) p w.db.fetches };
  serials = record w.serials { fetch = suc w.serials.fetch };
}

-- the statement's effect, with the number that it returns
abbrev inserting : InsertFetchParams → ℕ → World → ℕ × World
inserting p now w = (suc w.serials.fetch, written now p w)

module _ (wire : Wire) where
  -- Work stays work when a page is added.
  IsWork-fetched :
      (w : World) (row : ListingHtmlFetch) (m : Message)
      → IsWork wire w.db m
      → IsWork wire (record w.db { fetches = w.db.fetches ++ row ∷ [] }) m
  IsWork-fetched w row m (search url page n q b) = search url page n q b
  IsWork-fetched w row m (page_wanted url l q b) = page_wanted url l q b
  IsWork-fetched w row m (parse r html n f h q b) =
      parse r html n (get_fetch-append r.id r row w.db.fetches f) h q b
  IsWork-fetched w row m (enrich key n f q b) = enrich key n f q b
  IsWork-fetched w row m (given_up d) = given_up d

  insert-IsSound :
      (now : ℕ) (p : InsertFetchParams) (w : World)
      → IsSound wire w
      → IsSound wire (written now p w)
  unfolding insert_fetch
  insert-IsSound now p w s = record {
    keyed = s.keyed;
    sellers_numbered = s.sellers_numbered;
    listings_numbered = s.listings_numbered;
    owned = s.owned;
    captured = s.captured;
    unique = s.unique;
    fetches_numbered =
        All-append (λ r. r.id ≤ suc w.serials.fetch) w.db.fetches _
          (All-mono (λ r. r.id ≤ w.serials.fetch) (λ r. r.id ≤ suc w.serials.fetch) w.db.fetches
            (λ r h. omega arith) s.fetches_numbered)
          (omega arith, tt);
    workable =
        All-mono (IsWork wire w.db) _ w.sent
          (IsWork-fetched w (fetch_row now (suc w.serials.fetch) p)) s.workable;
  }

  -- The message that follows the row of a page is work.
  page-IsWork :
      (env : Env) (now : ℕ) (p : InsertFetchParams) (html : Bytes) (w v : World)
      → p.html ≡ some html
      → IsSound wire w
      → IsWork wire (written now p w).db (
          work_message env queue_listings_parse
            (wire.fetcher.encode_next (record { fetch_id = suc w.serials.fetch; url = p.url }))
            v)
  unfolding insert_fetch
  page-IsWork env now p html w v h s =
      let row : ListingHtmlFetch = fetch_row now (suc w.serials.fetch) p in
      parse row html (λ e. omega arith)
        (get_fetch-last w.serials.fetch row w.db.fetches s.fetches_numbered refl) h refl refl

  module _ (env : Env) (cfg : Config) where
    insert_step :
        (p : InsertFetchParams) (w : World)
        → IsSound wire w
        → IsSound wire (insert env cfg wire.fetcher p w).1
    unfolding insert
    insert_step p w s =
        statement_rule (IsSound wire) env (inserting p) w s (λ now. insert-IsSound now p w s)

    -- What a successful insert leaves: the row's number is the one that was drawn.
    insert-written :
        (p : InsertFetchParams) (w : World) (id : ℕ)
        → (insert env cfg wire.fetcher p w).0 ≡ ok id
        → (id ≡ suc w.serials.fetch)
          × ((insert env cfg wire.fetcher p w).1 ≡ tick (written (env.db_clock w.ticks) p w))
    unfolding insert
    insert-written p w id h = statement_ok env (inserting p) w id h

    publish_next-IsSound :
        (url : String) (html : Bytes) (p : InsertFetchParams) (w : World) (id : ℕ)
        → p.html ≡ some html
        → p.url ≡ url
        → (insert env cfg wire.fetcher p w).0 ≡ ok id
        → IsSound wire w
        → IsSound wire
            (publish env queue_listings_parse
              (wire.fetcher.encode_next (record { fetch_id = id; url = url }))
              (insert env cfg wire.fetcher p w).1).1
    publish_next-IsSound url html p w id h u o s =
        let (drawn, there) = insert-written p w id o in
        let v : World = tick (written (env.db_clock w.ticks) p w) in
        subst
          (λ x.
            IsSound wire
              (publish env queue_listings_parse
                (wire.fetcher.encode_next (record { fetch_id = id; url = url })) x).1)
          (sym there)
          (publish-IsSound wire env queue_listings_parse _ v
            (rw (drawn, ← u) (page-IsWork env (env.db_clock w.ticks) p html w v h s))
            (insert-IsSound (env.db_clock w.ticks) p w s))

    abbrev insert_as : String → InsertFetchParams → M ℕ
    insert_as context p = wrapping (wrap context) (insert env cfg wire.fetcher p)

    abbrev pass_on : String → ℕ → M (Unit {0})
    pass_on url id = wrapping (wrap "publish parse task") (
        publish env queue_listings_parse
          (wire.fetcher.encode_next (record { fetch_id = id; url = url })))

    pub store-IsSound :
        (url : String) (f : Fetched) (w : World)
        → IsSound wire w
        → IsSound wire (store env cfg wire.fetcher url f w).1
    unfolding store
    store-IsSound url f w s =
        let missing : InsertFetchParams = row_params env cfg wire.fetcher url f none in
        let found : InsertFetchParams = row_params env cfg wire.fetcher url f (some f.body) in
        elim (Option-cases f.error) [
          | inr (e, h) ↦ rw h s
          | inl h ↦ rw h (
              if_rule (IsSound wire) (leb 500 f.status || f.status == 429) _ _ w (λ b. s)
                (λ b.
                  if_rule (IsSound wire) (leb 400 f.status) _ _ w
                    (λ c.
                      bind_rule (IsSound wire) (insert_as "insert fetch row (4xx)" missing)
                        (λ _. pure tt) w (insert_step missing w s)
                        (λ id o. insert_step missing w s))
                    (λ c.
                      bind_rule (IsSound wire) (insert_as "insert fetch row" found) (pass_on url) w
                        (insert_step found w s)
                        (λ id o.
                          publish_next-IsSound url f.body found w id refl refl
                            (rewrap_ok (wrap "insert fetch row") _ id o) s))))
        ]

    judge-world : (r : Result ListingHtmlFetch) (w : World) → (judge env cfg wire.fetcher r w).1 ≡ w
    unfolding judge
    judge-world (ok r) w = refl
    judge-world (err e) w = ground arith

    skips-IsSound :
        (url : String) (w : World)
        → IsSound wire w
        → IsSound wire (skips env cfg wire.fetcher url w).1
    unfolding skips
    skips-IsSound url w s = elim (Bool-cases (ltb_ℤ (pos 0) cfg.min_refetch_interval)) [
      | inr off ↦ rw off s
      | inl on ↦
          rw (on, judge-world (query env (latest env cfg wire.fetcher url) w).0 _)
            (query_rule (IsSound wire) env (latest env cfg wire.fetcher url) w s)
    ]

    fetch-IsSound :
        (url : String) (w : World)
        → IsSound wire w
        → IsSound wire (fetch env cfg wire.fetcher url w).1
    fetch-IsSound url w s =
        rw
          (
            fetch-db env cfg wire.fetcher url w,
            fetch-serials env cfg wire.fetcher url w,
            fetch-sent env cfg wire.fetcher url w,
          )
          s

    download-IsSound :
        (url : String) (w : World)
        → IsSound wire w
        → IsSound wire (download env cfg wire.fetcher url w).1
    download-IsSound url w s = elim (Option-cases (env.limiter w.ticks)) [
      | inr (e, h) ↦ rw (download-limited env cfg wire.fetcher url w e h) s
      | inl h ↦
          rw (download-fetches env cfg wire.fetcher url w h)
            (store-IsSound url _ _ (fetch-IsSound url (tick w) s))
    ]

    -- Whatever body it is given, the fetcher keeps what the parts keep together.
    pub handle-IsSound :
        (body : Bytes) (w : World)
        → IsSound wire w
        → IsSound wire (handle env cfg wire.fetcher body w).1
    unfolding handle
    handle-IsSound body w s =
        bind_rule (IsSound wire)
          (wrapping (wrap "decode task") (lift (wire.fetcher.decode_task body))) _ w s
          λ task e.
            if_rule (IsSound wire) (str_eq task.url "") _ _ w (λ empty. s)
              λ named.
                bind_rule (IsSound wire) (skips env cfg wire.fetcher task.url) _ w
                  (skips-IsSound task.url w s)
                  λ skip o.
                    if_rule (IsSound wire) skip _ _ _ (λ done. skips-IsSound task.url w s)
                      λ missing. download-IsSound task.url _ (skips-IsSound task.url w s)
