-- ===== src/Pipeline/Enriching.antt =====
-- A run of the enricher in the system: it asks for listings only, and stamps a row in place.
use real_estate_robot.Base.{
  ℕ, ◌≡◌, refl, sym, subst, inl, inr, String, str_eq, Option, none, some, true, List, [], ◌∷◌, ◌++◌,
  ◌||◌, leb, ◌==◌, arith, All, All-append, All-mono, Bool-cases, Option-cases, map,
}
use real_estate_robot.Base.Values.{Bytes, Result, ok, err, wrap, wrap_of, is_no_rows}
use real_estate_robot.Storage.Rows.{Db, Seller}
use real_estate_robot.Storage.Sellers.{mark_seller_enriched}
use real_estate_robot.Runtime.Env.{
  Env, World, Message, Response, max_bytes, wrapping, lift, Result-cases,
}
use real_estate_robot.Runtime.Actions.{wait_limiter}
use real_estate_robot.Runtime.Rules.{
  bind_rule, if_rule, query_rule, statement_rule, wait_limiter_rule, rewrap_ok,
}
use real_estate_robot.Queue.Names.{queue_listings_fetch}
use real_estate_robot.Queue.Publisher.Batch.{publish_each}
use real_estate_robot.Discovery.{is_listing_url}
use real_estate_robot.Enrich.{
  Config, is_listing_url as is_link, is_new, collect, extract, on_response, get_request,
  fetch_profile, address, find_seller, is_fresh, mark, spread, visit, enrich, look_up, handle,
}
use real_estate_robot.Pipeline.{
  Wire, IsWork, search, fetch, parse, enrich as seller_wanted, given_up, IsSound,
}
use real_estate_robot.Pipeline.Tables.{IsOwned, IsNumbered, seller_ids}
use real_estate_robot.Pipeline.Sellers.{
  HasSeller-map, IsKeyed-map, seller_ids-map, marked, mark_seller_enriched-map,
}
use real_estate_robot.Pipeline.Sending.{AreWork, publish_each-IsSound}

module _ (wire : Wire) where
  -- A change of the sellers in place that keeps their keys and numbers.
  module _ (change : Seller → Seller)
      (key_kept : (s : Seller) → (change s).olx_user_id ≡ s.olx_user_id)
      (id_kept : (s : Seller) → (change s).id ≡ s.id) where
    abbrev changed : World → World
    changed w = record w { db = record w.db { sellers = map change w.db.sellers } }

    IsWork-changed : (w : World) (m : Message) → IsWork wire w.db m → IsWork wire (changed w).db m
    IsWork-changed w m (search url page n q b) = search url page n q b
    IsWork-changed w m (fetch url l q b) = fetch url l q b
    IsWork-changed w m (parse r html n f h q b) = parse r html n f h q b
    IsWork-changed w m (seller_wanted key n f q b) =
        seller_wanted key n (HasSeller-map change key_kept id_kept key w.db.sellers f) q b
    IsWork-changed w m (given_up d) = given_up d

    pub change-IsSound : (w : World) → IsSound wire w → IsSound wire (changed w)
    change-IsSound w s =
        let ids : seller_ids w.db.sellers ≡ seller_ids (map change w.db.sellers) =
          sym (seller_ids-map change key_kept id_kept w.db.sellers) in
        record {
          keyed = IsKeyed-map change key_kept id_kept w.db.sellers s.keyed;
          sellers_numbered = subst (IsNumbered w.serials.seller) ids s.sellers_numbered;
          listings_numbered = s.listings_numbered;
          owned = subst (λ ns. All (IsOwned ns) w.db.listings) ids s.owned;
          captured = s.captured;
          unique = s.unique;
          fetches_numbered = s.fetches_numbered;
          workable = All-mono (IsWork wire w.db) _ w.sent (IsWork-changed w) s.workable;
        }

abbrev AreLinks : List String → Type 0
AreLinks urls = All (λ u. is_link u ≡ true) urls

collect-AreLinks :
    (hrefs : List (Option String)) (seen urls : List String)
    → AreLinks urls
    → AreLinks (collect hrefs seen urls)
unfolding collect
collect-AreLinks [] seen urls h = h
collect-AreLinks (none ∷ hrefs) seen urls h = collect-AreLinks hrefs seen urls h
collect-AreLinks (some href ∷ hrefs) seen urls h = elim (Bool-cases (is_new href seen)) [
  | inl new ↦ rw new (
      collect-AreLinks hrefs (href ∷ seen) (urls ++ href ∷ [])
        (All-append (λ u. is_link u ≡ true) urls (href ∷ []) h (ground arith, tt)))
  | inr old ↦ rw old (collect-AreLinks hrefs seen urls h)
]

module _ (wire : Wire) (env : Env) (cfg : Config) where
  extract-AreLinks :
      (resp : Response) (urls : List String)
      → extract env cfg wire.enrich resp ≡ ok urls
      → AreLinks urls
  unfolding extract
  extract-AreLinks resp urls h = elim (Bool-cases (leb 500 resp.status || resp.status == 429)) [
    | inl busy ↦ absurd (ground arith)
    | inr calm ↦ elim (Bool-cases (leb 400 resp.status)) [
      | inl gone ↦ let e : [] ≡ urls = ground arith in subst AreLinks e tt
      | inr there ↦ elim (Result-cases (wire.enrich.links max_bytes resp.body)) [
        | inr (e, l) ↦ absurd (ground arith)
        | inl (hrefs, l) ↦
            let e : collect hrefs [] [] ≡ urls = ground arith in
            subst AreLinks e (collect-AreLinks hrefs [] [] tt)
      ]
    ]
  ]

  on_response-AreLinks :
      (r : Result Response) (urls : List String)
      → on_response env cfg wire.enrich r ≡ ok urls
      → AreLinks urls
  on_response-AreLinks (ok resp) urls h = extract-AreLinks resp urls h
  on_response-AreLinks (err e) urls h = cc

  fetch_profile-AreLinks :
      (url : String) (w : World) (urls : List String)
      → (fetch_profile env cfg wire.enrich url w).0 ≡ ok urls
      → AreLinks urls
  unfolding fetch_profile
  fetch_profile-AreLinks url w urls h = elim (Option-cases (env.bad_url url)) [
    | inr (e, b) ↦ absurd (ground arith)
    | inl b ↦
        on_response-AreLinks (env.http w.ticks (get_request cfg.user_agent url)) urls (ground arith)
  ]

  fetch_profile-IsSound :
      (url : String) (w : World)
      → IsSound wire w
      → IsSound wire (fetch_profile env cfg wire.enrich url w).1
  unfolding fetch_profile
  fetch_profile-IsSound url w s = elim (Option-cases (env.bad_url url)) [
    | inr (e, b) ↦ rw (b, fetch_profile) s
    | inl b ↦ rw (b, fetch_profile) s
  ]

  -- The two workers test a link alike.
  AreLinks-AreWork :
      (db : Db) (urls : List String)
      → AreLinks urls
      → AreWork wire env db queue_listings_fetch wire.enrich.encode_fetch urls
  unfolding is_link is_listing_url
  AreLinks-AreWork db urls h =
      All-mono (λ u. is_link u ≡ true) _ urls (λ u l v. fetch u l refl (inr (inl refl))) h

  mark-IsSound :
      (id : ℕ) (w : World) → IsSound wire w → IsSound wire (mark env cfg wire.enrich id w).1
  unfolding mark
  mark-IsSound id w s =
      statement_rule (IsSound wire) env
        (λ now v. (
          tt,
          record v { db = record v.db { sellers = mark_seller_enriched now id v.db.sellers } },
        ))
        w s
        λ now.
          rw (mark_seller_enriched-map now id w.db.sellers)
            (change-IsSound wire (marked now id) (λ r. ground arith) (λ r. ground arith) w s)

  spread-IsSound :
      (id : ℕ) (urls : List String) (w : World)
      → AreLinks urls
      → IsSound wire w
      → IsSound wire (spread env cfg wire.enrich id urls w).1
  unfolding spread
  spread-IsSound id urls w l s =
      let sent =
        publish_each-IsSound wire env queue_listings_fetch wire.enrich.encode_fetch w.db urls w refl
          (AreLinks-AreWork w.db urls l) s in
      bind_rule (IsSound wire) (publish_each env queue_listings_fetch wire.enrich.encode_fetch urls)
        (λ _. wrapping (wrap "mark enriched") (mark env cfg wire.enrich id)) w sent
        (λ _ o. mark-IsSound id _ sent)

  visit-IsSound :
      (id : ℕ) (page : Option String) (w : World)
      → IsSound wire w
      → IsSound wire (visit env cfg wire.enrich id page w).1
  unfolding visit
  visit-IsSound id none w s = mark-IsSound id w s
  visit-IsSound id (some url) w s =
      bind_rule (IsSound wire) (wait_limiter env) _ w (wait_limiter_rule (IsSound wire) env w s)
        λ _ o.
          let here = fetch_profile-IsSound url _ (wait_limiter_rule (IsSound wire) env w s) in
          bind_rule (IsSound wire)
            (wrapping (wrap_of "fetch profile" url) (fetch_profile env cfg wire.enrich url)) _ _
            here
            λ urls f.
              spread-IsSound id urls _ (fetch_profile-AreLinks url _ urls (rewrap_ok _ _ urls f))
                here

  enrich-IsSound :
      (r : Result Seller) (w : World)
      → IsSound wire w
      → IsSound wire (enrich env cfg wire.enrich r w).1
  unfolding enrich
  enrich-IsSound (err e) w s = elim (Bool-cases (is_no_rows e)) [ inl h ↦ rw h s | inr h ↦ rw h s ]
  enrich-IsSound (ok r) w s =
      elim (Bool-cases (is_fresh env cfg wire.enrich r.last_enriched_at (env.clock w.ticks))) [
        | inl h ↦ rw h s
        | inr h ↦ rw h (visit-IsSound r.id (address r.profile_url) w s)
      ]

  look_up-IsSound :
      (olx_user_id : String) (w : World)
      → IsSound wire w
      → IsSound wire (look_up env cfg wire.enrich olx_user_id w).1
  unfolding look_up
  look_up-IsSound olx_user_id w s =
      enrich-IsSound _ _
        (query_rule (IsSound wire) env (find_seller env cfg wire.enrich olx_user_id) w s)

  -- Whatever body it is given, the enricher keeps what the parts keep together.
  pub handle-IsSound :
      (body : Bytes) (w : World)
      → IsSound wire w
      → IsSound wire (handle env cfg wire.enrich body w).1
  unfolding handle
  handle-IsSound body w s =
      bind_rule (IsSound wire) (wrapping (wrap "decode task") (lift (wire.enrich.decode_task body)))
        _ w s
        λ task o.
          if_rule (IsSound wire) (str_eq task.olx_user_id "") _ _ w (λ empty. s)
            (λ named. look_up-IsSound task.olx_user_id w s)
