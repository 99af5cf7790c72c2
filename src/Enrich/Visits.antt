-- ===== src/Enrich/Visits.antt =====
-- What a visit to a seller does to the sellers and to the fetcher's queue.
use real_estate_robot.Base.{
  ℕ, String, ◌≡◌, refl, sym, ◌∙◌, ap, ◌⊎◌, inl, inr, Option, none, some, List, [], ◌∷◌, ◌++◌,
  append-nil, arith, Option-cases,
}
use real_estate_robot.Base.Values.{Bytes, Time, Error, Result, ok, err, wrap, wrap_of}
use real_estate_robot.Storage.Sellers.{mark_seller_enriched}
use real_estate_robot.Runtime.Env.{Env, World, tick, rewrap, DbReply-cases, Result-cases}
use real_estate_robot.Queue.Names.{queue_listings_fetch}
use real_estate_robot.Queue.Publisher.Batch.{
  letters, publish_each, addressed, Batch, whole, broken, publish_each-Batch,
}
use real_estate_robot.Enrich.{Config, Json, fetch_profile, mark, spread, visit}

module _ (env : Env) (cfg : Config) (json : Json) where
  abbrev pub fetch_letters : List String → List (String × Bytes)
  fetch_letters urls = addressed env queue_listings_fetch json.encode_fetch urls

  -- The URLs of a visit: none for a seller without a page, and else all that its profile lists.
  abbrev pub Listed : Option String → World → List String → Type 0
  Listed page w urls =
      ((page ≡ none) × (urls ≡ []))
      ⊎ ((url : String) × (page ≡ some url)
          × ((fetch_profile env cfg json url (tick w)).0 ≡ ok urls))

  -- What a visit to a seller does. `stamped` is a success; the other two report an error, and in
  -- `unanswered` it is only the answer to the last statement that is missing. Both come behind the
  -- publication of all the URLs; without a stamp some first ones of them are published.
  pub data Visited (id : ℕ) (page : Option String) (w : World) (after : Result (Unit {0}) × World)
      : Type 0 where
    stamped :
        (now : Time) (urls : List String)
        → after.0 ≡ ok tt
        → after.1.db.sellers ≡ mark_seller_enriched now id w.db.sellers
        → letters after.1.confirmed ≡ letters w.confirmed ++ fetch_letters urls
        → Listed page w urls
        → Visited id page w after
    unanswered :
        (e : Error) (now : Time) (urls : List String)
        → after.0 ≡ err e
        → after.1.db.sellers ≡ mark_seller_enriched now id w.db.sellers
        → letters after.1.confirmed ≡ letters w.confirmed ++ fetch_letters urls
        → Listed page w urls
        → Visited id page w after
    unstamped :
        (e : Error) (urls : List String)
        → after.0 ≡ err e
        → after.1.db ≡ w.db
        → letters after.1.confirmed ≡ letters w.confirmed ++ fetch_letters urls
        → (urls ≡ []) ⊎ ((left : List String) × Listed page w (urls ++ left))
        → Visited id page w after

  -- How the stamp alone ends.
  data Marked (id : ℕ) (w : World) (after : Result (Unit {0}) × World) : Type 0 where
    marked :
        (now : Time)
        → after.0 ≡ ok tt
        → after.1.db.sellers ≡ mark_seller_enriched now id w.db.sellers
        → after.1.confirmed ≡ w.confirmed
        → Marked id w after
    unsure :
        (e : Error) (now : Time)
        → after.0 ≡ err e
        → after.1.db.sellers ≡ mark_seller_enriched now id w.db.sellers
        → after.1.confirmed ≡ w.confirmed
        → Marked id w after
    unmarked :
        (e : Error)
        → after.0 ≡ err e
        → after.1.db ≡ w.db
        → after.1.confirmed ≡ w.confirmed
        → Marked id w after

  mark-Marked : (id : ℕ) (w : World) → Marked id w (mark env cfg json id w)
  mark-Marked id w = elim (DbReply-cases (env.database w.ticks)) [
    | inl d ↦
        marked (env.db_clock w.ticks) (unfold mark in ground arith) (unfold mark in ground arith)
          (unfold mark in ground arith)
    | inr (inl (e, d)) ↦
        unmarked e (unfold mark in ground arith) (unfold mark in ground arith)
          (unfold mark in ground arith)
    | inr (inr (e, d)) ↦
        unsure e (env.db_clock w.ticks) (unfold mark in ground arith) (unfold mark in ground arith)
          (unfold mark in ground arith)
  ]

  -- From the world `w` to the world `v`, the URLs of a page were confirmed, and nothing else.
  module _ (id : ℕ) (url : String) (urls : List String) (w v : World)
      (fetched : (fetch_profile env cfg json url (tick w)).0 ≡ ok urls) (same_db : v.db ≡ w.db)
      (sent : letters v.confirmed ≡ letters w.confirmed ++ fetch_letters urls) where
    Marked-Visited :
        {after : Result (Unit {0}) × World}
        → Marked id v after
        → Visited id (some url) w (rewrap (wrap "mark enriched") after.0, after.1)
    Marked-Visited (marked now o s c) =
        stamped now urls (ground arith)
          (s ∙ ap (λ d. mark_seller_enriched now id d.sellers) same_db) (ap letters c ∙ sent)
          (inr (url, refl, fetched))
    Marked-Visited (unsure e now o s c) =
        unanswered (wrap "mark enriched" e) now urls (ground arith)
          (s ∙ ap (λ d. mark_seller_enriched now id d.sellers) same_db) (ap letters c ∙ sent)
          (inr (url, refl, fetched))
    Marked-Visited (unmarked e o s c) =
        unstamped (wrap "mark enriched" e) urls (ground arith) (s ∙ same_db) (ap letters c ∙ sent)
          (inr ([], inr (url, refl, fetched ∙ ap ok (sym (append-nil urls)))))

  spread_step :
      (id : ℕ) (url : String) (urls : List String) (w u : World) {after : Result (Unit {0}) × World}
      → (fetch_profile env cfg json url (tick w)).0 ≡ ok urls
      → u.db ≡ w.db
      → u.confirmed ≡ w.confirmed
      → publish_each env queue_listings_fetch json.encode_fetch urls u ≡ after
      → Batch env queue_listings_fetch json.encode_fetch urls u after
      → Visited id (some url) w (spread env cfg json id urls u)
  spread_step id url urls w u f d k p (broken e sent x left s o c d' r) =
      unstamped e sent (unfold spread in ground arith) (unfold spread in ground arith)
        (unfold spread in ground arith) (inr (x ∷ left, inr (url, refl, f ∙ ap ok s)))
  spread_step id url urls w u {after} f d k p (whole o c d' r) =
      let same : spread env cfg json id urls u ≡ (
        rewrap (wrap "mark enriched") (mark env cfg json id after.1).0,
        (mark env cfg json id after.1).1,
      ) =
        (unfold spread in ground arith) in
      rw same (
        Marked-Visited id url urls w after.1 f (d' ∙ d)
          (c ∙ ap (λ t. letters t ++ fetch_letters urls) k) (mark-Marked id after.1))

  fetch_profile-db : (url : String) (w : World) → (fetch_profile env cfg json url w).1.db ≡ w.db
  fetch_profile-db url w = unfold fetch_profile in ground arith

  fetch_profile-confirmed :
      (url : String) (w : World) → (fetch_profile env cfg json url w).1.confirmed ≡ w.confirmed
  fetch_profile-confirmed url w = unfold fetch_profile in ground arith

  Marked-alone :
      (id : ℕ) (w : World) {after : Result (Unit {0}) × World}
      → Marked id w after
      → Visited id none w after
  Marked-alone id w (marked now o s c) =
      stamped now [] o s (ap letters c ∙ sym (append-nil _)) (inl (refl, refl))
  Marked-alone id w (unsure e now o s c) =
      unanswered e now [] o s (ap letters c ∙ sym (append-nil _)) (inl (refl, refl))
  Marked-alone id w (unmarked e o s c) =
      unstamped e [] o s (ap letters c ∙ sym (append-nil _)) (inl refl)

  pub visit-Visited :
      (id : ℕ) (page : Option String) (w : World) → Visited id page w (visit env cfg json id page w)
  visit-Visited id none w =
      let same : visit env cfg json id none w ≡ mark env cfg json id w = (unfold visit in refl) in
      rw same (Marked-alone id w (mark-Marked id w))
  visit-Visited id (some url) w = elim (Option-cases (env.limiter w.ticks)) [
    | inr (e, l) ↦
        unstamped (wrap "rate limit wait" e) [] (unfold visit in ground arith)
          (unfold visit in ground arith)
          (unfold visit in ground (arith, append-nil (letters w.confirmed))) (inl refl)
    | inl l ↦ elim (Result-cases (fetch_profile env cfg json url (tick w)).0) [
      | inr (e, f) ↦
          unstamped (wrap_of "fetch profile" url e) [] (unfold visit in ground arith)
            (unfold visit in ground (arith, fetch_profile-db url (tick w)))
            (unfold visit in
              ground
                (arith, append-nil (letters w.confirmed), fetch_profile-confirmed url (tick w)))
            (inl refl)
      | inl (urls, f) ↦
          let u : World = (fetch_profile env cfg json url (tick w)).1 in
          let same : visit env cfg json id (some url) w ≡ spread env cfg json id urls u =
            (unfold visit in ground arith) in
          rw same (
            spread_step id url urls w u f (fetch_profile-db url (tick w))
              (fetch_profile-confirmed url (tick w)) refl
              (publish_each-Batch env queue_listings_fetch json.encode_fetch urls u))
    ]
  ]
