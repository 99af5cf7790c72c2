-- ===== src/Fetcher/Gate.antt =====
-- The fetcher's handler as a whole: its checks, its dedup gate, and the download behind them.
use real_estate_robot.Base.{
  suc, ℕ, String, str_eq, ◌≡◌, ◌≢◌, refl, inl, inr, Bool, true, false, none, some, arith, ◌∙◌, ◌⊎◌,
  subst, sym, Bool-cases, Option-cases, eq_iff,
}
use real_estate_robot.Base.Int.{pos, ltb_ℤ}
use real_estate_robot.Base.Values.{
  Bytes, Error, Result, ok, err, wrap, message, is_no_rows, no_rows,
}
use real_estate_robot.Storage.Rows.{ListingHtmlFetch}
use real_estate_robot.Storage.Fetches.{get_latest_fetch_by_url}
use real_estate_robot.Runtime.Env.{Env, World, done, tick, DbReply-cases, Result-cases}
use real_estate_robot.Runtime.Actions.{query}
use real_estate_robot.Fetcher.{
  Config, Json, Task, Fetched, recently_fetched, fetch, store, latest, judge, skips, download,
  handle,
}
use real_estate_robot.Fetcher.Requests.{
  Met, fetch-db, fetch-serials, fetch-sent, fetch-confirmed, fetch-Met, store-requested,
}
use real_estate_robot.Fetcher.Outcomes.{Stored, store-Stored}

module _ (env : Env) (cfg : Config) (json : Json) where
  -- Why a run ends early with an error.
  pub data Refused (body : Bytes) (w : World) : Type 0 where
    undecodable : (e : Error) → json.decode_task body ≡ err e → Refused body w
    unnamed : (task : Task) → json.decode_task body ≡ ok task → task.url ≡ "" → Refused body w
    no_lookup : env.database w.ticks ≢ done → Refused body w
    unlimited : (n : ℕ) → env.limiter n ≢ none → Refused body w

  -- How a run ends. Only the last way makes an HTTP request, writes a row or sends a message.
  pub data Handled (body : Bytes) (w : World) (after : Result (Unit {0}) × World) : Type 0 where
    refused_early :
        (e : Error)
        → Refused body w
        → after.0 ≡ err e
        → after.1.db ≡ w.db
        → after.1.sent ≡ w.sent
        → after.1.confirmed ≡ w.confirmed
        → after.1.requested ≡ w.requested
        → Handled body w after
    skipped :
        (task : Task) (r : ListingHtmlFetch)
        → json.decode_task body ≡ ok task
        → get_latest_fetch_by_url task.url w.db.fetches ≡ some r
        → recently_fetched r.fetched_at (env.clock (suc w.ticks)) cfg.min_refetch_interval ≡ true
        → after ≡ (ok tt, tick w)
        → Handled body w after
    downloaded :
        (task : Task) (f : Fetched) (k : ℕ) (v : World)
        → json.decode_task body ≡ ok task
        → task.url ≢ ""
        → Met env cfg task.url k w f v
        → after.1.requested ≡ v.requested
        → v.db ≡ w.db
        → v.serials ≡ w.serials
        → v.sent ≡ w.sent
        → v.confirmed ≡ w.confirmed
        → Stored env cfg json task.url f v after
        → Handled body w after

  pub download-limited :
      (url : String) (v : World) (e : Error)
      → env.limiter v.ticks ≡ some e
      → download env cfg json url v ≡ (err (wrap "rate limit wait" e), tick v)
  unfolding download
  download-limited url v e h = ground arith

  pub download-fetches :
      (url : String) (v : World)
      → env.limiter v.ticks ≡ none
      → download env cfg json url v
        ≡ store env cfg json url
            (fetch env cfg json url (tick v)).0
            (fetch env cfg json url (tick v)).1
  unfolding download
  download-fetches url v h = ground arith

  -- What the gate finds: nothing to stop for, a recent row, or an error.
  data Gated (url : String) (w : World) (after : Result Bool × World) : Type 0 where
    passed : (v : World) → after ≡ (ok false, v) → (v ≡ w) ⊎ (v ≡ tick w) → Gated url w after
    recent :
        (r : ListingHtmlFetch)
        → get_latest_fetch_by_url url w.db.fetches ≡ some r
        → recently_fetched r.fetched_at (env.clock (suc w.ticks)) cfg.min_refetch_interval ≡ true
        → after ≡ (ok true, tick w)
        → Gated url w after
    broken : (e : Error) → env.database w.ticks ≢ done → after ≡ (err e, tick w) → Gated url w after

  judge-err :
      (url : String) (w : World) (e : Error)
      → (is_no_rows e ≡ true) ⊎ (env.database w.ticks ≢ done)
      → Gated url w (judge env cfg json (err e) (tick w))
  unfolding judge
  judge-err url w e why = elim (Bool-cases (is_no_rows e)) [
    | inl first ↦ passed (tick w) (ground arith) (inr refl)
    | inr bad ↦ elim why [
      | inl first ↦ absurd (ground arith)
      | inr down ↦ broken (wrap "dedup lookup" e) down (ground arith)
    ]
  ]

  judge-ok :
      (url : String) (w : World) (r : ListingHtmlFetch)
      → get_latest_fetch_by_url url w.db.fetches ≡ some r
      → Gated url w (judge env cfg json (ok r) (tick w))
  unfolding judge
  judge-ok url w r h =
      elim (Bool-cases
        (recently_fetched r.fetched_at (env.clock (suc w.ticks)) cfg.min_refetch_interval)) [
          | inl now' ↦ recent r h now' (ground arith)
          | inr old ↦ passed (tick w) (ground arith) (inr refl)
        ]

  -- the lookup of the gate, in a world with a window
  skips-err :
      (url : String) (w : World) (e : Error)
      → ltb_ℤ (pos 0) cfg.min_refetch_interval ≡ true
      → (is_no_rows e ≡ true) ⊎ (env.database w.ticks ≢ done)
      → query env (latest env cfg json url) w ≡ (err e, tick w)
      → Gated url w (skips env cfg json url w)
  skips-err url w e on why q =
      let same : skips env cfg json url w ≡ judge env cfg json (err e) (tick w) =
        (unfold skips in ground arith) in
      subst (Gated url w) (sym same) (judge-err url w e why)

  skips-ok :
      (url : String) (w : World) (r : ListingHtmlFetch)
      → ltb_ℤ (pos 0) cfg.min_refetch_interval ≡ true
      → get_latest_fetch_by_url url w.db.fetches ≡ some r
      → env.database w.ticks ≡ done
      → Gated url w (skips env cfg json url w)
  skips-ok url w r on h d =
      let same : skips env cfg json url w ≡ judge env cfg json (ok r) (tick w) =
        (unfold skips in ground arith) in
      subst (Gated url w) (sym same) (judge-ok url w r h)

  skips-Gated : (url : String) (w : World) → Gated url w (skips env cfg json url w)
  skips-Gated url w = elim (Bool-cases (ltb_ℤ (pos 0) cfg.min_refetch_interval)) [
    | inr off ↦ passed w (unfold skips in ground arith) (inl refl)
    | inl on ↦ elim (DbReply-cases (env.database w.ticks)) [
      | inr (inl (e, d)) ↦ skips-err url w e on (inr (λ k. ground arith)) (ground arith)
      | inr (inr (e, d)) ↦ skips-err url w e on (inr (λ k. ground arith)) (ground arith)
      | inl d ↦ elim (Option-cases (get_latest_fetch_by_url url w.db.fetches)) [
        | inl h ↦ skips-err url w no_rows on (inl refl) (ground arith)
        | inr (r, h) ↦ skips-ok url w r on h d
      ]
    ]
  ]

  module _ (body : Bytes) (w : World) (task : Task) (decoded : json.decode_task body ≡ ok task)
      (named : task.url ≢ "") where
    download-Handled :
        (v : World) → (v ≡ w) ⊎ (v ≡ tick w) → Handled body w (download env cfg json task.url v)
    download-Handled v near = elim (Option-cases (env.limiter v.ticks)) [
      | inr (e, h) ↦ rw (download-limited task.url v e h) (
          refused_early (wrap "rate limit wait" e) (unlimited v.ticks (λ k. ground arith)) refl
            (ground arith) (ground arith) (ground arith) (ground arith))
      | inl h ↦ rw (download-fetches task.url v h) (
          downloaded task (fetch env cfg json task.url (tick v)).0 (tick v).ticks
            (fetch env cfg json task.url (tick v)).1 decoded named
            (fetch-Met env cfg json task.url (tick v) w (ground arith))
            (store-requested env cfg json task.url _ _)
            (fetch-db env cfg json task.url (tick v) ∙ ground arith)
            (fetch-serials env cfg json task.url (tick v) ∙ ground arith)
            (fetch-sent env cfg json task.url (tick v) ∙ ground arith)
            (fetch-confirmed env cfg json task.url (tick v) ∙ ground arith)
            (store-Stored env cfg json task.url _ _))
    ]

    Gated-Handled :
        {after : Result Bool × World}
        → skips env cfg json task.url w ≡ after
        → Gated task.url w after
        → Handled body w (handle env cfg json body w)
    Gated-Handled e (passed v a near) =
        let same : handle env cfg json body w ≡ download env cfg json task.url v =
          (unfold handle in ground (arith, eq_iff task.url "")) in
        rw same (download-Handled v near)
    Gated-Handled e (recent r found young a) =
        skipped task r decoded found young (unfold handle in ground (arith, eq_iff task.url ""))
    Gated-Handled e (broken x down a) =
        let same : handle env cfg json body w ≡ (err x, tick w) =
          (unfold handle in ground (arith, eq_iff task.url "")) in
        rw same (refused_early x (no_lookup down) refl refl refl refl refl)

  pub handle-Handled : (body : Bytes) (w : World) → Handled body w (handle env cfg json body w)
  handle-Handled body w = elim (Result-cases (json.decode_task body)) [
    | inr (e, h) ↦
        let same : handle env cfg json body w ≡ (err (wrap "decode task" e), w) =
          (unfold handle in ground arith) in
        rw same (refused_early (wrap "decode task" e) (undecodable e h) refl refl refl refl refl)
    | inl (task, h) ↦ elim (Bool-cases (str_eq task.url "")) [
      | inl empty ↦
          let same : handle env cfg json body w ≡ (err (message "task has empty url"), w) =
            (unfold handle in ground arith) in
          rw same (
            refused_early (message "task has empty url")
              (unnamed task h (ground (arith, eq_iff task.url ""))) refl refl refl refl refl)
      | inr named ↦
          Gated-Handled body w task h (λ e. ground (arith, eq_iff task.url "")) refl
            (skips-Gated task.url w)
    ]
  ]

  -- Where the lookup works and the last fetch of the task's URL is recent, the run does nothing but
  -- that lookup and reports success: no request, no row, no message.
  pub handle-recent :
      (body : Bytes) (w : World) (task : Task) (r : ListingHtmlFetch)
      → json.decode_task body ≡ ok task
      → task.url ≢ ""
      → ltb_ℤ (pos 0) cfg.min_refetch_interval ≡ true
      → env.database w.ticks ≡ done
      → get_latest_fetch_by_url task.url w.db.fetches ≡ some r
      → recently_fetched r.fetched_at (env.clock (suc w.ticks)) cfg.min_refetch_interval ≡ true
      → handle env cfg json body w ≡ (ok tt, tick w)
  unfolding handle skips judge
  handle-recent body w task r decoded named on d found young = ground (arith, eq_iff task.url "")
