-- ===== src/Parser/Worker/Atomicity.antt =====
-- What one run of the parser's handler does to the tables and to the queue of the enricher.
use real_estate_robot.Base.{
  ◌≡◌, refl, ◌∙◌, ap, inl, inr, false, none, some, [], ◌∷◌, ◌++◌, arith, ◌⊎◌, Bool-cases,
  Option-cases, subst,
}
use real_estate_robot.Base.Values.{Bytes, Error, Result, ok, err, wrap, message}
use real_estate_robot.Storage.Rows.{Db, ListingHtmlFetch}
use real_estate_robot.Runtime.Env.{Env, World, M, done, tick, DbReply-cases, Result-cases}
use real_estate_robot.Runtime.Actions.{query}
use real_estate_robot.Queue.Names.{queue_sellers_enrich}
use real_estate_robot.Queue.Publisher.{
  publish, work_message, Publishes, delivered, dropped, unsure, publish-Publishes,
}
use real_estate_robot.Parser.Page.{Parsed, Reading, is_zero_id, parse}
use real_estate_robot.Parser.Worker.{Task, Json, find_fetch, save, store, digest, handle}
use real_estate_robot.Parser.Worker.Transactions.{
  Transacted, not_begun, rolled_back, committed, unanswered, Saved, save-Saved, save-sent,
  save-confirmed,
}

module _ (env : Env) (reading : Reading) (json : Json)
    (begin_func : M (Unit {0}) → M (Unit {0})) where
  -- How storing one page ends: nothing is written and nothing asked for; or all three rows are
  -- written, and then the enrichment is asked for, or an error is reported.
  pub data Kept (res : Parsed) (w : World) (after : Result (Unit {0}) × World) : Type 0 where
    nothing :
        (e : Error)
        → after.0 ≡ err e
        → after.1.db ≡ w.db
        → after.1.sent ≡ w.sent
        → after.1.confirmed ≡ w.confirmed
        → Kept res w after
    everything :
        (v : World)
        → after.0 ≡ ok tt
        → Saved env reading json res w.db after.1.db
        → after.1.confirmed
          ≡ w.confirmed
            ++ work_message env queue_sellers_enrich (json.encode_next res.seller.olx_user_id) v
              ∷ []
        → Kept res w after
    rows_alone :
        (e : Error)
        → after.0 ≡ err e
        → Saved env reading json res w.db after.1.db
        → after.1.confirmed ≡ w.confirmed
        → Kept res w after

  moved :
      (res : Parsed) (a b c : Db)
      → Saved env reading json res a b
      → b ≡ c
      → Saved env reading json res a c
  moved res a b c s e = subst (Saved env reading json res a) e s

  store-failed :
      (res : Parsed) (w : World) (e : Error)
      → (begin_func (save env reading json res) w).0 ≡ err e
      → store env reading json begin_func res w
        ≡ (err e, (begin_func (save env reading json res) w).1)
  unfolding store
  store-failed res w e h = ground arith

  publish-Kept :
      (res : Parsed) (w v : World) {after : Result (Unit {0}) × World}
      → (begin_func (save env reading json res) w) ≡ (ok tt, v)
      → Saved env reading json res w.db v.db
      → v.confirmed ≡ w.confirmed
      → publish env queue_sellers_enrich (json.encode_next res.seller.olx_user_id) v ≡ after
      → Publishes
          (work_message env queue_sellers_enrich (json.encode_next res.seller.olx_user_id) v)
          v
          after
      → Kept res w (store env reading json begin_func res w)
  publish-Kept res w v b s c p (delivered o x) =
      everything v (unfold store in ground arith)
        (moved res w.db v.db (store env reading json begin_func res w).1.db s
          (unfold store in ground arith))
        (unfold store in ground arith)
  publish-Kept res w v b s c p (dropped e o x) =
      rows_alone (wrap "publish enrich task" e) (unfold store in ground arith)
        (moved res w.db v.db (store env reading json begin_func res w).1.db s
          (unfold store in ground arith))
        (unfold store in ground arith)
  publish-Kept res w v b s c p (unsure e o x) =
      rows_alone (wrap "publish enrich task" e) (unfold store in ground arith)
        (moved res w.db v.db (store env reading json begin_func res w).1.db s
          (unfold store in ground arith))
        (unfold store in ground arith)

  Transacted-Kept :
      (res : Parsed) (w : World) {after : Result (Unit {0}) × World}
      → begin_func (save env reading json res) w ≡ after
      → Transacted (save env reading json res) w after
      → Kept res w (store env reading json begin_func res w)
  Transacted-Kept res w {after} b (not_begun e n o x) =
      rw (store-failed res w e (ap (λ t. t.0) b ∙ o))
        (nothing e refl (ground arith) (ground arith) (ground arith))
  Transacted-Kept res w {after} b (rolled_back e m n o x) =
      rw (store-failed res w e (ap (λ t. t.0) b ∙ o)) (
        nothing e refl (ground arith)
          (ground (arith, save-sent env reading json res (record w { ticks = m })))
          (ground (arith, save-confirmed env reading json res (record w { ticks = m }))))
  Transacted-Kept res w {after} b (committed m n f o x) =
      publish-Kept res w after.1 (ground arith)
        (moved res w.db (save env reading json res (record w { ticks = m })).1.db after.1.db
          (save-Saved env reading json res (record w { ticks = m }) f) (ground arith))
        (ground (arith, save-confirmed env reading json res (record w { ticks = m }))) refl
        (publish-Publishes env _ _ after.1)
  Transacted-Kept res w {after} b (unanswered e m n f o x) =
      rw (store-failed res w e (ap (λ t. t.0) b ∙ o)) (
        rows_alone e refl
          (moved res w.db (save env reading json res (record w { ticks = m })).1.db
            (begin_func (save env reading json res) w).1.db
            (save-Saved env reading json res (record w { ticks = m }) f) (ground arith))
          (ground (arith, save-confirmed env reading json res (record w { ticks = m }))))

  -- How a run of the handler ends: before anything is stored, or with a page stored.
  pub data Digested (body : Bytes) (w : World) (after : Result (Unit {0}) × World) : Type 0 where
    refused_early :
        (e : Error) → after.0 ≡ err e → (after.1 ≡ w) ⊎ (after.1 ≡ tick w) → Digested body w after
    empty :
        (task : Task) (row : ListingHtmlFetch)
        → json.decode_task body ≡ ok task
        → find_fetch task.fetch_id w ≡ ok row
        → row.html ≡ none
        → after ≡ (ok tt, tick w)
        → Digested body w after
    digested :
        (task : Task) (row : ListingHtmlFetch) (html : Bytes) (res : Parsed)
        → json.decode_task body ≡ ok task
        → find_fetch task.fetch_id w ≡ ok row
        → row.html ≡ some html
        → parse reading task.url html ≡ ok res
        → Kept res (tick w) after
        → Digested body w after

  module _
      (atomic : (body : M (Unit {0})) (w : World) → Transacted body w (begin_func body w)) where
    pub store-Kept :
        (res : Parsed) (w : World) → Kept res w (store env reading json begin_func res w)
    store-Kept res w = Transacted-Kept res w refl (atomic (save env reading json res) w)

    module _ (body : Bytes) (w : World) (task : Task) (decoded : json.decode_task body ≡ ok task)
        (named : is_zero_id task.fetch_id ≡ false) where
      handle-unread :
          (e : Error)
          → query env (find_fetch task.fetch_id) w ≡ (err e, tick w)
          → Digested body w (handle env reading json begin_func body w)
      handle-unread e q =
          let same : handle env reading json begin_func body w
              ≡ (err (wrap "load fetch row" e), tick w) =
            (unfold handle in ground arith) in
          rw same (refused_early (wrap "load fetch row" e) refl (inr refl))

      handle-digest :
          (row : ListingHtmlFetch)
          → find_fetch task.fetch_id w ≡ ok row
          → env.database w.ticks ≡ done
          → handle env reading json begin_func body w
            ≡ digest env reading json begin_func task.url row (tick w)
      unfolding handle
      handle-digest row f d = ground arith

      digest-Digested :
          (row : ListingHtmlFetch)
          → find_fetch task.fetch_id w ≡ ok row
          → Digested body w (digest env reading json begin_func task.url row (tick w))
      digest-Digested row f = elim (Option-cases row.html) [
        | inl h ↦ empty task row decoded f h (unfold digest in ground arith)
        | inr (html, h) ↦ elim (Result-cases (parse reading task.url html)) [
          | inr (e, p) ↦
              let same : digest env reading json begin_func task.url row (tick w)
                  ≡ (err (wrap "parse" e), tick w) =
                (unfold digest in ground arith) in
              rw same (refused_early (wrap "parse" e) refl (inr refl))
          | inl (res, p) ↦
              let same : digest env reading json begin_func task.url row (tick w)
                  ≡ store env reading json begin_func res (tick w) =
                (unfold digest in ground arith) in
              rw same (digested task row html res decoded f h p (store-Kept res (tick w)))
        ]
      ]

    -- Where begin_func is a transaction, a run of the handler ends in one of the ways of Digested:
    -- the three rows of a page are written together or not at all, and the enrichment of its seller
    -- is asked for only once they are.
    pub handle-Digested :
        (body : Bytes) (w : World) → Digested body w (handle env reading json begin_func body w)
    handle-Digested body w = elim (Result-cases (json.decode_task body)) [
      | inr (e, h) ↦
          let same : handle env reading json begin_func body w ≡ (err (wrap "decode task" e), w) =
            (unfold handle in ground arith) in
          rw same (refused_early (wrap "decode task" e) refl (inl refl))
      | inl (task, h) ↦ elim (Bool-cases (is_zero_id task.fetch_id)) [
        | inl zero_id ↦
            let same : handle env reading json begin_func body w
                ≡ (err (message "task has zero fetch_id"), w) =
              (unfold handle in ground arith) in
            rw same (refused_early (message "task has zero fetch_id") refl (inl refl))
        | inr named ↦ elim (DbReply-cases (env.database w.ticks)) [
          | inr (inl (e, d)) ↦ handle-unread body w task h named e (ground arith)
          | inr (inr (e, d)) ↦ handle-unread body w task h named e (ground arith)
          | inl d ↦ elim (Result-cases (find_fetch task.fetch_id w)) [
            | inr (e, f) ↦ handle-unread body w task h named e (ground arith)
            | inl (row, f) ↦
                rw (handle-digest body w task h named row f d)
                  (digest-Digested body w task h named row f)
          ]
        ]
      ]
    ]
