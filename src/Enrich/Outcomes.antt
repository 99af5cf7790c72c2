-- ===== src/Enrich/Outcomes.antt =====
-- How one run of the enricher's handler ends.
use real_estate_robot.Base.{
  suc, str_eq, ◌≡◌, ◌≢◌, refl, ◌∙◌, ap, ◌⊎◌, inl, inr, true, false, some, arith, eq_iff, Bool-cases,
  Option-cases,
}
use real_estate_robot.Base.Values.{
  Bytes, Error, Result, ok, err, message, wrap, no_rows, is_no_rows,
}
use real_estate_robot.Storage.Rows.{Seller}
use real_estate_robot.Storage.Sellers.{get_seller_by_olx_id}
use real_estate_robot.Runtime.Env.{Env, World, tick, done, DbReply-cases, Result-cases}
use real_estate_robot.Runtime.Actions.{query}
use real_estate_robot.Enrich.{
  Task, Config, Json, address, find_seller, is_fresh, visit, enrich, look_up, handle,
}
use real_estate_robot.Enrich.Visits.{Visited, visit-Visited}

module _ (env : Env) (cfg : Config) (json : Json) where
  -- How a run of the handler ends: with no seller to visit, at the gate, or with a visit.
  pub data Enriched (body : Bytes) (w : World) (after : Result (Unit {0}) × World) : Type 0 where
    refused_early :
        (e : Error) → after.0 ≡ err e → (after.1 ≡ w) ⊎ (after.1 ≡ tick w) → Enriched body w after
    unknown :
        (task : Task) (e : Error)
        → json.decode_task body ≡ ok task
        → (query env (find_seller env cfg json task.olx_user_id) w).0 ≡ err e
        → is_no_rows e ≡ true
        → after ≡ (ok tt, tick w)
        → Enriched body w after
    fresh :
        (task : Task) (s : Seller)
        → json.decode_task body ≡ ok task
        → get_seller_by_olx_id task.olx_user_id w.db.sellers ≡ some s
        → is_fresh env cfg json s.last_enriched_at (env.clock (suc w.ticks)) ≡ true
        → after ≡ (ok tt, tick w)
        → Enriched body w after
    visited :
        (task : Task) (s : Seller)
        → json.decode_task body ≡ ok task
        → get_seller_by_olx_id task.olx_user_id w.db.sellers ≡ some s
        → is_fresh env cfg json s.last_enriched_at (env.clock (suc w.ticks)) ≡ false
        → Visited env cfg json s.id (address s.profile_url) (tick w) after
        → Enriched body w after

  module _ (body : Bytes) (w : World) (task : Task) (decoded : json.decode_task body ≡ ok task)
      (named : task.olx_user_id ≢ "") where
    handle_looks_up : handle env cfg json body w ≡ look_up env cfg json task.olx_user_id w
    handle_looks_up = unfold handle in ground (arith, eq_iff task.olx_user_id "")

    look_up-err :
        (e : Error)
        → query env (find_seller env cfg json task.olx_user_id) w ≡ (err e, tick w)
        → Enriched body w (handle env cfg json body w)
    look_up-err e q = elim (Bool-cases (is_no_rows e)) [
      | inl missing ↦
          unknown task e decoded (ap (λ t. t.0) q) missing
            (handle_looks_up ∙ (unfold look_up in unfold enrich in ground arith))
      | inr bad ↦
          let same : look_up env cfg json task.olx_user_id w
              ≡ (err (wrap "lookup seller" e), tick w) =
            (unfold look_up in unfold enrich in ground arith) in
          rw (handle_looks_up ∙ same) (refused_early (wrap "lookup seller" e) refl (inr refl))
    ]

    look_up-ok :
        (s : Seller)
        → get_seller_by_olx_id task.olx_user_id w.db.sellers ≡ some s
        → env.database w.ticks ≡ done
        → Enriched body w (handle env cfg json body w)
    look_up-ok s found d =
        elim (Bool-cases (is_fresh env cfg json s.last_enriched_at (env.clock (suc w.ticks)))) [
          | inl young ↦
              fresh task s decoded found young
                (handle_looks_up ∙ (unfold look_up in unfold enrich in ground arith))
          | inr old ↦
              let same : look_up env cfg json task.olx_user_id w
                  ≡ visit env cfg json s.id (address s.profile_url) (tick w) =
                (unfold look_up in unfold enrich in ground arith) in
              rw (handle_looks_up ∙ same) (
                visited task s decoded found old
                  (visit-Visited env cfg json s.id (address s.profile_url) (tick w)))
        ]

  -- Whatever the environment answers, a run of the handler ends in one of the ways of Enriched: a
  -- seller is stamped only behind the publication of every listing of the profile, and each
  -- publication happens only for a known seller outside its freshness window.
  pub handle-Enriched : (body : Bytes) (w : World) → Enriched body w (handle env cfg json body w)
  handle-Enriched body w = elim (Result-cases (json.decode_task body)) [
    | inr (e, h) ↦
        let same : handle env cfg json body w ≡ (err (wrap "decode task" e), w) =
          (unfold handle in ground arith) in
        rw same (refused_early (wrap "decode task" e) refl (inl refl))
    | inl (task, h) ↦ elim (Bool-cases (str_eq task.olx_user_id "")) [
      | inl empty ↦
          let same : handle env cfg json body w ≡ (err (message "task has empty olx_user_id"), w) =
            (unfold handle in ground arith) in
          rw same (refused_early (message "task has empty olx_user_id") refl (inl refl))
      | inr named ↦
          let n : task.olx_user_id ≢ "" = (λ e. ground (arith, eq_iff task.olx_user_id "")) in
          elim (DbReply-cases (env.database w.ticks)) [
            | inr (inl (e, d)) ↦ look_up-err body w task h n e (ground arith)
            | inr (inr (e, d)) ↦ look_up-err body w task h n e (ground arith)
            | inl d ↦ elim (Option-cases (get_seller_by_olx_id task.olx_user_id w.db.sellers)) [
              | inl m ↦ look_up-err body w task h n no_rows (ground arith)
              | inr (s, m) ↦ look_up-ok body w task h n s m d
            ]
          ]
    ]
  ]
