-- ===== src/Parser/Worker/Transactions.antt =====
-- What the worker relies on of pgx.BeginFunc, and what its three statements write.
use real_estate_robot.Base.{ℕ, suc, ◌≡◌, inl, inr, arith}
use real_estate_robot.Base.Values.{Time, Error, Result, ok, err}
use real_estate_robot.Storage.Rows.{Db}
use real_estate_robot.Storage.Sellers.{upsert_seller}
use real_estate_robot.Storage.Listings.{upsert_listing, insert_listing_snapshot}
use real_estate_robot.Runtime.Env.{Env, World, M, DbReply-cases}
use real_estate_robot.Parser.Page.{Parsed, Reading}
use real_estate_robot.Parser.Worker.{
  Json, seller_id, listing_id, seller_params, listing_params, snapshot_params, save_seller,
  save_listing, save_snapshot, save,
}

-- As pgx documents BeginFunc: it begins a transaction and calls the function; on its error it rolls
-- back, else it commits. A begin or a commit may fail, and the reply to a commit may be lost. A
-- rollback gives back the tables, and no number of a sequence.
pub data Transacted (body : M (Unit {0})) (w : World) (after : Result (Unit {0}) × World)
    : Type 0 where
  not_begun :
      (e : Error) (n : ℕ)
      → after.0 ≡ err e
      → after.1 ≡ record w { ticks = n }
      → Transacted body w after
  rolled_back :
      (e : Error) (m n : ℕ)
      → after.0 ≡ err e
      → after.1 ≡ record (body (record w { ticks = m })).1 { db = w.db; ticks = n }
      → Transacted body w after
  committed :
      (m n : ℕ)
      → (body (record w { ticks = m })).0 ≡ ok tt
      → after.0 ≡ ok tt
      → after.1 ≡ record (body (record w { ticks = m })).1 { ticks = n }
      → Transacted body w after
  unanswered :
      (e : Error) (m n : ℕ)
      → (body (record w { ticks = m })).0 ≡ ok tt
      → after.0 ≡ err e
      → after.1 ≡ record (body (record w { ticks = m })).1 { ticks = n }
      → Transacted body w after

module _ (env : Env) (reading : Reading) (json : Json) where
  -- The tables after the three statements for one page: the seller's row, the listing's row that
  -- refers to it, and the snapshot of that listing, unless it stands there already.
  pub data Saved (res : Parsed) (before after : Db) : Type 0 where
    saved :
        (t1 t2 t3 : Time) (n1 n2 n3 : ℕ)
        → after.sellers ≡ upsert_seller t1 n1 (seller_params env reading json res) before.sellers
        → after.listings
          ≡ upsert_listing t2 n2
              (listing_params env reading json res
                (seller_id res.seller.olx_user_id n1 before.sellers))
              before.listings
        → after.snapshots
          ≡ (insert_listing_snapshot t3 n3
              (snapshot_params env reading json res
                (listing_id res.listing.olx_listing_id n2 before.listings))
              before.snapshots).1
        → after.fetches ≡ before.fetches
        → Saved res before after

  pub save-sent : (res : Parsed) (w : World) → (save env reading json res w).1.sent ≡ w.sent
  unfolding save save_seller save_listing save_snapshot
  save-sent res w = ground arith

  pub save-confirmed :
      (res : Parsed) (w : World) → (save env reading json res w).1.confirmed ≡ w.confirmed
  unfolding save save_seller save_listing save_snapshot
  save-confirmed res w = ground arith

  -- Where the function in the transaction returns nil, its three statements have been done.
  pub save-Saved :
      (res : Parsed) (w : World)
      → (save env reading json res w).0 ≡ ok tt
      → Saved res w.db (save env reading json res w).1.db
  unfolding save save_seller save_listing save_snapshot
  save-Saved res w fine = elim (DbReply-cases (env.database w.ticks)) [
    | inr (inl (e, d)) ↦ absurd (ground arith)
    | inr (inr (e, d)) ↦ absurd (ground arith)
    | inl d ↦ elim (DbReply-cases (env.database (suc w.ticks))) [
      | inr (inl (e, d')) ↦ absurd (ground arith)
      | inr (inr (e, d')) ↦ absurd (ground arith)
      | inl d' ↦ elim (DbReply-cases (env.database (suc (suc w.ticks)))) [
        | inr (inl (e, d'')) ↦ absurd (ground arith)
        | inr (inr (e, d'')) ↦ absurd (ground arith)
        | inl d'' ↦
            saved (env.db_clock w.ticks) (env.db_clock (suc w.ticks))
              (env.db_clock (suc (suc w.ticks))) (suc w.serials.seller) (suc w.serials.listing)
              (suc w.serials.snapshot) (ground arith) (ground arith) (ground arith) (ground arith)
      ]
    ]
  ]
