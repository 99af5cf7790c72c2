-- ===== src/Pipeline/Saving.antt =====
-- The statements of the parser's transaction in the system.
use real_estate_robot.Base.{ℕ, suc, ◌≤◌, ◌≡◌, refl, inl, some, arith, In}
use real_estate_robot.Base.Values.{Time, ok, wrap}
use real_estate_robot.Storage.Sellers.{UpsertSellerParams}
use real_estate_robot.Storage.Listings.{
  UpsertListingParams, InsertListingSnapshotParams, insert_listing_snapshot,
}
use real_estate_robot.Runtime.Env.{Env, World, wrapping}
use real_estate_robot.Runtime.Actions.{statement_ok}
use real_estate_robot.Runtime.Rules.{bind_rule, statement_rule, rewrap_ok}
use real_estate_robot.Parser.Page.{Parsed, Reading}
use real_estate_robot.Parser.Worker.{
  seller_id, listing_id, seller_params, listing_params, snapshot_params, save_seller, save_listing,
  save_snapshot, save,
}
use real_estate_robot.Parser.Worker.Transactions.{Saved, saved, save-Saved}
use real_estate_robot.Pipeline.{Wire, IsSound}
use real_estate_robot.Pipeline.Tables.{seller_ids, listing_ids, In-seller_id, In-listing_id}
use real_estate_robot.Pipeline.Sellers.{HasSeller, HasSeller-upsert}
use real_estate_robot.Pipeline.Parsing.{
  with_seller, with_listing, with_snapshot, with_seller-IsSound, with_listing-IsSound,
  with_snapshot-IsSound,
}

-- the effects of the statements with the values that they return
abbrev saving_seller : UpsertSellerParams → Time → World → ℕ × World
saving_seller p now w =
    (seller_id p.olx_user_id (suc w.serials.seller) w.db.sellers, with_seller now p w)

abbrev saving_listing : UpsertListingParams → Time → World → ℕ × World
saving_listing p now w =
    (listing_id p.olx_listing_id (suc w.serials.listing) w.db.listings, with_listing now p w)

abbrev saving_snapshot : InsertListingSnapshotParams → Time → World → ℕ × World
saving_snapshot p now w = (
  (insert_listing_snapshot now (suc w.serials.snapshot) p w.db.snapshots).0,
  with_snapshot now p w,
)

module _ (wire : Wire) (env : Env) (reading : Reading) where
  save_seller-IsSound :
      (p : UpsertSellerParams) (w : World)
      → IsSound wire w
      → IsSound wire (save_seller env reading wire.parser p w).1
  unfolding save_seller
  save_seller-IsSound p w s =
      statement_rule (IsSound wire) env (saving_seller p) w s
        (λ now. with_seller-IsSound wire now p w s)

  save_seller-In :
      (p : UpsertSellerParams) (w : World) (id : ℕ)
      → (save_seller env reading wire.parser p w).0 ≡ ok id
      → In id (seller_ids (save_seller env reading wire.parser p w).1.db.sellers)
  unfolding save_seller
  save_seller-In p w id o =
      let (drawn, there) = statement_ok env (saving_seller p) w id o in
      rw (drawn, there) (In-seller_id (env.db_clock w.ticks) (suc w.serials.seller) p w.db.sellers)

  save_listing-IsSound :
      (p : UpsertListingParams) (seller : ℕ) (w : World)
      → p.seller_id ≡ some seller
      → In seller (seller_ids w.db.sellers)
      → IsSound wire w
      → IsSound wire (save_listing env reading wire.parser p w).1
  unfolding save_listing
  save_listing-IsSound p seller w e i s =
      statement_rule (IsSound wire) env (saving_listing p) w s
        (λ now. with_listing-IsSound wire now p seller w e i s)

  save_listing-In :
      (p : UpsertListingParams) (w : World) (id : ℕ)
      → (save_listing env reading wire.parser p w).0 ≡ ok id
      → In id (listing_ids (save_listing env reading wire.parser p w).1.db.listings)
  unfolding save_listing
  save_listing-In p w id o =
      let (drawn, there) = statement_ok env (saving_listing p) w id o in
      rw (drawn, there)
        (In-listing_id (env.db_clock w.ticks) (suc w.serials.listing) p w.db.listings)

  save_snapshot-IsSound :
      (p : InsertListingSnapshotParams) (w : World)
      → In p.listing_id (listing_ids w.db.listings)
      → IsSound wire w
      → IsSound wire (save_snapshot env reading wire.parser p w).1
  unfolding save_snapshot
  save_snapshot-IsSound p w i s =
      statement_rule (IsSound wire) env (saving_snapshot p) w s
        (λ now. with_snapshot-IsSound wire now p w i s)

  -- The three statements, wherever they stop.
  pub save-IsSound :
      (res : Parsed) (w : World)
      → IsSound wire w
      → IsSound wire (save env reading wire.parser res w).1
  unfolding save
  save-IsSound res w s =
      let p : UpsertSellerParams = seller_params env reading wire.parser res in
      let first = save_seller-IsSound p w s in
      bind_rule (IsSound wire)
        (wrapping (wrap "upsert seller") (save_seller env reading wire.parser p)) _ w first
        λ seller o.
          let q : UpsertListingParams = listing_params env reading wire.parser res seller in
          let second =
            save_listing-IsSound q seller _ refl
              (save_seller-In p w seller (rewrap_ok _ _ seller o)) first in
          bind_rule (IsSound wire)
            (wrapping (wrap "upsert listing") (save_listing env reading wire.parser q)) _ _ second
            λ listing o'.
              let r : InsertListingSnapshotParams =
                snapshot_params env reading wire.parser res listing in
              let third =
                save_snapshot-IsSound r _ (save_listing-In q _ listing (rewrap_ok _ _ listing o'))
                  second in
              bind_rule (IsSound wire)
                (wrapping (wrap "insert snapshot") (save_snapshot env reading wire.parser r)) _ _
                third (λ _ o''. third)

  -- The sequences do not go back, whether the statements are kept or not.
  pub save-serials :
      (res : Parsed) (w : World)
      → (w.serials.seller ≤ (save env reading wire.parser res w).1.serials.seller)
        × (w.serials.listing ≤ (save env reading wire.parser res w).1.serials.listing)
        × (w.serials.fetch ≡ (save env reading wire.parser res w).1.serials.fetch)
  unfolding save save_seller save_listing save_snapshot
  save-serials res w = ground arith

  pub save-HasSeller :
      (res : Parsed) (w : World)
      → (save env reading wire.parser res w).0 ≡ ok tt
      → HasSeller res.seller.olx_user_id (save env reading wire.parser res w).1.db.sellers
  save-HasSeller res w o = of_Saved (save-Saved env reading wire.parser res w o)
    where
      of_Saved :
          Saved env reading wire.parser res w.db (save env reading wire.parser res w).1.db
          → HasSeller res.seller.olx_user_id (save env reading wire.parser res w).1.db.sellers
      of_Saved (saved t1 t2 t3 n1 n2 n3 sellers listings snapshots fetches) = rw sellers (
          HasSeller-upsert t1 n1 (seller_params env reading wire.parser res) res.seller.olx_user_id
            w.db.sellers (inl refl))
