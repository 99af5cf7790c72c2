-- ===== src/Parser/Worker/Reparse.antt =====
-- Parsing the same page again, which a redelivered task does, adds no row.
use real_estate_robot.Base.{ℕ, ==_iff, ◌≡◌, ◌∙◌, ap, true, some, List, arith, eq_refl}
use real_estate_robot.Storage.Rows.{Db, Seller, Listing}
use real_estate_robot.Storage.Sellers.{UpsertSellerParams, upsert_seller, get_seller_by_olx_id}
use real_estate_robot.Storage.Sellers.Keys.{
  upserted as seller_upserted, get_seller-upsert, identities as seller_identities,
  identities-upsert as seller_identities-upsert,
}
use real_estate_robot.Storage.Listings.{
  UpsertListingParams, upsert_listing, get_listing_by_olx_id, InsertListingSnapshotParams,
  has_snapshot, insert_listing_snapshot,
}
use real_estate_robot.Storage.Listings.Keys.{
  upserted as listing_upserted, get_listing-upsert, identities as listing_identities,
  identities-upsert as listing_identities-upsert, has_snapshot-insert,
}
use real_estate_robot.Runtime.Env.{Env}
use real_estate_robot.Parser.Page.{Parsed, Reading}
use real_estate_robot.Parser.Worker.{
  Json, seller_id, listing_id, seller_params, listing_params, snapshot_params,
}
use real_estate_robot.Parser.Worker.Transactions.{Saved, saved}

-- A row stands under the key after an upsert.
seller_kept :
    (now id : ℕ) (p : UpsertSellerParams) (table : List Seller)
    → (s : Seller) × (get_seller_by_olx_id p.olx_user_id (upsert_seller now id p table) ≡ some s)
seller_kept now id p table = (
  seller_upserted now id p (get_seller_by_olx_id p.olx_user_id table),
  ground (arith, get_seller-upsert now id p p.olx_user_id table, eq_refl p.olx_user_id),
)

listing_kept :
    (now id : ℕ) (p : UpsertListingParams) (table : List Listing)
    → (l : Listing) × (get_listing_by_olx_id p.olx_listing_id (upsert_listing now id p table)
        ≡ some l)
      × (l.id ≡ listing_id p.olx_listing_id id table)
listing_kept now id p table = (
  listing_upserted now id p (get_listing_by_olx_id p.olx_listing_id table),
  ground (arith, get_listing-upsert now id p p.olx_listing_id table, eq_refl p.olx_listing_id),
  ground arith,
)

-- The listing keeps its number at the next upsert.
listing_id-upsert :
    (now id next : ℕ) (p : UpsertListingParams) (table : List Listing)
    → listing_id p.olx_listing_id next (upsert_listing now id p table)
      ≡ listing_id p.olx_listing_id id table
listing_id-upsert now id next p table =
    let (l, found, same) = listing_kept now id p table in ground (arith, same)

-- A snapshot that stands in the table is not inserted once more.
insert-again :
    (t u m n : ℕ) (p : InsertListingSnapshotParams) (a b c : Db)
    → b.snapshots ≡ (insert_listing_snapshot t m p a.snapshots).1
    → c.snapshots ≡ (insert_listing_snapshot u n p b.snapshots).1
    → c.snapshots ≡ b.snapshots
insert-again t u m n p a b c e f =
    let known : has_snapshot p.listing_id p.raw_hash b.snapshots ≡ true = ground (
      arith,
      ap (has_snapshot p.listing_id p.raw_hash) e,
      has_snapshot-insert t m p p.listing_id p.raw_hash a.snapshots,
      eq_refl p.raw_hash,
      ==_iff p.listing_id p.listing_id,
    ) in
    f ∙ (unfold insert_listing_snapshot in ground arith)

module _ (env : Env) (reading : Reading) (json : Json) where
  -- Storing one page twice in a row leaves the rows of the first time: the second time adds no
  -- seller, no listing and no snapshot, and every row keeps its number.
  pub Saved-again :
      (res : Parsed) (a b c : Db)
      → Saved env reading json res a b
      → Saved env reading json res b c
      → (seller_identities c.sellers ≡ seller_identities b.sellers)
        × (listing_identities c.listings ≡ listing_identities b.listings)
        × (c.snapshots ≡ b.snapshots)
        × (c.fetches ≡ b.fetches)
  Saved-again res a b c (saved t1 t2 t3 n1 n2 n3 s l k f) (saved u1 u2 u3 m1 m2 m3 s' l' k' f') =
      let seller_row = seller_kept t1 n1 (seller_params env reading json res) a.sellers in
      let p = listing_params env reading json res (seller_id res.seller.olx_user_id n1 a.sellers) in
      let q = listing_params env reading json res (seller_id res.seller.olx_user_id m1 b.sellers) in
      let listing_row = listing_kept t2 n2 p a.listings in
      let one : listing_id res.listing.olx_listing_id m2 b.listings
          ≡ listing_id res.listing.olx_listing_id n2 a.listings =
        ap (listing_id res.listing.olx_listing_id m2) l ∙ listing_id-upsert t2 n2 m2 p a.listings in
      (
        ap seller_identities s'
            ∙ seller_identities-upsert u1 m1 (seller_params env reading json res) seller_row.0
                b.sellers (ap (get_seller_by_olx_id res.seller.olx_user_id) s ∙ seller_row.1),
        ap listing_identities l'
            ∙ listing_identities-upsert u2 m2 q listing_row.0 b.listings
                (ap (get_listing_by_olx_id res.listing.olx_listing_id) l ∙ listing_row.1),
        insert-again t3 u3 n3 m3
            (snapshot_params env reading json res
              (listing_id res.listing.olx_listing_id n2 a.listings))
            a b c k
            (k'
              ∙ ap
                  (λ i.
                    (insert_listing_snapshot u3 m3 (snapshot_params env reading json res i)
                      b.snapshots).1)
                  one),
        f',
      )
