-- ===== src/Pipeline/Parsing.antt =====
-- A run of the parser in the system: the rows of a page, each behind the row that it refers to, and
-- then the message that names the seller.
use real_estate_robot.Base.{ℕ, suc, ◌≤◌, ◌≡◌, refl, sym, subst, inr, some, List, All, All-mono, In}
use real_estate_robot.Base.Values.{Time}
use real_estate_robot.Storage.Rows.{Db, Serials}
use real_estate_robot.Storage.Sellers.{UpsertSellerParams, upsert_seller, get_seller_by_olx_id}
use real_estate_robot.Storage.Sellers.Keys.{upsert_seller-IsKeyed}
use real_estate_robot.Storage.Listings.{
  UpsertListingParams, upsert_listing, get_listing_by_olx_id, InsertListingSnapshotParams,
  insert_listing_snapshot,
}
use real_estate_robot.Storage.Listings.Keys.{insert_listing_snapshot-IsUnique}
use real_estate_robot.Runtime.Env.{World, Message}
use real_estate_robot.Pipeline.{
  Wire, IsWork, search, fetch, parse, enrich, given_up, IsConsistent, IsSound,
}
use real_estate_robot.Pipeline.Tables.{
  seller_ids, listing_ids, IsNumbered, IsNumbered-le, with_drawn, with_drawn-IsNumbered,
  In-with_drawn, seller_ids-upsert, listing_ids-upsert, IsOwned, IsCaptured, upsert_listing-IsOwned,
  insert_listing_snapshot-IsCaptured,
}
use real_estate_robot.Pipeline.Sellers.{HasSeller-upsert}

-- The worlds behind the three statements.
abbrev pub with_seller : Time → UpsertSellerParams → World → World
with_seller now p w = record w {
  db = record w.db { sellers = upsert_seller now (suc w.serials.seller) p w.db.sellers };
  serials = record w.serials { seller = suc w.serials.seller };
}

abbrev pub with_listing : Time → UpsertListingParams → World → World
with_listing now p w = record w {
  db = record w.db { listings = upsert_listing now (suc w.serials.listing) p w.db.listings };
  serials = record w.serials { listing = suc w.serials.listing };
}

abbrev pub with_snapshot : Time → InsertListingSnapshotParams → World → World
with_snapshot now p w = record w {
  db = record w.db {
    snapshots = (insert_listing_snapshot now (suc w.serials.snapshot) p w.db.snapshots).1;
  };
  serials = record w.serials { snapshot = suc w.serials.snapshot };
}

module _ (wire : Wire) where
  IsWork-saved :
      (now : Time) (n : ℕ) (p : UpsertSellerParams) (db : Db) (m : Message)
      → IsWork wire db m
      → IsWork wire (record db { sellers = upsert_seller now n p db.sellers }) m
  IsWork-saved now n p db m (search url page x q b) = search url page x q b
  IsWork-saved now n p db m (fetch url l q b) = fetch url l q b
  IsWork-saved now n p db m (parse r html x f h q b) = parse r html x f h q b
  IsWork-saved now n p db m (enrich key x f q b) =
      enrich key x (HasSeller-upsert now n p key db.sellers (inr f)) q b
  IsWork-saved now n p db m (given_up d) = given_up d

  -- Work speaks of the fetches and of the sellers alone.
  pub IsWork-kept :
      (a b : Db) (m : Message)
      → b.fetches ≡ a.fetches
      → b.sellers ≡ a.sellers
      → IsWork wire a m
      → IsWork wire b m
  IsWork-kept a b m e s (search url page x q k) = search url page x q k
  IsWork-kept a b m e s (fetch url l q k) = fetch url l q k
  IsWork-kept a b m e s (parse r html x f h q k) = parse r html x (rw e f) h q k
  IsWork-kept a b m e s (enrich key x f q k) = enrich key x (rw s f) q k
  IsWork-kept a b m e s (given_up d) = given_up d

  pub with_seller-IsSound :
      (now : Time) (p : UpsertSellerParams) (w : World)
      → IsSound wire w
      → IsSound wire (with_seller now p w)
  with_seller-IsSound now p w s =
      let n : ℕ = suc w.serials.seller in
      let known = get_seller_by_olx_id p.olx_user_id w.db.sellers in
      let ids : with_drawn known n (seller_ids w.db.sellers)
          ≡ seller_ids (upsert_seller now n p w.db.sellers) =
        sym (seller_ids-upsert now n p w.db.sellers) in
      record {
        keyed = upsert_seller-IsKeyed now n p w.db.sellers s.keyed;
        sellers_numbered =
            subst (IsNumbered n) ids (with_drawn-IsNumbered known _ _ s.sellers_numbered);
        listings_numbered = s.listings_numbered;
        owned =
            subst (λ ns. All (IsOwned ns) w.db.listings) ids
              (All-mono (IsOwned (seller_ids w.db.sellers)) _ w.db.listings
                (λ l h. (h.0, h.1, In-with_drawn known h.0 n _ h.2)) s.owned);
        captured = s.captured;
        unique = s.unique;
        fetches_numbered = s.fetches_numbered;
        workable = All-mono (IsWork wire w.db) _ w.sent (IsWork-saved now n p w.db) s.workable;
      }

  pub with_listing-IsSound :
      (now : Time) (p : UpsertListingParams) (seller : ℕ) (w : World)
      → p.seller_id ≡ some seller
      → In seller (seller_ids w.db.sellers)
      → IsSound wire w
      → IsSound wire (with_listing now p w)
  with_listing-IsSound now p seller w e i s =
      let n : ℕ = suc w.serials.listing in
      let known = get_listing_by_olx_id p.olx_listing_id w.db.listings in
      let ids : with_drawn known n (listing_ids w.db.listings)
          ≡ listing_ids (upsert_listing now n p w.db.listings) =
        sym (listing_ids-upsert now n p w.db.listings) in
      record {
        keyed = s.keyed;
        sellers_numbered = s.sellers_numbered;
        listings_numbered =
            subst (IsNumbered n) ids (with_drawn-IsNumbered known _ _ s.listings_numbered);
        owned = upsert_listing-IsOwned now n p seller _ w.db.listings e i s.owned;
        captured =
            subst (λ ns. All (IsCaptured ns) w.db.snapshots) ids
              (All-mono (IsCaptured (listing_ids w.db.listings)) _ w.db.snapshots
                (λ x h. In-with_drawn known x.listing_id n _ h) s.captured);
        unique = s.unique;
        fetches_numbered = s.fetches_numbered;
        workable =
            All-mono (IsWork wire w.db) _ w.sent (λ m. IsWork-kept w.db _ m refl refl) s.workable;
      }

  pub with_snapshot-IsSound :
      (now : Time) (p : InsertListingSnapshotParams) (w : World)
      → In p.listing_id (listing_ids w.db.listings)
      → IsSound wire w
      → IsSound wire (with_snapshot now p w)
  with_snapshot-IsSound now p w i s = record {
    keyed = s.keyed;
    sellers_numbered = s.sellers_numbered;
    listings_numbered = s.listings_numbered;
    owned = s.owned;
    captured = insert_listing_snapshot-IsCaptured now _ p _ w.db.snapshots i s.captured;
    unique = insert_listing_snapshot-IsUnique now _ p w.db.snapshots s.unique;
    fetches_numbered = s.fetches_numbered;
    workable =
        All-mono (IsWork wire w.db) _ w.sent (λ m. IsWork-kept w.db _ m refl refl) s.workable;
  }

  -- Numbers drawn and given to no row.
  pub drawn-IsSound :
      (db : Db) (a b : Serials) (sent : List Message)
      → a.seller ≤ b.seller
      → a.listing ≤ b.listing
      → a.fetch ≡ b.fetch
      → IsConsistent wire db a sent
      → IsConsistent wire db b sent
  drawn-IsSound db a b sent x y z s = record {
    keyed = s.keyed;
    sellers_numbered = IsNumbered-le a.seller b.seller _ x s.sellers_numbered;
    listings_numbered = IsNumbered-le a.listing b.listing _ y s.listings_numbered;
    owned = s.owned;
    captured = s.captured;
    unique = s.unique;
    fetches_numbered = subst (λ n. All (λ r. r.id ≤ n) db.fetches) z s.fetches_numbered;
    workable = s.workable;
  }
