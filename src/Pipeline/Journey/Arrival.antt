-- ===== src/Pipeline/Journey/Arrival.antt =====
-- The fetcher's run on a listing's URL and the parser's run on its message, where every call works.
use real_estate_robot.Base.{
  ℕ, suc, ◌≡◌, refl, sym, ap, ◌∙◌, inl, inr, eq_iff, Option, Option-cases, none, some, List, [],
  ◌∷◌, ◌++◌, arith,
}
use real_estate_robot.Base.Values.{Time, Result, ok}
use real_estate_robot.Storage.Rows.{Seller, Listing}
use real_estate_robot.Storage.Sellers.{UpsertSellerParams, upsert_seller, get_seller_by_olx_id}
use real_estate_robot.Storage.Sellers.Keys.{upserted, get_seller-upsert}
use real_estate_robot.Storage.Listings.{UpsertListingParams, upsert_listing, get_listing_by_olx_id}
use real_estate_robot.Storage.Listings.Keys.{get_listing-upsert, upserted as upserted_listing}
use real_estate_robot.Runtime.Env.{Env, World, M, Message, acked, done}
use real_estate_robot.Queue.Names.{queue_sellers_enrich}
use real_estate_robot.Queue.Publisher.{publish, publishing, work_message}
use real_estate_robot.Parser.Page.{Parsed, Reading}
use real_estate_robot.Parser.Worker.{
  Json as ParserJson, seller_id, save, save_seller, save_listing, save_snapshot, store,
}
use real_estate_robot.Parser.Worker.Transactions.{Transacted, Saved, saved}
use real_estate_robot.Parser.Worker.Atomicity.{Kept, nothing, everything, rows_alone, store-Kept}

upserted-id :
    (now : Time) (n : ℕ) (p : UpsertSellerParams) (o : Option Seller)
    → (upserted now n p o).id ≡ elim o [ none ↦ n | some s ↦ s.id ]
upserted-id now n p none = refl
upserted-id now n p (some s) = refl

-- The row that UpsertSeller leaves has the number that it returns.
get_seller-upsert_id :
    (now : Time) (n : ℕ) (p : UpsertSellerParams) (table : List Seller)
    → (s : Seller) × (get_seller_by_olx_id p.olx_user_id (upsert_seller now n p table) ≡ some s)
      × (s.id ≡ seller_id p.olx_user_id n table)
get_seller-upsert_id now n p table = (
  upserted now n p (get_seller_by_olx_id p.olx_user_id table),
  ground (arith, get_seller-upsert now n p p.olx_user_id table, eq_iff p.olx_user_id p.olx_user_id),
  upserted-id now n p (get_seller_by_olx_id p.olx_user_id table),
)

-- The row that UpsertListing leaves refers to the seller of its parameters.
get_listing-upsert_seller :
    (now : Time) (n : ℕ) (p : UpsertListingParams) (table : List Listing)
    → (l : Listing) × (get_listing_by_olx_id p.olx_listing_id (upsert_listing now n p table)
        ≡ some l)
      × (l.seller_id ≡ p.seller_id)
get_listing-upsert_seller now n p table = (
  upserted_listing now n p (get_listing_by_olx_id p.olx_listing_id table),
  ground (
    arith,
    get_listing-upsert now n p p.olx_listing_id table,
    eq_iff p.olx_listing_id p.olx_listing_id,
  ),
  elim (Option-cases (get_listing_by_olx_id p.olx_listing_id table)) [
    | inl h ↦ rw h refl
    | inr (l, h) ↦ rw h refl
  ],
)

module _ (json : ParserJson) where
  -- The listing's row stands in the table with the number of its seller's row, and the enrichment
  -- of the seller is confirmed.
  pub record Arrived (res : Parsed) (before : List Message) (after : Result (Unit {0}) × World)
      : Type 0 where
    pub worked : after.0 ≡ ok tt
    pub seller : Seller
    pub known : get_seller_by_olx_id res.seller.olx_user_id after.1.db.sellers ≡ some seller
    pub listing : Listing
    pub listed : get_listing_by_olx_id res.listing.olx_listing_id after.1.db.listings ≡ some listing
    pub owned : listing.seller_id ≡ some seller.id
    pub message : Message
    pub routed : message.routing_key ≡ queue_sellers_enrich
    pub asked : message.body ≡ json.encode_next res.seller.olx_user_id
    pub confirmed : after.1.confirmed ≡ before ++ message ∷ []

module _ (env : Env) (acks : (n : ℕ) → env.broker n ≡ acked)
    (answers : (n : ℕ) → env.database n ≡ done) (reading : Reading) (json : ParserJson)
    (begin_func : M (Unit {0}) → M (Unit {0}))
    (atomic : (body : M (Unit {0})) (w : World) → Transacted body w (begin_func body w))
    (commits : (body : M (Unit {0})) (w : World)
      → ((v : World) → (body v).0 ≡ ok tt)
      → (begin_func body w).0 ≡ ok tt) where
  save-works : (res : Parsed) (w : World) → (save env reading json res w).0 ≡ ok tt
  unfolding save save_seller save_listing save_snapshot
  save-works res w =
      let a = answers w.ticks in
      let b = answers (suc w.ticks) in let c = answers (suc (suc w.ticks)) in ground arith

  store-works : (res : Parsed) (w : World) → (store env reading json begin_func res w).0 ≡ ok tt
  unfolding store publish publishing
  store-works res w =
      let c = commits (save env reading json res) w (save-works res) in
      let a = acks (begin_func (save env reading json res) w).1.ticks in ground arith

  Saved-Arrived :
      (res : Parsed) (w v : World) {after : Result (Unit {0}) × World}
      → after.0 ≡ ok tt
      → Saved env reading json res w.db after.1.db
      → after.1.confirmed
        ≡ w.confirmed
          ++ work_message env queue_sellers_enrich (json.encode_next res.seller.olx_user_id) v ∷ []
      → Arrived json res w.confirmed after
  Saved-Arrived res w v o (saved t1 t2 t3 n1 n2 n3 sellers listings snapshots fetches) c =
      let (s, k, i) = get_seller-upsert_id t1 n1 _ w.db.sellers in
      let (l, f, q) = get_listing-upsert_seller t2 n2 _ w.db.listings in
      record {
        worked = o;
        seller = s;
        known = ap (get_seller_by_olx_id res.seller.olx_user_id) sellers ∙ k;
        listing = l;
        listed = ap (get_listing_by_olx_id res.listing.olx_listing_id) listings ∙ f;
        owned = q ∙ ap some (sym i);
        message = work_message env queue_sellers_enrich (json.encode_next res.seller.olx_user_id) v;
        routed = refl;
        asked = refl;
        confirmed = c;
      }

  Kept-Arrived :
      (res : Parsed) (w : World) {after : Result (Unit {0}) × World}
      → after.0 ≡ ok tt
      → Kept env reading json begin_func res w after
      → Arrived json res w.confirmed after
  Kept-Arrived res w o (nothing e x d s c) = ground arith
  Kept-Arrived res w o (everything v x s c) = Saved-Arrived res w v x s c
  Kept-Arrived res w o (rows_alone e x s c) = ground arith

  pub store-Arrived :
      (res : Parsed) (w : World)
      → Arrived json res w.confirmed (store env reading json begin_func res w)
  store-Arrived res w =
      Kept-Arrived res w (store-works res w) (store-Kept env reading json begin_func atomic res w)
