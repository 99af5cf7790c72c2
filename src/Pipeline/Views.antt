-- ===== src/Pipeline/Views.antt =====
-- What the API's and the ranking's views show of the tables that the workers have filled.
use real_estate_robot.Base.{
  ℕ, ◌≡◌, refl, inl, inr, str_eq, Option, some, List, [], ◌∷◌, map, arith, ◌==◌, ==_iff, All, In,
  Bool-cases, if◌then◌else◌,
}
use real_estate_robot.Base.Values.{Time}
use real_estate_robot.Storage.Rows.{Seller, Listing, SellerStat}
use real_estate_robot.Runtime.Env.{World}
use real_estate_robot.Classification.Score.{Calendar}
use real_estate_robot.Classification.Views.{
  SellerClassification, ListingsWithClassification, classify, seller_classifications, seller_of,
  with_classification, listings_in,
}
use real_estate_robot.Pipeline.{Wire}
use real_estate_robot.Pipeline.Tables.{seller_ids, IsOwned}
use real_estate_robot.Pipeline.System.{History, History-IsSound}

-- The active listings with the numbers of their sellers, in the order of the table.
pub active_pairs : List Listing → List (ℕ × Option ℕ)
active_pairs [] = []
active_pairs (l ∷ rest) =
    let others = active_pairs rest in
    if str_eq l.status "active" then (l.id, l.seller_id) ∷ others else others

abbrev pub pair_of : ListingsWithClassification → ℕ × Option ℕ
pair_of r = (r.listing_id, some r.seller_id)

module _ (calendar : Calendar) (now : Time) (stats : List SellerStat) where
  -- A listing whose seller stands in the table finds it in the view.
  seller_of-some :
      (l : Listing) (n : ℕ) (sellers : List Seller)
      → l.seller_id ≡ some n
      → In n (seller_ids sellers)
      → (sc : SellerClassification) × (seller_of l
            (seller_classifications calendar now stats sellers)
          ≡ some sc)
        × (sc.seller_id ≡ n)
  unfolding seller_classifications classify
  seller_of-some l n [] e i = elim i [ ]
  seller_of-some l n (s ∷ rest) e i = elim (Bool-cases (n == s.id)) [
    | inl same ↦ (
      classify calendar now stats s,
      ground (arith, ==_iff n s.id),
      ground (arith, ==_iff n s.id),
    )
    | inr other ↦
        let later : In n (seller_ids rest) = elim i [
          | inl k ↦ absurd (ground (arith, ==_iff n s.id))
          | inr k ↦ k
        ] in
        let (sc, found, number) = seller_of-some l n rest e later in (sc, ground arith, number)
  ]

  pairs-with_classification :
      (sellers : List Seller) (listings : List Listing)
      → All (IsOwned (seller_ids sellers)) listings
      → map pair_of
          (with_classification (seller_classifications calendar now stats sellers) listings)
        ≡ active_pairs listings
  unfolding with_classification active_pairs
  pairs-with_classification sellers [] h = refl
  pairs-with_classification sellers (l ∷ rest) h =
      let ih = pairs-with_classification sellers rest h.1 in
      let (n, e, i) = h.0 in
      let (sc, found, number) = seller_of-some l n sellers e i in
      elim (Bool-cases (str_eq l.status "active")) [
        | inl active ↦ rw (active, found, number, e, ih) refl
        | inr other ↦ rw (other, ih) refl
      ]

-- After any history, the view of the API's listings shows every active listing once, in the order
-- of the table, each with the seller that its row refers to: the joins lose none.
pub listings_in_complete :
    (wire : Wire) {w : World} (h : History wire w) (calendar : Calendar) (now : Time)
    → map pair_of (listings_in calendar now w.db) ≡ active_pairs w.db.listings
listings_in_complete wire {w} h calendar now =
    pairs-with_classification calendar now w.db.seller_stats w.db.sellers w.db.listings
      (History-IsSound wire h).owned
