-- ===== src/Pipeline/Counts.antt =====
-- What a refresh makes of the sellers' counts.
use real_estate_robot.Base.{
  ℕ, ◌≡◌, ◌≢◌, length, refl, sym, subst, ap, ◌∙◌, inl, inr, false, List, [], ◌∷◌, ◌==◌, ==_iff, All,
  All-In, All-mono, In, Bool-cases,
}
use real_estate_robot.Base.Values.{Time}
use real_estate_robot.Storage.Rows.{Seller, Listing, SellerStat}
use real_estate_robot.Runtime.Env.{World}
use real_estate_robot.Classification.Score.{Calendar}
use real_estate_robot.Classification.Views.{
  SellerClassification, stat_of, seller_stats, joined_count, classify, seller_classifications,
  classifications_in,
}
use real_estate_robot.Classification.Queries.{refresh_seller_stats}
use real_estate_robot.Pipeline.{Wire}
use real_estate_robot.Pipeline.Tables.{seller_ids, IsNumbered}
use real_estate_robot.Pipeline.System.{History, History-IsSound}
use real_estate_robot.Pipeline.Columns.{active_of, Values, count_active-listings_of, column-Values}

-- The counts of a row are those of the seller's own listings.
pub record IsCounted (listings : List Listing) (r : SellerClassification) : Type 0 where
  pub active : r.listings_active ≡ length (active_of r.seller_id listings)
  pub districts : Values (λ l. l.district) r.seller_id listings r.districts_count
  pub cities : Values (λ l. l.city) r.seller_id listings r.cities_count

In-seller_ids : (s : Seller) (table : List Seller) → In s table → In s.id (seller_ids table)
In-seller_ids s [] i = elim i [ ]
In-seller_ids s (t ∷ rest) (inl e) = inl (ap (λ r. r.id) e)
In-seller_ids s (t ∷ rest) (inr i) = inr (In-seller_ids s rest i)

All-self : (table : List Seller) → All (λ s. In s table) table
All-self [] = tt
All-self (s ∷ rest) =
    (inl refl, All-mono (λ r. In r rest) (λ r. In r (s ∷ rest)) rest (λ r i. inr i) (All-self rest))

differs : (a b : ℕ) → b ≢ a → (a == b) ≡ false
differs a b n = elim (Bool-cases (a == b)) [
  | inl same ↦ absurd (n (sym ((==_iff a b).0 same)))
  | inr other ↦ other
]

joined-cons_own :
    (field : SellerStat → ℕ) (ss : SellerStat) (stats : List SellerStat)
    → joined_count field ss.seller_id (ss ∷ stats) ≡ field ss
joined-cons_own field ss stats = rw ((==_iff ss.seller_id ss.seller_id).1 refl, joined_count) refl

joined-cons_other :
    (field : SellerStat → ℕ) (seller : ℕ) (ss : SellerStat) (stats : List SellerStat)
    → (ss.seller_id == seller) ≡ false
    → joined_count field seller (ss ∷ stats) ≡ joined_count field seller stats
joined-cons_other field seller ss stats other = rw (other, joined_count) refl

-- With different numbers, the statistics that a seller's number finds are the seller's own.
joined-seller_stats :
    (field : SellerStat → ℕ) (listings : List Listing) (last : ℕ) (s : Seller) (table : List Seller)
    → IsNumbered last (seller_ids table)
    → In s table
    → joined_count field s.id (seller_stats listings table) ≡ field (stat_of listings s)
unfolding seller_stats
joined-seller_stats field listings last s [] h i = elim i [ ]
joined-seller_stats field listings last s (t ∷ rest) h (inl e) =
    subst
      (λ r. joined_count field r.id (seller_stats listings (t ∷ rest)) ≡ field (stat_of listings r))
      e (joined-cons_own field (stat_of listings t) (seller_stats listings rest))
joined-seller_stats field listings last s (t ∷ rest) h (inr i) =
    let other : (t.id == s.id) ≡ false =
      differs t.id s.id
        (All-In (λ m. m ≢ t.id) s.id (seller_ids rest) h.1 (In-seller_ids s rest i)) in
    joined-cons_other field s.id (stat_of listings t) (seller_stats listings rest) other
    ∙ joined-seller_stats field listings last s rest h.2 i

module _ (calendar : Calendar) (now : Time) (listings : List Listing) (last : ℕ)
    (table : List Seller) (numbered : IsNumbered last (seller_ids table)) where
  classify-IsCounted :
      (s : Seller)
      → In s table
      → IsCounted listings (classify calendar now (seller_stats listings table) s)
  unfolding classify
  classify-IsCounted s i = record {
    active =
        joined-seller_stats (λ ss. ss.listings_active) listings last s table numbered i
        ∙ count_active-listings_of s.id listings;
    districts =
        subst (Values (λ l. l.district) s.id listings)
          (sym (joined-seller_stats (λ ss. ss.districts_count) listings last s table numbered i))
          (column-Values (λ l. l.district) s.id listings);
    cities =
        subst (Values (λ l. l.city) s.id listings)
          (sym (joined-seller_stats (λ ss. ss.cities_count) listings last s table numbered i))
          (column-Values (λ l. l.city) s.id listings);
  }

  rows-IsCounted :
      (rows : List Seller)
      → All (λ s. In s table) rows
      → All
          (IsCounted listings)
          (seller_classifications calendar now (seller_stats listings table) rows)
  unfolding seller_classifications
  rows-IsCounted [] h = tt
  rows-IsCounted (s ∷ rest) h = (classify-IsCounted s h.0, rows-IsCounted rest h.1)

-- After any history, a refresh makes the view of the sellers count for each of them the listings in
-- the table that refer to the seller and are active, and the different districts and cities of the
-- listings that refer to the seller.
pub refresh_seller_stats-IsCounted :
    (wire : Wire) {w : World} (h : History wire w) (calendar : Calendar) (now : Time)
    → All (IsCounted w.db.listings) (classifications_in calendar now (refresh_seller_stats w.db))
unfolding refresh_seller_stats
refresh_seller_stats-IsCounted wire {w} h calendar now =
    rows-IsCounted calendar now w.db.listings w.serials.seller w.db.sellers
      (History-IsSound wire h).sellers_numbered w.db.sellers (All-self w.db.sellers)
