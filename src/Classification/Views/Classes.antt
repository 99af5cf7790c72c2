-- ===== src/Classification/Views/Classes.antt =====
-- What the view's score says of a seller.
use real_estate_robot.Base.{
  ℕ, ◌≤◌, str_eq, ◌≡◌, ◌≢◌, refl, sym, ap, ◌∙◌, inl, inr, true, false, Bool-cases, none, some, List,
  arith, eq_iff,
}
use real_estate_robot.Base.Values.{Time, Text}
use real_estate_robot.Storage.Rows.{Seller, SellerStat}
use real_estate_robot.Classification.Score.{Calendar, formula, real_seller_score}
use real_estate_robot.Classification.Score.Bounds.{
  score_listings_count-le, score_geography-le, score_account_age-le, formula-le, formula-private,
  formula-business,
}
use real_estate_robot.Classification.Views.{classify}

-- A score in hundredths, by the seller's label and kind.
pub data Scored (s : Seller) (n : ℕ) : Type 0 where
  owner : s.manual_label ≡ some "owner" → n ≡ 100 → Scored s n
  agency : s.manual_label ≡ some "agency" → n ≡ 0 → Scored s n
  private :
      s.manual_label ≢ some "owner"
      → s.manual_label ≢ some "agency"
      → s.is_business ≡ false
      → 30 ≤ n
      → n ≤ 100
      → Scored s n
  business :
      s.manual_label ≢ some "owner"
      → s.manual_label ≢ some "agency"
      → s.is_business ≡ true
      → n ≤ 20
      → Scored s n

formula-Scored :
    (s : Seller) (c g a : ℕ)
    → s.manual_label ≢ some "owner"
    → s.manual_label ≢ some "agency"
    → c ≤ 30
    → g ≤ 20
    → a ≤ 20
    → Scored s (formula s.is_business c g a)
formula-Scored s c g a o b hc hg ha = elim (Bool-cases s.is_business) [
  | inl e ↦ business o b e (rw e (formula-business c g a hc hg ha))
  | inr e ↦ private o b e (rw e (formula-private c g a hc hg ha)) (formula-le s.is_business c g a)
]

real_seller_score-Scored :
    (s : Seller) (label : Text) (c g a : ℕ)
    → s.manual_label ≡ label
    → c ≤ 30
    → g ≤ 20
    → a ≤ 20
    → Scored s (real_seller_score label (formula s.is_business c g a))
unfolding real_seller_score
real_seller_score-Scored s none c g a e hc hg ha =
    formula-Scored s c g a (λ k. ground (arith, sym e ∙ k)) (λ k. ground (arith, sym e ∙ k)) hc hg
      ha
real_seller_score-Scored s (some l) c g a e hc hg ha = elim (Bool-cases (str_eq l "owner")) [
  | inl o ↦ rw o (owner (e ∙ ap some ((eq_iff l "owner").0 o)) refl)
  | inr o ↦ elim (Bool-cases (str_eq l "agency")) [
    | inl b ↦ rw (o, b) (agency (e ∙ ap some ((eq_iff l "agency").0 b)) refl)
    | inr b ↦
        rw (o, b)
          (formula-Scored s c g a (λ k. ground (arith, sym e ∙ k, eq_iff l "owner"))
            (λ k. ground (arith, sym e ∙ k, eq_iff l "agency")) hc hg ha)
  ]
]

-- In the view, a seller labelled owner scores 1.00 and one labelled agency 0.00; without such a
-- label a private seller scores from 0.30 to 1.00 and a business seller at most 0.20, whatever
-- the statistics and the registration date are.
pub classify-Scored :
    (calendar : Calendar) (now : Time) (stats : List SellerStat) (s : Seller)
    → Scored s (classify calendar now stats s).real_seller_score
unfolding classify
classify-Scored calendar now stats s =
    real_seller_score-Scored s s.manual_label _ _ _ refl (score_listings_count-le _)
      (score_geography-le _) (score_account_age-le calendar now s.registered_at)
