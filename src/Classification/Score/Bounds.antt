-- ===== src/Classification/Score/Bounds.antt =====
-- The range of the score, and that the formula keeps private and business sellers apart.
use real_estate_robot.Base.{ℕ, ◌≤◌, Bool, true, false, none, some, arith}
use real_estate_robot.Base.Values.{Time, Text, Timestamptz}
use real_estate_robot.Classification.Score.{
  Calendar, score_personhood, score_listings_count, score_geography, score_account_age, clamp,
  formula, real_seller_score,
}

pub score_listings_count-le : (n : ℕ) → score_listings_count n ≤ 30
unfolding score_listings_count
score_listings_count-le n = ground arith

pub score_geography-le : (n : ℕ) → score_geography n ≤ 20
unfolding score_geography
score_geography-le n = ground arith

pub score_account_age-le :
    (calendar : Calendar) (now : Time) (t : Timestamptz) → score_account_age calendar now t ≤ 20
unfolding score_account_age
score_account_age-le calendar now none = omega arith
score_account_age-le calendar now (some t) = ground arith

pub formula-le : (b : Bool) (c g a : ℕ) → formula b c g a ≤ 100
unfolding formula clamp score_personhood
formula-le b c g a = ground arith

pub real_seller_score-le : (label : Text) (n : ℕ) → n ≤ 100 → real_seller_score label n ≤ 100
unfolding real_seller_score
real_seller_score-le none n h = h
real_seller_score-le (some label) n h = ground arith

pub formula-private : (c g a : ℕ) → c ≤ 30 → g ≤ 20 → a ≤ 20 → 30 ≤ formula false c g a
unfolding formula clamp score_personhood
formula-private c g a hc hg ha = ground arith

pub formula-business : (c g a : ℕ) → c ≤ 30 → g ≤ 20 → a ≤ 20 → formula true c g a ≤ 20
unfolding formula clamp score_personhood
formula-business c g a hc hg ha = ground arith
