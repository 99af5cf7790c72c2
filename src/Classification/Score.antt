-- ===== src/Classification/Score.antt =====
-- The score of migrations/0007_seller_manual_label.sql, in hundredths.
pub mod Bounds
use real_estate_robot.Base.{
  ℕ, String, str_eq, ◌==◌, ltb, leb, Bool, Option, none, some, if◌then◌else◌, ◌+◌,
}
use real_estate_robot.Base.Int.{ℤ, pos, negsuc, ◌+ℤ◌}
use real_estate_robot.Base.Values.{Time, Text, Timestamptz}

-- NOW() - INTERVAL '2 years' and NOW() - INTERVAL '6 months', by the database's calendar.
pub record Calendar : Type 0 where
  pub two_years_before : Time → Time
  pub six_months_before : Time → Time

unfoldable pub score_personhood : Bool → ℤ
score_personhood is_business = if is_business then negsuc 49 else pos 30

unfoldable pub score_listings_count : ℕ → ℕ
score_listings_count n =
    if n == 0 then 0 else if leb n 2 then 30 else if leb n 5 then 15 else if leb n 10 then 5 else 0

unfoldable pub score_geography : ℕ → ℕ
score_geography n = if leb n 1 then 20 else if n == 2 then 10 else 0

unfoldable pub score_account_age : Calendar → Time → Timestamptz → ℕ
score_account_age calendar now none = 0
score_account_age calendar now (some t) =
    if ltb t (calendar.two_years_before now)
    then 20
    else if ltb t (calendar.six_months_before now)
    then 10
    else 0

-- LEAST(1.0, GREATEST(0.0, x))
unfoldable pub clamp : ℤ → ℕ
clamp (pos n) = if leb n 100 then n else 100
clamp (negsuc n) = 0

unfoldable pub formula : Bool → ℕ → ℕ → ℕ → ℕ
formula is_business count geography age =
    clamp (score_personhood is_business +ℤ pos (count + geography + age))

-- the manual label overrides the formula
unfoldable pub real_seller_score : Text → ℕ → ℕ
real_seller_score none score = score
real_seller_score (some label) score =
    if str_eq label "owner" then 100 else if str_eq label "agency" then 0 else score
