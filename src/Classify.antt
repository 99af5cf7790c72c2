-- ===== src/Classify.antt =====
-- cmd/classify/main.go: the ranking of sellers as a table of texts. The deadline of the context is
-- among the database's errors, and one reading of the clock stands for those of all rows.
pub mod Ranks
mod Tests
use Prim.Native.String.{◌++◌}
use real_estate_robot.Base.{
  ℕ, suc, ◌-◌, ◌/◌, String, str_eq, leb, Bool, Option, none, some, List, [], ◌∷◌, take, length,
  if◌then◌else◌,
}
use real_estate_robot.Base.Int.{ℤ, pos, pos_part, ltb_ℤ}
use real_estate_robot.Base.Values.{
  Time, Duration, Float64, Text, Timestamptz, Error, Result, ok, err,
}
use real_estate_robot.Runtime.Env.{Env, World, M}
use real_estate_robot.Runtime.Actions.{query, statement}
use real_estate_robot.Classification.Score.{Calendar}
use real_estate_robot.Classification.Views.{SellerClassification, classifications_in}
use real_estate_robot.Classification.Queries.{
  TopRealSellersParams, top_real_sellers, refresh_seller_stats,
}
use real_estate_robot.Api.{int32}

pub record Flags : Type 0 where
  pub limit : ℤ
  pub min_listings : ℤ
  pub refresh : Bool

-- How main ends: with an error, without a row, or with a table of rows of cells.
pub data Exit : Type 0 where
  failed : String → Exit
  no_sellers : Exit
  ranking : List (List String) → Exit

-- What fmt, strconv, time and pgtype do for the table, and the conversions to runes and back.
pub record Printing : Type 0 where
  pub itoa : ℤ → String  -- %d
  pub runes : String → List ℕ
  pub of_runes : List ℕ → String
  pub float_of : ℤ → Option Float64  -- Float64Value of hundredths
  pub format_float : ℕ → Float64 → String  -- 'f', with so many digits
  pub since : Time → Time → Duration  -- Sub, of now and a time
  pub whole_days : Duration → ℤ  -- int(d.Hours() / 24)

abbrev pub text_or : Text → String → String
text_or none fallback = fallback
text_or (some t) fallback = t

abbrev pub bool_pretty : Bool → String
bool_pretty b = if b then "✓" else "·"

module _ (printing : Printing) where
  -- for a positive n, as main gives it
  unfoldable pub truncate : String → ℕ → String
  truncate s n =
      if leb (length (printing.runes s)) n
      then s
      else printing.of_runes (take (n - 1) (printing.runes s)) ++ "…"

  -- of a number of hundredths; the view's columns are not NULL
  unfoldable pub numeric_pretty : ℤ → ℕ → String
  numeric_pretty n decimals = elim (printing.float_of n) [
    | none ↦ "?"
    | some f ↦ printing.format_float decimals f
  ]

  -- the switch on the number of days
  unfoldable pub age_of : ℤ → String
  age_of days =
      if ltb_ℤ days (pos 30)
      then printing.itoa days ++ "d"
      else if ltb_ℤ days (pos 365)
      then printing.itoa (pos (pos_part days / 30)) ++ "mo"
      else printing.itoa (pos (pos_part days / 365)) ++ "y"

  unfoldable pub age_days : Time → Timestamptz → String
  age_days now none = "?"
  age_days now (some t) = age_of (printing.whole_days (printing.since now t))

  -- the cells of one row of the table
  unfoldable pub cells : Time → ℕ → SellerClassification → List String
  cells now rank r =
      printing.itoa (pos rank)
      ∷ numeric_pretty (pos r.real_seller_score) 2
      ∷ truncate (text_or r.display_name "?") 28
      ∷ bool_pretty r.is_business
      ∷ printing.itoa (pos r.listings_active)
      ∷ printing.itoa (pos r.districts_count)
      ∷ age_days now r.registered_at
      ∷ numeric_pretty r.score_personhood 2
      ∷ numeric_pretty (pos r.score_listings_count) 2
      ∷ numeric_pretty (pos r.score_geography) 2
      ∷ numeric_pretty (pos r.score_account_age) 2
      ∷ []

  -- the loop over the rows, from a rank on
  unfoldable pub table : Time → ℕ → List SellerClassification → List (List String)
  table now rank [] = []
  table now rank (r ∷ rows) = cells now rank r ∷ table now (suc rank) rows

  abbrev pub printed : Time → Result (List SellerClassification) → Exit
  printed now (err e) = failed "query"
  printed now (ok []) = no_sellers
  printed now (ok (r ∷ rows)) = ranking (table now 1 (r ∷ rows))

module _ (env : Env) (calendar : Calendar) (printing : Printing) where
  -- if *refresh { … }
  unfoldable pub refreshed : Bool → M (Unit {0})
  refreshed refresh w =
      if refresh
      then statement env (λ now v. (tt, record v { db = refresh_seller_stats v.db })) w
      else (ok tt, w)

  abbrev pub params_of : Flags → TopRealSellersParams
  params_of flags = record {
    min_active_listings = int32 flags.min_listings;
    limit = int32 flags.limit;
  }

  abbrev pub rows_of : Flags → World → Result (List SellerClassification)
  rows_of flags w =
      top_real_sellers (params_of flags) (classifications_in calendar (env.db_clock w.ticks) w.db)

  unfoldable pub ranked : Flags → World → Exit
  ranked flags w =
      let (r, v) = query env (rows_of flags) w in printed printing (env.clock v.ticks) r

  abbrev pub go_on : Flags → Result (Unit {0}) × World → Exit
  go_on flags (err e, w) = failed "refresh seller_stats"
  go_on flags (ok _, w) = ranked flags w

  -- main, from the variable DATABASE_URL and the error of Connect
  unfoldable pub main : String → Option Error → Flags → World → Exit
  main url connect flags w =
      if str_eq url "" then failed "DATABASE_URL is not set" else elim connect [
        | some e ↦ failed "connect"
        | none ↦ go_on flags (refreshed flags.refresh w)
      ]
