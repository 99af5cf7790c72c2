-- ===== src/Classify/Ranks.antt =====
-- What the ranking shows.
use mathlib.Core.List.{Perm}
use real_estate_robot.Base.{
  ℕ, ◌<◌, ◌≤◌, ltb, ◌++◌, length, ◌⊎◌, All, All-mono, subst, if◌then◌else◌, ◌≡◌, ◌≢◌, ap, ◌∙◌, inl,
  inr, Bool-cases, String, str_eq, true, refl, Option, Option-cases, none, some, List, [], ◌∷◌,
  arith,
}
use real_estate_robot.Base.Int.{ℤ, pos, leb_ℤ}
use real_estate_robot.Base.Sort.{IsTop, IsOrdered}
use real_estate_robot.Base.Values.{Error, ok, err}
use real_estate_robot.Runtime.Env.{Env, World, done, Result-cases, tick}
use real_estate_robot.Runtime.Actions.{query-cases}
use real_estate_robot.Classification.Score.{Calendar}
use real_estate_robot.Classification.Views.{SellerClassification, classifications_in}
use real_estate_robot.Classification.Queries.{selected, seller_before}
use real_estate_robot.Classification.Queries.Ranking.{top_real_sellers_pos, top_real_sellers-IsTop}
use real_estate_robot.Api.{int32}
use real_estate_robot.Classify.{
  Flags, Exit, failed, no_sellers, ranking, Printing, table, printed, refreshed, params_of, rows_of,
  ranked, go_on, main,
}

-- ORDER BY real_seller_score DESC, listings_active DESC, seller_id ASC
abbrev pub Outranks : SellerClassification → SellerClassification → Type 0
Outranks a b =
    (b.real_seller_score < a.real_seller_score)
    ⊎ ((a.real_seller_score ≡ b.real_seller_score)
        × ((b.listings_active < a.listings_active)
            ⊎ ((a.listings_active ≡ b.listings_active) × (a.seller_id ≤ b.seller_id))))

-- Each row outranks all behind it.
abbrev pub IsRanked : List SellerClassification → Type 0
IsRanked [] = Unit
IsRanked (r ∷ rows) = All (Outranks r) rows × IsRanked rows

-- The rows are the n best of a table, or all where there are no more, in their order.
pub record Best (n : ℕ) (table rows : List SellerClassification) : Type 0 where
  pub rest : List SellerClassification
  pub whole : Perm (rows ++ rest) table
  pub descending : IsRanked rows
  pub best : All (λ r. All (Outranks r) rest) rows
  pub bounded : length rows ≤ n
  pub full : (length rows ≡ n) ⊎ (rest ≡ [])

-- The rows with at least so many active listings.
pub with_at_least : ℤ → List SellerClassification → List SellerClassification
with_at_least least [] = []
with_at_least least (r ∷ rows) =
    let others = with_at_least least rows in
    if leb_ℤ least (pos r.listings_active) then r ∷ others else others

selected-with_at_least :
    (least : ℤ) (rows : List SellerClassification)
    → selected (λ r. leb_ℤ least (pos r.listings_active)) rows ≡ with_at_least least rows
unfolding selected with_at_least
selected-with_at_least least [] = refl
selected-with_at_least least (r ∷ rows) =
    let ih = selected-with_at_least least rows in
    elim (Bool-cases (leb_ℤ least (pos r.listings_active))) [
      | inl enough ↦ rw enough (ap (λ l. r ∷ l) ih)
      | inr few ↦ rw few ih
    ]

seller_before-Outranks : (a b : SellerClassification) → seller_before a b ≡ true → Outranks a b
unfolding seller_before
seller_before-Outranks a b h = elim (Bool-cases (ltb b.real_seller_score a.real_seller_score)) [
  | inl more ↦ inl (ground arith)
  | inr other ↦ elim (Bool-cases (ltb b.listings_active a.listings_active)) [
    | inl more ↦ inr (ground arith, inl (ground arith))
    | inr less ↦ inr (ground arith, inr (ground arith, ground arith))
  ]
]

IsOrdered-IsRanked :
    (rows : List SellerClassification) → IsOrdered seller_before rows → IsRanked rows
IsOrdered-IsRanked [] h = tt
IsOrdered-IsRanked (r ∷ rows) h = (
  All-mono (λ x. seller_before r x ≡ true) (Outranks r) rows (seller_before-Outranks r) h.0,
  IsOrdered-IsRanked rows h.1,
)

IsTop-Best :
    (n : ℕ) (table rows : List SellerClassification)
    → IsTop seller_before n table rows
    → Best n table rows
IsTop-Best n table rows t = record {
  rest = t.rest;
  whole = t.whole;
  descending = IsOrdered-IsRanked rows t.ordered;
  best =
      All-mono (λ a. All (λ r. seller_before a r ≡ true) t.rest) (λ a. All (Outranks a) t.rest) rows
        (λ a h.
          All-mono (λ r. seller_before a r ≡ true) (Outranks a) t.rest (seller_before-Outranks a) h)
        t.best;
  bounded = t.bounded;
  full = t.full;
}

selected-Best :
    (n : ℕ) (least : ℤ) (table rows : List SellerClassification)
    → IsTop seller_before n (selected (λ r. leb_ℤ least (pos r.listings_active)) table) rows
    → Best n (with_at_least least table) rows
selected-Best n least table rows t =
    subst (λ l. Best n l rows) (selected-with_at_least least table) (IsTop-Best n _ rows t)

int32_small : (n : ℕ) → n < 2_147_483_648 → int32 (pos n) ≡ pos n
unfolding int32
int32_small n h = ground arith

module _ (env : Env) (calendar : Calendar) (printing : Printing) where
  -- The rows of the view with enough active listings, at the time of the query.
  abbrev pub eligible : Flags → World → List SellerClassification
  eligible flags w =
      with_at_least (int32 flags.min_listings)
        (classifications_in calendar (env.db_clock w.ticks) w.db)

  -- What is printed of a limit and of the world of the query: the first rows by score, numbered
  -- from 1, or the message where there are none.
  pub data Ranked (flags : Flags) (n : ℕ) (w : World) : Exit → Type 0 where
    unavailable : env.database w.ticks ≢ done → Ranked flags n w (failed "query")
    nobody : Best n (eligible flags w) [] → Ranked flags n w no_sellers
    sellers :
        (r : SellerClassification) (rows : List SellerClassification)
        → Best n (eligible flags w) (r ∷ rows)
        → Ranked flags n w (ranking (table printing (env.clock (tick w).ticks) 1 (r ∷ rows)))

  -- How main ends.
  pub data Answers (url : String) (connect : Option Error) (flags : Flags) (n : ℕ) (w : World)
      : Exit → Type 0 where
    no_url : str_eq url "" ≡ true → Answers url connect flags n w (failed "DATABASE_URL is not set")
    no_connection :
        (e : Error) → connect ≡ some e → Answers url connect flags n w (failed "connect")
    not_refreshed :
        (e : Error)
        → (refreshed env calendar printing flags.refresh w).0 ≡ err e
        → Answers url connect flags n w (failed "refresh seller_stats")
    answered :
        (exit : Exit)
        → (refreshed env calendar printing flags.refresh w).0 ≡ ok tt
        → Ranked flags n (refreshed env calendar printing flags.refresh w).1 exit
        → Answers url connect flags n w exit

  printed-Ranked :
      (flags : Flags) (n : ℕ) (w : World) (rows : List SellerClassification)
      → Best n (eligible flags w) rows
      → Ranked flags n w (printed printing (env.clock (tick w).ticks) (ok rows))
  printed-Ranked flags n w [] h = nobody h
  printed-Ranked flags n w (r ∷ rows) h = sellers r rows h

  ranked-Ranked :
      (flags : Flags) (n : ℕ) (w : World)
      → flags.limit ≡ pos n
      → n < 2_147_483_648
      → Ranked flags n w (ranked env calendar printing flags w)
  unfolding ranked
  ranked-Ranked flags n w l h =
      let fits : (params_of env calendar printing flags).limit ≡ pos n =
        ap int32 l ∙ int32_small n h in
      let rows : rows_of env calendar printing flags w ≡ ok _ = top_real_sellers_pos _ n _ fits in
      elim (query-cases env (rows_of env calendar printing flags) w) [
        | inl (d, r) ↦
            rw (r, rows)
              (printed-Ranked flags n w _
                (selected-Best n _ _ _ (top_real_sellers-IsTop _ n _ _ fits rows)))
        | inr (d, (e, r)) ↦ rw r (unavailable d)
      ]

  go_on-Answers :
      (url : String) (connect : Option Error) (flags : Flags) (n : ℕ) (w : World)
      → flags.limit ≡ pos n
      → n < 2_147_483_648
      → Answers url connect flags n w
          (go_on env calendar printing flags (refreshed env calendar printing flags.refresh w))
  go_on-Answers url connect flags n w l h =
      elim (Result-cases (refreshed env calendar printing flags.refresh w).0) [
        | inl (x, r) ↦ rw (go_on, r) (answered _ r (ranked-Ranked flags n _ l h))
        | inr (e, r) ↦ rw (go_on, r) (not_refreshed e r)
      ]

  -- With a limit that is not negative and fits 32 bits, main ends with an error of one of its
  -- calls, or it prints, after the refresh that its flag asks for, the sellers with enough active
  -- listings from the highest score down, up to the limit, or that there are none: rows of one score
  -- stand by their active listings and then by their numbers, and none that is left out outranks one
  -- that is shown.
  pub main-Answers :
      (url : String) (connect : Option Error) (flags : Flags) (n : ℕ) (w : World)
      → flags.limit ≡ pos n
      → n < 2_147_483_648
      → Answers url connect flags n w (main env calendar printing url connect flags w)
  unfolding main
  main-Answers url connect flags n w l h = elim (Bool-cases (str_eq url "")) [
    | inl u ↦ rw (u, main) (no_url u)
    | inr u ↦ elim (Option-cases connect) [
      | inl c ↦ rw (u, c, main) (go_on-Answers url none flags n w l h)
      | inr (e, c) ↦ rw (u, c, main) (no_connection e refl)
    ]
  ]
