-- ===== src/Api/Handlers/Totals.antt =====
-- The numbers of GET /api/stats.
use Prim.Native.Nat.{◌+◌}
use real_estate_robot.Base.{
  ℕ, suc, ◌≡◌, refl, ap, ◌≢◌, ◌⊎◌, inl, inr, Bool, true, false, ◌||◌, none, List, [], ◌∷◌, map,
  length, if◌then◌else◌, arith,
}
use real_estate_robot.Base.Values.{Float64, ok}
use real_estate_robot.Runtime.Env.{Env, World, done, tick}
use real_estate_robot.Runtime.Actions.{query-cases}
use real_estate_robot.Classification.Score.{Calendar}
use real_estate_robot.Classification.Views.{SellerClassification, classifications_in}
use real_estate_robot.Classification.Queries.{
  bump, group_by, same_bool, scores_of, counts_row, groups_of, get_seller_counts,
  get_last_parsed_at,
}
use real_estate_robot.Api.{Server, Stats, Formats, Reply, stats}
use real_estate_robot.Api.Handlers.{no_stats, last_parsed, stats_reply, get_stats}
use real_estate_robot.Api.Replies.{fill_row, fill, reply, query_failed}

-- The sellers of one kind in the view.
abbrev pub sellers_in : Bool → List SellerClassification → ℕ
sellers_in b [] = 0
sellers_in b (r ∷ rest) =
    if same_bool r.is_business b then suc (sellers_in b rest) else sellers_in b rest

length-scores_of :
    (b : Bool) (view : List SellerClassification) → length (scores_of b view) ≡ sellers_in b view
unfolding scores_of
length-scores_of b [] = refl
length-scores_of b (r ∷ rest) = ground (arith, length-scores_of b rest)

abbrev has : Bool → List Bool → Bool
has b [] = false
has b (k ∷ rest) = same_bool k b || has b rest

has-bump :
    (b k : Bool) (groups : List (Bool × ℕ))
    → has b (map (λ g. g.0) (bump same_bool k groups))
      ≡ (same_bool k b || has b (map (λ g. g.0) groups))
unfolding bump
has-bump b k [] = refl
has-bump b k (g ∷ groups) = ground (arith, has-bump b k groups)

-- A kind is a group where it occurs.
has-groups_of :
    (b : Bool) (view : List SellerClassification)
    → sellers_in b view ≡ (if has b (groups_of view) then sellers_in b view else 0)
unfolding groups_of group_by
has-groups_of b [] = refl
has-groups_of b (r ∷ rest) = ground (
  arith,
  has-groups_of b rest,
  has-bump b r.is_business (group_by same_bool (map (λ s. s.is_business) rest)),
)

module _ (average : List ℕ → Float64) (view : List SellerClassification) where
  private_sellers-fill :
      (st : Stats) (groups : List Bool)
      → (fill st (map (counts_row average view) groups)).private_sellers
        ≡ (if has false groups then sellers_in false view else st.private_sellers)
  unfolding fill
  private_sellers-fill st [] = refl
  private_sellers-fill st (true ∷ rest) = private_sellers-fill _ rest
  private_sellers-fill st (false ∷ rest) = ground (
    arith,
    length-scores_of false view,
    private_sellers-fill (fill_row st (counts_row average view false)) rest,
  )

  business_sellers-fill :
      (st : Stats) (groups : List Bool)
      → (fill st (map (counts_row average view) groups)).business_sellers
        ≡ (if has true groups then sellers_in true view else st.business_sellers)
  unfolding fill
  business_sellers-fill st [] = refl
  business_sellers-fill st (false ∷ rest) = business_sellers-fill _ rest
  business_sellers-fill st (true ∷ rest) = ground (
    arith,
    length-scores_of true view,
    business_sellers-fill (fill_row st (counts_row average view true)) rest,
  )

sellers_in_both :
    (view : List SellerClassification) → sellers_in false view + sellers_in true view ≡ length view
sellers_in_both [] = refl
sellers_in_both (r ∷ rest) = ground (arith, sellers_in_both rest)

fill-get_seller_counts :
    (average : List ℕ → Float64) (st : Stats) (view : List SellerClassification)
    → st.private_sellers ≡ 0
    → st.business_sellers ≡ 0
    → ((fill st (get_seller_counts average view)).private_sellers ≡ sellers_in false view)
      × ((fill st (get_seller_counts average view)).business_sellers ≡ sellers_in true view)
unfolding get_seller_counts
fill-get_seller_counts average st view p b = (
  ground (arith, private_sellers-fill average view st (groups_of view), has-groups_of false view),
  ground (arith, business_sellers-fill average view st (groups_of view), has-groups_of true view),
)

module _ (env : Env) (calendar : Calendar) (formats : Formats) (server : Server) where
  abbrev pub sellers_view : World → List SellerClassification
  sellers_view w = classifications_in calendar (env.db_clock w.ticks) w.db

  -- What a request for the statistics is answered with.
  pub data Totaled (w : World) : Reply → Type 0 where
    unavailable : env.database w.ticks ≢ done → Totaled w query_failed
    totaled :
        (st : Stats)
        → st.private_sellers ≡ sellers_in false (sellers_view w)
        → st.business_sellers ≡ sellers_in true (sellers_view w)
        → st.private_sellers + st.business_sellers ≡ length (sellers_view w)
        → (st.last_parsed_at ≡ none)
          ⊎ (st.last_parsed_at
              ≡ last_parsed env calendar formats server (ok (get_last_parsed_at w.db.listings)))
        → Totaled w (reply 200 (stats st))

  stats_reply-Totaled :
      (w : World)
      → Totaled w
          (stats_reply env calendar formats server
            (ok (get_seller_counts formats.average (sellers_view w)))
            (tick w)).0
  unfolding stats_reply
  stats_reply-Totaled w =
      let zeros : Stats = no_stats env calendar formats server in
      let counts : (_ ≡ _) × (_ ≡ _) =
        fill-get_seller_counts formats.average zeros (sellers_view w) refl refl in
      totaled _ counts.0 counts.1
        (ground (arith, counts.0, counts.1, sellers_in_both (sellers_view w)))
        (elim (query-cases env (λ v. ok (get_last_parsed_at v.db.listings)) (tick w)) [
          | inl (d, r) ↦ inr (ap (λ a. last_parsed env calendar formats server a.0) r)
          | inr (d, (e, r)) ↦ inl (ap (λ a. last_parsed env calendar formats server a.0) r)
        ])

  -- The statistics are answered 500 where the first query fails. Else their numbers of private and
  -- of business sellers are those of the view's rows of each kind, also where there are none, and
  -- add up to the rows of the view; the time is that of the last scrape, or absent.
  pub get_stats-Totaled : (w : World) → Totaled w (get_stats env calendar formats server w).0
  unfolding get_stats stats_reply
  get_stats-Totaled w =
      elim (query-cases env (λ v. ok (get_seller_counts formats.average (sellers_view v))) w) [
        | inl (d, r) ↦ rw r (stats_reply-Totaled w)
        | inr (d, (e, r)) ↦ rw r (unavailable d)
      ]
