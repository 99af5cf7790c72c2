-- ===== src/Api/Handlers/Limits.antt =====
-- What the handler of GET /api/listings replies: its limit, its order and its filters.
use real_estate_robot.Base.{
  ℕ, ◌≤◌, ◌≡◌, ◌≢◌, refl, ◌⊎◌, inl, inr, List, map, arith, ltb, if◌then◌else◌, ap, ◌∙◌, sym, subst,
}
use real_estate_robot.Base.Int.{ℤ, pos, negsuc, neg_part}
use real_estate_robot.Base.Sort.{IsTop}
use real_estate_robot.Base.Values.{ok}
use real_estate_robot.Runtime.Env.{Env, World, done}
use real_estate_robot.Runtime.Actions.{query-cases}
use real_estate_robot.Classification.Score.{Calendar}
use real_estate_robot.Classification.Views.{ListingsWithClassification}
use real_estate_robot.Classification.Queries.{passes, selected, listing_before}
use real_estate_robot.Classification.Queries.Ranking.{
  list_listings-IsTop, list_listings_pos, list_listings_neg,
}
use real_estate_robot.Api.{
  Server, Query, Reply, Formats, listings, int_param, int32, to_api_listing,
}
use real_estate_robot.Api.Handlers.{
  view, listings_reply, capped, listings_params, list_rows, get_listings,
}
use real_estate_robot.Api.Replies.{reply, query_failed}

-- The limit that a request asks for, and what the cap leaves of it.
abbrev pub asked : Formats → Query → ℤ
asked formats q = int_param formats q "limit" (pos 200)

abbrev pub cap : ℕ → ℕ
cap l = if ltb 1_000 l then 1_000 else l

int32-capped_pos : (l : ℕ) → int32 (capped (pos l)) ≡ pos (cap l)
unfolding int32 capped
int32-capped_pos l = ground arith

int32-capped_neg : (l : ℕ) → l ≤ 2_147_483_647 → int32 (capped (negsuc l)) ≡ negsuc l
unfolding int32 capped
int32-capped_neg l h = ground arith

ℤ-cases : (n : ℤ) → ((l : ℕ) × (n ≡ pos l)) ⊎ ((l : ℕ) × (n ≡ negsuc l))
ℤ-cases (pos l) = inl (l, refl)
ℤ-cases (negsuc l) = inr (l, refl)

module _ (env : Env) (calendar : Calendar) (formats : Formats) (server : Server) where
  -- The rows of the view that pass the filters of a request, at the time of its query.
  abbrev pub passing : Query → World → List ListingsWithClassification
  passing q w =
      selected (passes (env.db_clock w.ticks) (listings_params env calendar formats server q))
        (view env calendar formats server w)

  -- What a request for listings is answered with.
  pub data Listed (q : Query) (w : World) : Reply → Type 0 where
    unavailable : env.database w.ticks ≢ done → Listed q w query_failed
    below_zero : (l : ℕ) → asked formats q ≡ negsuc l → Listed q w query_failed
    listed :
        (l : ℕ)
        → asked formats q ≡ pos l
        → (rows : List ListingsWithClassification) → IsTop listing_before (cap l) (passing q w) rows
        → Listed q w (reply 200 (listings (map (to_api_listing formats) rows)))

  -- The handler replies 500 where the database does not answer or the limit that is asked for is
  -- negative; else it replies 200 with the rows that pass the filters, in order, up to the limit
  -- and never more than 1000. A limit below -2^31 is excluded.
  pub get_listings-Listed :
      (q : Query) (w : World)
      → neg_part (asked formats q) ≤ 2_147_483_648
      → Listed q w (get_listings env calendar formats server q w).0
  unfolding get_listings listings_params
  get_listings-Listed q w h = elim (query-cases env (list_rows env calendar formats server q) w) [
    | inl (d, r) ↦ rw r (elim (ℤ-cases (asked formats q)) [
      | inl (l, e) ↦
          let fits : (listings_params env calendar formats server q).limit_n ≡ pos (cap l) =
            ap (λ n. int32 (capped n)) e ∙ int32-capped_pos l in
          let rows : list_rows env calendar formats server q w ≡ ok _ =
            list_listings_pos _ _ (cap l) (view env calendar formats server w) fits in
          subst (λ k. Listed q w (listings_reply env calendar formats server k)) (sym rows)
            (listed l e _ (list_listings-IsTop _ _ (cap l) _ _ fits rows))
      | inr (l, e) ↦
          let fits : (listings_params env calendar formats server q).limit_n ≡ negsuc l =
            ap (λ n. int32 (capped n)) e ∙ int32-capped_neg l (ground arith) in
          subst (λ k. Listed q w (listings_reply env calendar formats server k))
            (sym (list_listings_neg _ _ l (view env calendar formats server w) fits))
            (below_zero l e)
    ])
    | inr (d, (e, r)) ↦ rw r (unavailable d)
  ]
