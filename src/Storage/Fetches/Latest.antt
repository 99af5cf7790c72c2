-- ===== src/Storage/Fetches/Latest.antt =====
-- Which row GetLatestFetchByURL gives.
use real_estate_robot.Base.{
  ◌≤◌, String, str_eq, ◌≡◌, ◌≢◌, ◌⊎◌, inl, inr, Bool-cases, Option, none, some, List, [], ◌∷◌,
  arith, In, subst, eq_iff, if◌then◌else◌,
}
use real_estate_robot.Storage.Rows.{ListingHtmlFetch}
use real_estate_robot.Storage.Fetches.{later, latest_from, get_latest_fetch_by_url}

-- No row of the table has this url and a later time.
abbrev pub IsNewest : String → ListingHtmlFetch → List ListingHtmlFetch → Type 0
IsNewest url r [] = Unit
IsNewest url r (s ∷ rest) = ((s.url ≢ url) ⊎ (s.fetched_at ≤ r.fetched_at)) × IsNewest url r rest

abbrev step : String → Option ListingHtmlFetch → ListingHtmlFetch → Option ListingHtmlFetch
step url best s = if str_eq s.url url then some (later best s) else best

-- The best row so far is not later than the answer.
abbrev Bounds : Option ListingHtmlFetch → ListingHtmlFetch → Type 0
Bounds none r = Unit
Bounds (some b) r = b.fetched_at ≤ r.fetched_at

latest_from-Bounds :
    (best : Option ListingHtmlFetch) (url : String) (table : List ListingHtmlFetch)
    (r : ListingHtmlFetch)
    → latest_from best url table ≡ some r
    → Bounds best r × IsNewest url r table
unfolding latest_from
latest_from-Bounds none url [] r e = absurd (ground arith)
latest_from-Bounds (some b) url [] r e = (ground arith, tt)
latest_from-Bounds best url (s ∷ rest) r e =
    let (near, far) = latest_from-Bounds (step url best s) url rest r e in
    (bound_of best near, (after_of best near, far))
  where
    bound_of : (b : Option ListingHtmlFetch) → Bounds (step url b s) r → Bounds b r
    bound_of none h = tt
    bound_of (some b) h = ground arith

    after_of :
        (b : Option ListingHtmlFetch)
        → Bounds (step url b s) r
        → (s.url ≢ url) ⊎ (s.fetched_at ≤ r.fetched_at)
    after_of b h = elim (Bool-cases (str_eq s.url url)) [
      | inl same ↦
          inr (at_most b (subst (λ t. Bounds (if t then some (later b s) else b) r) same h))
      | inr other ↦ inl (λ x. ground (arith, eq_iff s.url url))
    ]
      where
        at_most :
            (b : Option ListingHtmlFetch)
            → Bounds (some (later b s)) r
            → s.fetched_at ≤ r.fetched_at
        at_most none h = h
        at_most (some b) h = ground arith

latest_from-origin :
    (best : Option ListingHtmlFetch) (url : String) (table : List ListingHtmlFetch)
    (r : ListingHtmlFetch)
    → latest_from best url table ≡ some r
    → (best ≡ some r) ⊎ (In r table × (r.url ≡ url))
unfolding latest_from
latest_from-origin best url [] r e = inl e
latest_from-origin best url (s ∷ rest) r e =
    elim (latest_from-origin (step url best s) url rest r e) [
      | inr (h, u) ↦ inr (inr h, u)
      | inl b ↦ from_step best b
    ]
  where
    from_step :
        (b : Option ListingHtmlFetch)
        → step url b s ≡ some r
        → (b ≡ some r) ⊎ (((s ≡ r) ⊎ In r rest) × (r.url ≡ url))
    from_step none h = ground (arith, eq_iff s.url url)
    from_step (some b) h = ground (arith, eq_iff s.url url)

-- The row that GetLatestFetchByURL gives stands in the table under the url, and no row with that url
-- is later.
pub get_latest-IsNewest :
    (url : String) (table : List ListingHtmlFetch) (r : ListingHtmlFetch)
    → get_latest_fetch_by_url url table ≡ some r
    → In r table × (r.url ≡ url) × IsNewest url r table
unfolding get_latest_fetch_by_url
get_latest-IsNewest url table r e = elim (latest_from-origin none url table r e) [
  | inl h ↦ absurd (ground arith)
  | inr (h, u) ↦ (h, u, (latest_from-Bounds none url table r e).1)
]
