-- ===== src/Classification/Queries/Counts.antt =====
-- GROUP BY with COUNT(*): each group once, with the number of its rows.
use Prim.Native.Nat.{◌+◌}
use real_estate_robot.Base.{
  ℕ, suc, String, str_eq, ◌≡◌, refl, ◌∙◌, inl, inr, Bool, false, none, some, List, [], ◌∷◌, map,
  arith, if◌then◌else◌, eq_iff, ◌≤◌, ◌≢◌, Option-cases,
}
use real_estate_robot.Base.Sort.{insert, sort}
use real_estate_robot.Classification.Views.{ListingsWithClassification}
use real_estate_robot.Classification.Queries.{
  bump, group_by, cities_of, city_before, get_distinct_cities, GetDistinctCitiesRow,
}

-- How often a key occurs.
abbrev pub occurrences : String → List String → ℕ
occurrences c [] = 0
occurrences c (k ∷ keys) = if str_eq k c then suc (occurrences c keys) else occurrences c keys

-- The counts of a key's groups, added up, and how many groups it has.
abbrev pub counted : String → List (String × ℕ) → ℕ
counted c [] = 0
counted c ((k, n) ∷ groups) = if str_eq k c then n + counted c groups else counted c groups

abbrev pub groups_for : String → List (String × ℕ) → ℕ
groups_for c [] = 0
groups_for c ((k, n) ∷ groups) =
    if str_eq k c then suc (groups_for c groups) else groups_for c groups

counted-bump :
    (c k : String) (groups : List (String × ℕ))
    → counted c (bump str_eq k groups)
      ≡ (if str_eq k c then suc (counted c groups) else counted c groups)
unfolding bump
counted-bump c k [] = ground arith
counted-bump c k ((j, n) ∷ groups) =
    ground (arith, counted-bump c k groups, eq_iff j k, eq_iff j c, eq_iff k c)

groups_for-bump_other :
    (c k : String) (groups : List (String × ℕ))
    → str_eq k c ≡ false
    → groups_for c (bump str_eq k groups) ≡ groups_for c groups
unfolding bump
groups_for-bump_other c k [] h = ground arith
groups_for-bump_other c k ((j, n) ∷ groups) h =
    ground (arith, groups_for-bump_other c k groups h, eq_iff j k, eq_iff j c, eq_iff k c)

groups_for-bump :
    (c k : String) (groups : List (String × ℕ))
    → groups_for c groups ≤ 1
    → groups_for c (bump str_eq k groups) ≤ 1
unfolding bump
groups_for-bump c k [] h = ground arith
groups_for-bump c k ((j, n) ∷ groups) h = ground (
  arith,
  groups_for-bump c k groups,
  groups_for-bump_other c k groups,
  eq_iff j k,
  eq_iff j c,
  eq_iff k c,
)

counted-group_by :
    (c : String) (keys : List String) → counted c (group_by str_eq keys) ≡ occurrences c keys
unfolding group_by
counted-group_by c [] = refl
counted-group_by c (k ∷ keys) =
    ground (arith, counted-bump c k (group_by str_eq keys), counted-group_by c keys)

groups_for-group_by : (c : String) (keys : List String) → groups_for c (group_by str_eq keys) ≤ 1
unfolding group_by
groups_for-group_by c [] = ground arith
groups_for-group_by c (k ∷ keys) =
    groups_for-bump c k (group_by str_eq keys) (groups_for-group_by c keys)

module _ (before : String × ℕ → String × ℕ → Bool) where
  counted-insert :
      (c : String) (g : String × ℕ) (groups : List (String × ℕ))
      → counted c (insert before g groups) ≡ counted c (g ∷ groups)
  counted-insert c g [] = refl
  counted-insert c g (h ∷ groups) = ground (arith, counted-insert c g groups)

  counted-sort :
      (c : String) (groups : List (String × ℕ)) → counted c (sort before groups) ≡ counted c groups
  unfolding sort
  counted-sort c [] = refl
  counted-sort c (g ∷ groups) =
      ground (arith, counted-insert c g (sort before groups), counted-sort c groups)

  groups_for-insert :
      (c : String) (g : String × ℕ) (groups : List (String × ℕ))
      → groups_for c (insert before g groups) ≡ groups_for c (g ∷ groups)
  groups_for-insert c g [] = refl
  groups_for-insert c g (h ∷ groups) = ground (arith, groups_for-insert c g groups)

  groups_for-sort :
      (c : String) (groups : List (String × ℕ))
      → groups_for c (sort before groups) ≡ groups_for c groups
  unfolding sort
  groups_for-sort c [] = refl
  groups_for-sort c (g ∷ groups) =
      ground (arith, groups_for-insert c g (sort before groups), groups_for-sort c groups)

-- The rows with a city, and their counts added up.
abbrev pub rows_for : String → List GetDistinctCitiesRow → ℕ
rows_for c [] = 0
rows_for c (r ∷ rest) = elim r.city [
  | none ↦ rows_for c rest
  | some k ↦ if str_eq k c then suc (rows_for c rest) else rows_for c rest
]

abbrev pub count_for : String → List GetDistinctCitiesRow → ℕ
count_for c [] = 0
count_for c (r ∷ rest) = elim r.city [
  | none ↦ count_for c rest
  | some k ↦ if str_eq k c then r.n + count_for c rest else count_for c rest
]

-- The rows of the view that stand in a city.
abbrev pub listings_in_city : String → List ListingsWithClassification → ℕ
listings_in_city c [] = 0
listings_in_city c (r ∷ rest) = elim r.city [
  | none ↦ listings_in_city c rest
  | some k ↦ if str_eq k c then suc (listings_in_city c rest) else listings_in_city c rest
]

abbrev row_of : String × ℕ → GetDistinctCitiesRow
row_of g = record { city = some g.0; n = g.1 }

rows_for-map :
    (c : String) (groups : List (String × ℕ)) → rows_for c (map row_of groups) ≡ groups_for c groups
rows_for-map c [] = refl
rows_for-map c (g ∷ groups) = ground (arith, rows_for-map c groups)

count_for-map :
    (c : String) (groups : List (String × ℕ)) → count_for c (map row_of groups) ≡ counted c groups
count_for-map c [] = refl
count_for-map c (g ∷ groups) = ground (arith, count_for-map c groups)

occurrences-cities_of :
    (c : String) (view : List ListingsWithClassification)
    → c ≢ ""
    → occurrences c (cities_of view) ≡ listings_in_city c view
unfolding cities_of
occurrences-cities_of c [] h = refl
occurrences-cities_of c (r ∷ rest) h = elim (Option-cases r.city) [
  | inl e ↦ ground (arith, occurrences-cities_of c rest h)
  | inr (k, e) ↦ ground (arith, occurrences-cities_of c rest h, eq_iff k "", eq_iff k c)
]

-- GetDistinctCities gives each city at most once, and with a city that has a name the number of
-- the view's rows that stand in it.
pub get_distinct_cities_lem :
    (collation : String → String → Bool) (view : List ListingsWithClassification) (c : String)
    → c ≢ ""
    → (rows_for c (get_distinct_cities collation view) ≤ 1)
      × (count_for c (get_distinct_cities collation view) ≡ listings_in_city c view)
unfolding get_distinct_cities
get_distinct_cities_lem collation view c h =
    let groups : List (String × ℕ) = group_by str_eq (cities_of view) in
    let ranked : List (String × ℕ) = sort (city_before collation) groups in
    (
      omega (
        arith,
        rows_for-map c ranked,
        groups_for-sort (city_before collation) c groups,
        groups_for-group_by c (cities_of view),
      ),
      count_for-map c ranked
          ∙ counted-sort (city_before collation) c groups
          ∙ counted-group_by c (cities_of view)
          ∙ occurrences-cities_of c view h,
    )
