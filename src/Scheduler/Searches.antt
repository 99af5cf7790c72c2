-- ===== src/Scheduler/Searches.antt =====
-- Which searches the flags ask for.
use real_estate_robot.Base.{
  subst, ◌↔◌, String, str_eq, ◌≡◌, ◌≢◌, refl, ap, inl, inr, Bool-cases, List, [], ◌∷◌, ◌++◌, map,
  All, In, In-append, eq_iff, arith,
}
use real_estate_robot.Scheduler.{
  Texts, search_url_of, trimmed, parse_comma_list, products, build_templated_urls,
}

In-left : (u : String) (xs ys : List String) → In u xs → In u (xs ++ ys)
In-left u [] ys h = absurd h
In-left u (x ∷ xs) ys (inl e) = inl e
In-left u (x ∷ xs) ys (inr h) = inr (In-left u xs ys h)

In-right : (u : String) (xs ys : List String) → In u ys → In u (xs ++ ys)
In-right u [] ys h = h
In-right u (x ∷ xs) ys h = inr (In-right u xs ys h)

In-map :
    (f : String → String) (xs : List String) (u : String)
    → In u (map f xs)
    → (x : String) × (f x ≡ u) × In x xs
In-map f [] u h = absurd h
In-map f (x ∷ xs) u (inl e) = (x, e, inl refl)
In-map f (x ∷ xs) u (inr h) = let (y, e, i) = In-map f xs u h in (y, e, inr i)

map-In : (f : String → String) (xs : List String) (x : String) → In x xs → In (f x) (map f xs)
map-In f [] x h = absurd h
map-In f (y ∷ xs) x (inl e) = inl (ap f e)
map-In f (y ∷ xs) x (inr h) = inr (map-In f xs x h)

module _ (texts : Texts) where
  trimmed-All : (parts : List String) → All (λ p. p ≢ "") (trimmed texts parts)
  unfolding trimmed
  trimmed-All [] = tt
  trimmed-All (p ∷ parts) = elim (Bool-cases (str_eq (texts.trim_space p) "")) [
    | inl blank ↦ rw blank (trimmed-All parts)
    | inr named ↦
        rw named ((λ e. ground (arith, eq_iff (texts.trim_space p) "")), trimmed-All parts)
  ]

  -- No item of a parsed list is empty, whatever the flag holds.
  pub parse_comma_list-All : (s : String) → All (λ p. p ≢ "") (parse_comma_list texts s)
  unfolding parse_comma_list
  parse_comma_list-All s = elim (Bool-cases (str_eq s "")) [
    | inl blank ↦ rw blank tt
    | inr named ↦ rw named (trimmed-All (texts.split s ","))
  ]

  -- A URL is that of one of the categories and one of the cities.
  abbrev pub IsPair : List String → List String → String → Type 0
  IsPair cats towns u = (c t : String) × (search_url_of c t ≡ u) × In c cats × In t towns

  products-IsPair :
      (cats towns : List String) (u : String)
      → In u (products texts cats towns)
      → IsPair cats towns u
  unfolding products
  products-IsPair [] towns u h = absurd h
  products-IsPair (c ∷ cats) towns u h = elim (In-append u (map (search_url_of c) towns) _ h) [
    | inl here ↦ let (t, e, i) = In-map (search_url_of c) towns u here in (c, t, e, inl refl, i)
    | inr there ↦ let (d, t, e, i, j) = products-IsPair cats towns u there in (d, t, e, inr i, j)
  ]

  IsPair-In :
      (cats towns : List String) (c t : String)
      → In c cats
      → In t towns
      → In (search_url_of c t) (products texts cats towns)
  unfolding products
  IsPair-In [] towns c t h j = absurd h
  IsPair-In (d ∷ cats) towns c t (inl e) j =
      In-left (search_url_of c t) (map (search_url_of d) towns) _
        (rw e (map-In (search_url_of c) towns t j))
  IsPair-In (d ∷ cats) towns c t (inr i) j =
      In-right (search_url_of c t) (map (search_url_of d) towns) _ (IsPair-In cats towns c t i j)

  -- The templated URLs are exactly those of a category of the one flag and a city of the other.
  pub build_templated_urls_lem :
      (categories cities u : String)
      → In u (build_templated_urls texts categories cities)
        ↔ IsPair (parse_comma_list texts categories) (parse_comma_list texts cities) u
  unfolding build_templated_urls
  build_templated_urls_lem categories cities u = (
    products-IsPair (parse_comma_list texts categories) (parse_comma_list texts cities) u,
    λ h.
        subst
          (λ x.
            In x
              (products texts (parse_comma_list texts categories) (parse_comma_list texts cities)))
          h.2
          (IsPair-In (parse_comma_list texts categories) (parse_comma_list texts cities) h.0 h.1 h.3
            h.4),
  )
