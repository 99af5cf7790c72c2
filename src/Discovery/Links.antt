-- ===== src/Discovery/Links.antt =====
-- The links of a search page: what the loop over the anchors collects.
use real_estate_robot.Base.{
  String, str_eq, ◌≡◌, refl, ◌∙◌, Bool, true, false, ◌||◌, ◌&&◌, not, Option, none, some, List, [],
  ◌∷◌, ◌++◌, arith, eq_iff, Bool-cases, inl, inr,
}
use real_estate_robot.Discovery.{Web, is_listing_url, contains, is_new, resolve_and_clean, collect}

abbrev pub IsDistinct : List String → Type 0
IsDistinct [] = Unit
IsDistinct (u ∷ urls) = (contains u urls ≡ false) × IsDistinct urls

contains-append :
    (u a : String) (urls : List String)
    → contains u (urls ++ a ∷ []) ≡ contains u urls || str_eq a u
unfolding contains
contains-append u a [] = ground arith
contains-append u a (x ∷ urls) = ground (arith, contains-append u a urls)

IsDistinct-append :
    (a : String) (urls : List String)
    → IsDistinct urls
    → contains a urls ≡ false
    → IsDistinct (urls ++ a ∷ [])
unfolding contains
IsDistinct-append a [] d h = (refl, tt)
IsDistinct-append a (x ∷ urls) d h = (
  ground (arith, contains-append x a urls, eq_iff x a, eq_iff a x),
  IsDistinct-append a urls d.1 (ground arith),
)

module _ (web : Web) (base : web.Url) where
  -- A link that counts: it can be resolved, to the URL of a listing.
  abbrev pub counts : String → Bool
  counts abs = not (str_eq abs "") && is_listing_url abs

  -- Whether some anchor of the page leads to this listing.
  abbrev pub offers : List (Option String) → String → Bool
  offers [] u = false
  offers (none ∷ hrefs) u = offers hrefs u
  offers (some href ∷ hrefs) u =
      (counts (resolve_and_clean web base href) && str_eq (resolve_and_clean web base href) u)
      || offers hrefs u

  abbrev link : String → String
  link = resolve_and_clean web base

  collect-new :
      (href : String) (hrefs : List (Option String)) (seen urls : List String)
      → is_new (link href) seen ≡ true
      → collect web base (some href ∷ hrefs) seen urls
        ≡ collect web base hrefs (link href ∷ seen) (urls ++ link href ∷ [])
  collect-new href hrefs seen urls h = unfold collect in rw h

  collect-old :
      (href : String) (hrefs : List (Option String)) (seen urls : List String)
      → is_new (link href) seen ≡ false
      → collect web base (some href ∷ hrefs) seen urls ≡ collect web base hrefs seen urls
  collect-old href hrefs seen urls h = unfold collect in rw h

  collect-none :
      (hrefs : List (Option String)) (seen urls : List String)
      → collect web base (none ∷ hrefs) seen urls ≡ collect web base hrefs seen urls
  collect-none hrefs seen urls = unfold collect in refl

  -- `seen` and `urls` hold the same URLs
  abbrev Agree : List String → List String → Type 0
  Agree seen urls = (x : String) → contains x seen ≡ contains x urls

  Agree-cons :
      (a : String) (seen urls : List String) → Agree seen urls → Agree (a ∷ seen) (urls ++ a ∷ [])
  Agree-cons a seen urls same x =
      unfold contains in ground (arith, contains-append x a urls, same x)

  contains-collect :
      (hrefs : List (Option String)) (seen urls : List String) (u : String)
      → Agree seen urls
      → contains u (collect web base hrefs seen urls) ≡ contains u urls || offers hrefs u
  contains-collect [] seen urls u same = unfold collect in ground arith
  contains-collect (none ∷ hrefs) seen urls u same =
      rw (collect-none hrefs seen urls) (contains-collect hrefs seen urls u same)
  contains-collect (some href ∷ hrefs) seen urls u same =
      elim (Bool-cases (is_new (link href) seen)) [
        | inl new ↦ rw (collect-new href hrefs seen urls new) (
            contains-collect hrefs (link href ∷ seen) (urls ++ link href ∷ []) u
              (Agree-cons (link href) seen urls same)
            ∙ ground (arith, contains-append u (link href) urls))
        | inr old ↦
            rw (collect-old href hrefs seen urls old) (
              contains-collect hrefs seen urls u same
              ∙ ground (arith, same u, eq_iff (link href) u))
      ]

  collect-IsDistinct :
      (hrefs : List (Option String)) (seen urls : List String)
      → Agree seen urls
      → IsDistinct urls
      → IsDistinct (collect web base hrefs seen urls)
  collect-IsDistinct [] seen urls same d = unfold collect in d
  collect-IsDistinct (none ∷ hrefs) seen urls same d =
      rw (collect-none hrefs seen urls) (collect-IsDistinct hrefs seen urls same d)
  collect-IsDistinct (some href ∷ hrefs) seen urls same d =
      elim (Bool-cases (is_new (link href) seen)) [
        | inl new ↦ rw (collect-new href hrefs seen urls new) (
            collect-IsDistinct hrefs (link href ∷ seen) (urls ++ link href ∷ [])
              (Agree-cons (link href) seen urls same)
              (IsDistinct-append (link href) urls d (ground (arith, same (link href)))))
        | inr old ↦
            rw (collect-old href hrefs seen urls old) (collect-IsDistinct hrefs seen urls same d)
      ]

  -- The collected URLs are distinct, and they are exactly the listing URLs that some anchor of the
  -- page resolves to.
  pub collect_lem :
      (hrefs : List (Option String))
      → IsDistinct (collect web base hrefs [] [])
        × ((u : String) → contains u (collect web base hrefs [] []) ≡ offers hrefs u)
  unfolding contains
  collect_lem hrefs = (
    collect-IsDistinct hrefs [] [] (λ x. refl) tt,
    λ u. contains-collect hrefs [] [] u (λ x. refl),
  )
