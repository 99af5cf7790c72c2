-- ===== src/Pipeline/Scheduling.antt =====
-- The scheduler's ticks in the system: no search of its flags is the empty text.
use real_estate_robot.Base.{
  ◌≢◌, refl, String, eq_iff, List, [], ◌∷◌, map, arith, inl, inr, All, All-append, ℕ, zero, suc,
}
use Prim.Native.String.{◌++◌ as append}
use real_estate_robot.Base.Texts.{append-ne_empty}
use real_estate_robot.Runtime.Env.{Env, World}
use real_estate_robot.Queue.Names.{queue_listings_discover}
use real_estate_robot.Scheduler.{
  Texts, search_url_of, parse_comma_list, products, build_templated_urls, search_urls, tick_all,
  ticks,
}
use real_estate_robot.Scheduler.Searches.{parse_comma_list-All}
use real_estate_robot.Base.Int.{pos}
use real_estate_robot.Pipeline.{Wire, search, IsSound}
use real_estate_robot.Pipeline.Sending.{publish-IsSound}

abbrev AreNamed : List String → Type 0
AreNamed urls = All (λ u. u ≢ "") urls

prefix_named : ◌≢◌ {A = String} "https://www.olx.ua/uk/nedvizhimost/" ""
prefix_named e = ground (arith, eq_iff "https://www.olx.ua/uk/nedvizhimost/" "")

-- A URL on this path is not empty.
pub nedvizhimost-ne_empty : (s : String) → append "https://www.olx.ua/uk/nedvizhimost/" s ≢ ""
nedvizhimost-ne_empty s = append-ne_empty _ s prefix_named

row-AreNamed : (c : String) (towns : List String) → AreNamed (map (search_url_of c) towns)
row-AreNamed c [] = tt
row-AreNamed c (t ∷ towns) = (nedvizhimost-ne_empty _, row-AreNamed c towns)

module _ (texts : Texts) where
  products-AreNamed : (cats towns : List String) → AreNamed (products texts cats towns)
  unfolding products
  products-AreNamed [] towns = tt
  products-AreNamed (c ∷ cats) towns =
      All-append (λ u. u ≢ "") (map (search_url_of c) towns) _ (row-AreNamed c towns)
        (products-AreNamed cats towns)

  pub search_urls-AreNamed :
      (searches categories cities : String)
      → AreNamed (search_urls texts searches categories cities)
  unfolding search_urls build_templated_urls
  search_urls-AreNamed searches categories cities =
      All-append (λ u. u ≢ "") (parse_comma_list texts searches) _
        (parse_comma_list-All texts searches)
        (products-AreNamed (parse_comma_list texts categories) (parse_comma_list texts cities))

module _ (wire : Wire) (env : Env) where
  tick_all-IsSound :
      (urls : List String) (w : World)
      → AreNamed urls
      → IsSound wire w
      → IsSound wire (tick_all env wire.schedule urls w)
  unfolding tick_all
  tick_all-IsSound [] w n s = s
  tick_all-IsSound (u ∷ urls) w n s = tick_all-IsSound urls _ n.1 (
      publish-IsSound wire env queue_listings_discover _ w
        (search u (pos 1) n.0 refl (inr (inl refl))) s)

  -- Every tick on the searches of the flags keeps what the parts keep together.
  pub ticks-IsSound :
      (rounds : ℕ) (urls : List String) (w : World)
      → AreNamed urls
      → IsSound wire w
      → IsSound wire (ticks env wire.schedule rounds urls w)
  unfolding ticks
  ticks-IsSound zero urls w n s = tick_all-IsSound urls w n s
  ticks-IsSound (suc r) urls w n s = tick_all-IsSound urls _ n (ticks-IsSound r urls w n s)
