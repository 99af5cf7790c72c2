-- ===== src/Scheduler.antt =====
-- cmd/scheduler/main.go: the search URLs of the flags, and the tick that asks for each of them.
pub mod Ticks
pub mod Searches
pub mod Loop
mod Tests
use Prim.Native.String.{◌++◌ as append}
use real_estate_robot.Base.{ℕ, zero, suc, String, str_eq, List, [], ◌∷◌, ◌++◌, map, if◌then◌else◌}
use real_estate_robot.Base.Int.{ℤ, pos}
use real_estate_robot.Base.Values.{Bytes, Result, ok, err}
use real_estate_robot.Runtime.Env.{Env, World}
use real_estate_robot.Connections.{Confirming, new_publisher}
use real_estate_robot.Queue.Names.{queue_listings_discover}
use real_estate_robot.Queue.Publisher.{publish}

pub record DiscoveryTask : Type 0 where
  pub search_url : String
  pub page : ℤ

-- What the package strings does.
pub record Texts : Type 0 where
  pub split : String → String → List String
  pub trim_space : String → String

-- fmt.Sprintf("https://www.olx.ua/uk/nedvizhimost/%s/%s/", c, t)
abbrev pub search_url_of : String → String → String
search_url_of c t =
    append "https://www.olx.ua/uk/nedvizhimost/" (append c (append "/" (append t "/")))

module _ (texts : Texts) where
  -- the loop over the parts
  unfoldable pub trimmed : List String → List String
  trimmed [] = []
  trimmed (p ∷ parts) =
      let rest = trimmed parts in
      if str_eq (texts.trim_space p) "" then rest else texts.trim_space p ∷ rest

  unfoldable pub parse_comma_list : String → List String
  parse_comma_list s = if str_eq s "" then [] else trimmed (texts.split s ",")

  -- the two loops
  unfoldable pub products : List String → List String → List String
  products [] towns = []
  products (c ∷ cats) towns = map (search_url_of c) towns ++ products cats towns

  -- The loops give nothing where one of the lists is empty, as the early return does.
  unfoldable pub build_templated_urls : String → String → List String
  build_templated_urls categories cities =
      products (parse_comma_list categories) (parse_comma_list cities)

  -- `urls` of main
  unfoldable pub search_urls : String → String → String → List String
  search_urls searches categories cities =
      parse_comma_list searches ++ build_templated_urls categories cities

-- How main ends: with a status, or it goes on to its ticks.
pub data Started : Type 0 where
  exited : ℕ → Started
  ticking : List String → Started

-- NewPublisher, and what follows it
abbrev pub go_on : List String → Confirming → Started
go_on urls c = elim (new_publisher c).result [ err e ↦ exited 1 | ok _ ↦ ticking urls ]

-- main, from its URLs and the variable AMQP_URL
unfoldable pub start_main : List String → String → Confirming → Started
start_main [] amqp_url c = exited 2
start_main (u ∷ urls) amqp_url c = if str_eq amqp_url "" then exited 1 else go_on (u ∷ urls) c

module _ (env : Env) (encode : DiscoveryTask → Bytes) where
  abbrev pub first_page : String → Bytes
  first_page u = encode (record { search_url = u; page = pos 1 })

  -- A failed publish is logged, and the loop goes on.
  unfoldable pub tick_all : List String → World → World
  tick_all [] w = w
  tick_all (u ∷ urls) w = tick_all urls (publish env queue_listings_discover (first_page u) w).1

  -- One tick at once, and one for each round of the ticker.
  unfoldable pub ticks : ℕ → List String → World → World
  ticks zero urls w = tick_all urls w
  ticks (suc n) urls w = tick_all urls (ticks n urls w)
