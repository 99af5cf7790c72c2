-- ===== src/Discovery/Tests.antt =====
-- The discovery worker's theorems at a concrete search of two pages.
use real_estate_robot.Base.{
  suc, zero, ◌≤◌, ◌+◌, String, ◌≡◌, refl, true, none, some, Option, List, [], ◌∷◌, In, inl, inr,
}
use real_estate_robot.Base.Int.{ℤ, pos, negsuc}
use real_estate_robot.Base.Values.{Bytes, Result, ok, err, message}
use real_estate_robot.Runtime.Env.{start}
use real_estate_robot.Runtime.Samples.{all_well, some_body}
use real_estate_robot.Queue.Publisher.{publish, publishing}
use real_estate_robot.Queue.Publisher.Batch.{letters, publish_each}
use real_estate_robot.Discovery.{
  Task, Config, Json, Web, build_search_page_url, resolve_and_clean, is_listing_url, contains,
  collect, extract, fetch_listing_urls, paginate, spread, walk, handle,
}
use real_estate_robot.Discovery.Links.{IsDistinct, offers, collect_lem}
use real_estate_robot.Discovery.Walks.{Explored, handle-Explored}
use real_estate_robot.Discovery.Pages.{Chain, last, link, Chain-le-max_page}

abbrev search : String
search = "https://www.olx.ua/uk/nedvizhimost/"

abbrev anchors : List (Option String)
anchors =
    some "https://www.olx.ua/d/1"
    ∷ none
    ∷ some "https://www.olx.ua/d/2"
    ∷ some "/about"
    ∷ some "https://www.olx.ua/d/1"
    ∷ []

-- URLs that are texts already, all of them absolute.
abbrev web : Web
web = record {
  Url = String;
  parse = λ s. ok s;
  is_abs = λ u. true;
  resolve_reference = λ base u. u;
  set_raw_query = λ q u. u;
  set_fragment = λ f u. u;
  to_string = λ u. u;
  Query = String;
  query = λ u. u;
  set = λ k v q. q;
  encode = λ q. q;
  itoa = λ n. "2";
  links = λ n s. ok anchors;
}

abbrev encode : Task → Bytes
encode task = elim task.page [ pos n ↦ 0 ∷ n ∷ [] | negsuc n ↦ 1 ∷ n ∷ [] ]

abbrev decode : Bytes → Result Task
decode (zero ∷ n ∷ []) = ok (record { search_url = search; page = pos n })
decode (suc _ ∷ n ∷ []) = ok (record { search_url = search; page = negsuc n })
decode _ = err (message "unexpected end of JSON input")

abbrev json : Json
json = record { decode_task = decode; encode_task = encode; encode_fetch = λ u. some_body }

abbrev config : Config
config = record { user_agent = "robot"; max_page = pos 2 }

abbrev first_task : Task
first_task = record { search_url = search; page = pos 1 }

abbrev second_task : Task
second_task = record { search_url = search; page = pos 2 }

decode-encode :
    (page : ℤ)
    → decode (encode (record { search_url = search; page = page }))
      ≡ ok (record { search_url = search; page = page })
decode-encode (pos n) = refl
decode-encode (negsuc n) = refl

collect_lem_example :
    IsDistinct (collect web search anchors [] [])
    × ((u : String) → contains u (collect web search anchors [] []) ≡ offers web search anchors u)
collect_lem_example = collect_lem web search anchors

handle-Explored_example :
    Explored web all_well config json
      (encode first_task)
      start
      (handle web all_well config json (encode first_task) start)
handle-Explored_example = handle-Explored web all_well config json (encode first_task) start

-- What the first page's run confirms.
abbrev first_letters : List (String × Bytes)
first_letters =
    ("listings.fetch", some_body)
    ∷ ("listings.fetch", some_body)
    ∷ ("listings.discover", encode second_task)
    ∷ []

first_run :
    letters (handle web all_well config json (encode first_task) start).1.confirmed ≡ first_letters
unfolding handle walk build_search_page_url fetch_listing_urls extract collect contains
    is_listing_url resolve_and_clean spread publish_each publish publishing paginate
first_run = refl

asks_for_second : In ("listings.discover", encode second_task) first_letters
asks_for_second = inr (inr (inl refl))

abbrev one_link : Chain web all_well config json first_task 1
one_link =
    link start (encode first_task) (encode second_task) first_letters refl first_run asks_for_second
      refl (last second_task)

Chain-le-max_page_example : 1 + 1 ≤ 2
Chain-le-max_page_example =
    Chain-le-max_page web all_well config json 2 refl search decode-encode 0 first_task refl
      one_link
