-- ===== src/Discovery.antt =====
-- internal/discovery/discovery.go: the worker on listings.discover. It walks one page of search
-- results, publishes each listing's URL to the fetcher, and the next page to itself.
pub mod Links
pub mod Pages
pub mod Walks
mod Tests
use real_estate_robot.Base.{
  ℕ, String, str_eq, starts_with, ◌==◌, ltb, leb, Bool, true, false, ◌||◌, ◌&&◌, not, Option, none,
  some, List, [], ◌∷◌, ◌++◌, length, if◌then◌else◌,
}
use real_estate_robot.Base.Int.{ℤ, pos, ◌+ℤ◌, leb_ℤ, ltb_ℤ}
use real_estate_robot.Base.Values.{Bytes, Error, message, numbered, wrap, wrap_of, Result, ok, err}
use real_estate_robot.Runtime.Env.{
  Env, World, M, Request, Response, Stream, max_bytes, pure, raise, lift, wrapping, rewrap, ◌>>=◌,
  ◌>>◌,
}
use real_estate_robot.Runtime.Actions.{wait_limiter, do_request}
use real_estate_robot.Queue.Names.{queue_listings_discover, queue_listings_fetch}
use real_estate_robot.Queue.Publisher.{publish}
use real_estate_robot.Queue.Publisher.Batch.{publish_each}

pub record Task : Type 0 where
  pub search_url : String
  pub page : ℤ

pub record Config : Type 0 where
  pub user_agent : String
  pub max_page : ℤ

-- the default in New
unfoldable pub new : Config → Config
new cfg = record cfg { max_page = (if leb_ℤ cfg.max_page (pos 0) then pos 10 else cfg.max_page) }

-- What encoding/json does with the worker's types.
pub record Json : Type 0 where
  pub decode_task : Bytes → Result Task
  pub encode_task : Task → Bytes
  pub encode_fetch : String → Bytes  -- FetchTask{URL: u}

-- What net/url, strconv.Itoa and goquery do. `links` gives the href of each `a[href]`, in order;
-- it reads at most the given number of bytes, and may fail on reading or on parsing.
pub record Web : Type 1 where
  pub Url : Type 0
  pub parse : String → Result Url
  pub is_abs : Url → Bool
  pub resolve_reference : Url → Url → Url
  pub set_raw_query : String → Url → Url
  pub set_fragment : String → Url → Url
  pub to_string : Url → String
  pub Query : Type 0
  pub query : Url → Query
  pub set : String → String → Query → Query
  pub encode : Query → String
  pub itoa : ℤ → String
  pub links : ℕ → Stream → Result (List (Option String))

unfoldable pub is_listing_url : String → Bool
is_listing_url href =
    starts_with href "https://www.olx.ua/d/" || starts_with href "https://www.olx.ua/uk/d/"

-- _, dup := seen[url]
unfoldable pub contains : String → List String → Bool
contains u [] = false
contains u (v ∷ seen) = if str_eq v u then true else contains u seen

-- neither of the two early returns of the loop's body
abbrev pub is_new : String → List String → Bool
is_new abs seen = not (str_eq abs "" || not (is_listing_url abs)) && not (contains abs seen)

module _ (web : Web) where
  unfoldable pub build_search_page_url : String → ℤ → Result String
  build_search_page_url search_url page =
      if leb_ℤ page (pos 1) then ok search_url else elim (web.parse search_url) [
        | err e ↦ err (wrap "parse url" e)
        | ok u ↦ ok (
            web.to_string
              (web.set_raw_query (web.encode (web.set "page" (web.itoa page) (web.query u))) u))
      ]

  unfoldable pub resolve_and_clean : web.Url → String → String
  resolve_and_clean base href = if str_eq href "" then "" else elim (web.parse href) [
    | err _ ↦ ""
    | ok u ↦ web.to_string (
        web.set_fragment ""
          (web.set_raw_query "" (if web.is_abs u then u else web.resolve_reference base u)))
  ]

  -- the loop of doc.Find("a[href]").Each, over `seen` and `urls`
  unfoldable pub collect : web.Url → List (Option String) → List String → List String → List String
  collect base [] seen urls = urls
  collect base (none ∷ hrefs) seen urls = collect base hrefs seen urls
  collect base (some href ∷ hrefs) seen urls =
      let abs = resolve_and_clean base href in
      collect base hrefs (if is_new abs seen then abs ∷ seen else seen)
        (if is_new abs seen then urls ++ abs ∷ [] else urls)

  -- the page behind its status
  unfoldable pub extract : String → Response → Result (List String)
  extract page_url resp =
      if leb 500 resp.status || resp.status == 429
      then err (numbered "transient status" resp.status)
      else if leb 400 resp.status
      then ok []
      else elim (web.links max_bytes resp.body) [
        | err e ↦ err (wrap "parse html" e)
        | ok hrefs ↦ elim (web.parse page_url) [
          | err e ↦ err (wrap "parse page url" e)
          | ok base ↦ ok (collect base hrefs [] [])
        ]
      ]

  unfoldable pub get_request : String → String → Request
  get_request user_agent url = record {
    url = url;
    headers =
        (if str_eq user_agent "" then [] else ("User-Agent", user_agent) ∷ [])
        ++ (("Accept", "text/html,application/xhtml+xml,application/xml;q=0.9")
            ∷ ("Accept-Language", "uk-UA,uk;q=0.9,ru;q=0.8,en;q=0.5")
            ∷ []);
  }

  module _ (env : Env) (cfg : Config) (json : Json) where
    abbrev pub on_response : String → Result Response → Result (List String)
    on_response page_url (err e) = err e
    on_response page_url (ok resp) = extract page_url resp

    unfoldable pub fetch_listing_urls : String → M (List String)
    fetch_listing_urls page_url w = elim (env.bad_url page_url) [
      | some e ↦ (err (wrap "build request" e), w)
      | none ↦
          let (r, w') = do_request env (get_request cfg.user_agent page_url) w in
          (on_response page_url r, w')
    ]

    -- the first-page default
    abbrev pub page_of : Task → ℤ
    page_of task = if leb_ℤ task.page (pos 0) then pos 1 else task.page

    -- self-pagination
    unfoldable pub paginate : String → ℤ → List String → M (Unit {0})
    paginate search_url page [] = pure tt
    paginate search_url page (u ∷ urls) =
        if ltb_ℤ page cfg.max_page
        then wrapping (wrap "publish next page") (
            publish env queue_listings_discover
              (json.encode_task (record { search_url = search_url; page = page +ℤ pos 1 })))
        else pure tt

    -- the URLs of the page, and what follows them
    unfoldable pub spread : String → ℤ → List String → M (Unit {0})
    spread search_url page urls = do
      publish_each env queue_listings_fetch json.encode_fetch urls
      paginate search_url page urls

    unfoldable pub walk : String → ℤ → M (Unit {0})
    walk search_url page = do
      page_url ← wrapping (wrap "build page url") (lift (build_search_page_url search_url page))
      wait_limiter env
      urls ← wrapping (wrap_of "fetch search page" page_url) (fetch_listing_urls page_url)
      spread search_url page urls

    unfoldable pub handle : Bytes → M (Unit {0})
    handle body = do
      task ← wrapping (wrap "decode task") (lift (json.decode_task body))
      if str_eq task.search_url ""
          then raise (message "task has empty search_url")
          else if ltb_ℤ cfg.max_page (page_of task)
          then pure tt
          else walk task.search_url (page_of task)
