-- ===== src/Enrich.antt =====
-- internal/enrich/enrich.go: the worker on sellers.enrich. It fetches a seller's profile, publishes
-- the listings found there to the fetcher, and stamps the seller.
pub mod Visits
pub mod Outcomes
pub mod Cycle
mod Tests
use real_estate_robot.Base.{
  ℕ, String, str_eq, starts_with, ◌==◌, leb, Bool, true, false, ◌||◌, ◌&&◌, not, Option, none, some,
  List, [], ◌∷◌, ◌++◌, if◌then◌else◌,
}
use real_estate_robot.Base.Int.{ℤ, pos, leb_ℤ, ltb_ℤ}
use real_estate_robot.Base.Clock.{sub_time}
use real_estate_robot.Base.Values.{
  Bytes, Duration, Timestamptz, Text, Error, no_rows, is_no_rows, message, numbered, wrap, wrap_of,
  Result, ok, err,
}
use real_estate_robot.Storage.Rows.{Seller}
use real_estate_robot.Storage.Sellers.{get_seller_by_olx_id, mark_seller_enriched}
use real_estate_robot.Runtime.Env.{
  Env, World, M, Request, Response, Stream, max_bytes, pure, raise, lift, wrapping, ◌>>=◌, ◌>>◌,
}
use real_estate_robot.Runtime.Actions.{query, statement, wait_limiter, do_request}
use real_estate_robot.Queue.Names.{queue_listings_fetch}
use real_estate_robot.Queue.Publisher.Batch.{publish_each}

pub record Task : Type 0 where
  pub olx_user_id : String

pub record Config : Type 0 where
  pub user_agent : String
  pub freshness : Duration

-- 6 * time.Hour
abbrev pub six_hours : ℕ
six_hours = 21_600_000_000_000

-- the default in New
unfoldable pub new : Config → Config
new cfg = record cfg {
  freshness = (if leb_ℤ cfg.freshness (pos 0) then pos six_hours else cfg.freshness);
}

-- What encoding/json does with the worker's types, and goquery with a page: the href of each
-- `a[href]`, in order, from at most the given number of bytes.
pub record Json : Type 0 where
  pub decode_task : Bytes → Result Task
  pub encode_fetch : String → Bytes  -- FetchTask{URL: u}
  pub links : ℕ → Stream → Result (List (Option String))

unfoldable pub is_listing_url : String → Bool
is_listing_url href =
    starts_with href "https://www.olx.ua/d/" || starts_with href "https://www.olx.ua/uk/d/"

-- _, dup := seen[href]
unfoldable pub contains : String → List String → Bool
contains u [] = false
contains u (v ∷ seen) = if str_eq v u then true else contains u seen

abbrev pub is_new : String → List String → Bool
is_new href seen = is_listing_url href && not (contains href seen)

-- the loop of doc.Find("a[href]").Each, over `seen` and `urls`
unfoldable pub collect : List (Option String) → List String → List String → List String
collect [] seen urls = urls
collect (none ∷ hrefs) seen urls = collect hrefs seen urls
collect (some href ∷ hrefs) seen urls =
    collect hrefs (if is_new href seen then href ∷ seen else seen)
      (if is_new href seen then urls ++ href ∷ [] else urls)

unfoldable pub get_request : String → String → Request
get_request user_agent url = record {
  url = url;
  headers =
      (if str_eq user_agent "" then [] else ("User-Agent", user_agent) ∷ [])
      ++ (("Accept", "text/html,application/xhtml+xml,application/xml;q=0.9")
          ∷ ("Accept-Language", "uk-UA,uk;q=0.9,ru;q=0.8,en;q=0.5")
          ∷ []);
}

-- !seller.ProfileUrl.Valid || seller.ProfileUrl.String == ""
abbrev pub address : Text → Option String
address none = none
address (some url) = if str_eq url "" then none else some url

module _ (env : Env) (cfg : Config) (json : Json) where
  -- the page behind its status
  unfoldable pub extract : Response → Result (List String)
  extract resp =
      if leb 500 resp.status || resp.status == 429
      then err (numbered "transient status" resp.status)
      else if leb 400 resp.status
      then ok []
      else elim (json.links max_bytes resp.body) [
        | err e ↦ err (wrap "parse html" e)
        | ok hrefs ↦ ok (collect hrefs [] [])
      ]

  abbrev pub on_response : Result Response → Result (List String)
  on_response (err e) = err e
  on_response (ok resp) = extract resp

  unfoldable pub fetch_profile : String → M (List String)
  fetch_profile url w = elim (env.bad_url url) [
    | some e ↦ (err (wrap "build request" e), w)
    | none ↦ let (r, w') = do_request env (get_request cfg.user_agent url) w in (on_response r, w')
  ]

  unfoldable pub mark : ℕ → M (Unit {0})
  mark id = statement env (λ now w.
      (tt, record w { db = record w.db { sellers = mark_seller_enriched now id w.db.sellers } }))

  abbrev pub find_seller : String → World → Result Seller
  find_seller olx_user_id w = elim (get_seller_by_olx_id olx_user_id w.db.sellers) [
    | none ↦ err no_rows
    | some s ↦ ok s
  ]

  -- the cycle-prevention gate, at the time of the check
  unfoldable pub is_fresh : Timestamptz → ℕ → Bool
  is_fresh none now = false
  is_fresh (some t) now = ltb_ℤ (sub_time now t) cfg.freshness

  unfoldable pub spread : ℕ → List String → M (Unit {0})
  spread id urls = do
    publish_each env queue_listings_fetch json.encode_fetch urls
    wrapping (wrap "mark enriched") (mark id)

  -- behind the gate
  unfoldable pub visit : ℕ → Option String → M (Unit {0})
  visit id none = mark id
  visit id (some url) = do
    wait_limiter env
    urls ← wrapping (wrap_of "fetch profile" url) (fetch_profile url)
    spread id urls

  unfoldable pub enrich : Result Seller → M (Unit {0})
  enrich (err e) w = if is_no_rows e then (ok tt, w) else (err (wrap "lookup seller" e), w)
  enrich (ok s) w =
      if is_fresh s.last_enriched_at (env.clock w.ticks)
      then (ok tt, w)
      else visit s.id (address s.profile_url) w

  -- the lookup of the seller and what follows it
  unfoldable pub look_up : String → M (Unit {0})
  look_up olx_user_id w = let (r, w') = query env (find_seller olx_user_id) w in enrich r w'

  unfoldable pub handle : Bytes → M (Unit {0})
  handle body = do
    task ← wrapping (wrap "decode task") (lift (json.decode_task body))
    if str_eq task.olx_user_id ""
        then raise (message "task has empty olx_user_id")
        else look_up task.olx_user_id
