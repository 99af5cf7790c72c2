-- ===== src/Fetcher.antt =====
-- internal/fetcher/fetcher.go: the worker on listings.fetch. It takes a URL, downloads the page,
-- stores it and publishes a task for the parser.
pub mod Recency
pub mod Outcomes
pub mod Requests
pub mod Gate
mod Tests
use real_estate_robot.Base.{
  ℕ, suc, ◌-◌, ◌%◌, ◌^◌, String, str_eq, ◌==◌, ltb, leb, Bool, true, false, ◌||◌, ◌&&◌, Option,
  none, some, List, [], ◌∷◌, ◌++◌, if◌then◌else◌,
}
use real_estate_robot.Base.Int.{ℤ, pos, negsuc, leb_ℤ, ltb_ℤ, sub_ℕ}
use real_estate_robot.Base.Clock.{sub_time}
use real_estate_robot.Base.Values.{
  Bytes, Time, Duration, Error, no_rows, message, numbered, wrap, is_no_rows, Result, ok, err,
}
use real_estate_robot.Storage.Rows.{ListingHtmlFetch}
use real_estate_robot.Storage.Fetches.{InsertFetchParams, insert_fetch, get_latest_fetch_by_url}
use real_estate_robot.Runtime.Env.{
  Env, World, M, Request, Response, read_limited, max_bytes, pure, raise, lift, wrapping, ◌>>=◌,
  ◌>>◌,
}
use real_estate_robot.Runtime.Actions.{query, statement, wait_limiter, do_request}
use real_estate_robot.Queue.Names.{queue_listings_parse}
use real_estate_robot.Queue.Publisher.{publish}

pub record Task : Type 0 where
  pub url : String

pub record NextTask : Type 0 where
  pub fetch_id : ℕ
  pub url : String

pub record Config : Type 0 where
  pub user_agent : String
  pub min_refetch_interval : Duration

-- What encoding/json does with the worker's types.
pub record Json : Type 0 where
  pub decode_task : Bytes → Result Task
  pub encode_next : NextTask → Bytes
  pub encode_map : List (String × String) → Bytes

unfoldable pub recently_fetched : Time → Time → Duration → Bool
recently_fetched fetched_at now interval =
    if leb_ℤ interval (pos 0) || fetched_at == 0
    then false
    else ltb_ℤ (sub_time now fetched_at) interval

-- http.Header.Get, on canonical names
unfoldable pub header_get : String → List (String × String) → String
header_get k [] = ""
header_get k ((j, v) ∷ rest) = if str_eq j k then v else header_get k rest

unfoldable pub keep_headers : List String → List (String × String) → List (String × String)
keep_headers [] h = []
keep_headers (k ∷ ks) h =
    if str_eq (header_get k h) ""
    then keep_headers ks h
    else (k, header_get k h) ∷ keep_headers ks h

abbrev pub kept_names : List String
kept_names = "Content-Type" ∷ "Content-Length" ∷ "Last-Modified" ∷ "Etag" ∷ "Server" ∷ []

-- `{}`
abbrev pub empty_object : Bytes
empty_object = 123 ∷ 125 ∷ []

unfoldable pub must_marshal_headers : Json → Option (List (String × String)) → Bytes
must_marshal_headers json none = empty_object
must_marshal_headers json (some h) = json.encode_map (keep_headers kept_names h)

-- the four results of `fetch`
pub record Fetched : Type 0 where
  pub body : Bytes
  pub status : ℕ
  pub headers : Option (List (String × String))
  pub error : Option Error

-- int16(n)
abbrev pub int16 : ℕ → ℤ
int16 n = if ltb (n % 2 ^ 16) (2 ^ 15) then pos (n % 2 ^ 16) else negsuc (2 ^ 16 - 1 - n % 2 ^ 16)

unfoldable pub get_request : String → String → Request
get_request user_agent url = record {
  url = url;
  headers =
      (if str_eq user_agent "" then [] else ("User-Agent", user_agent) ∷ [])
      ++ (("Accept", "text/html,application/xhtml+xml,application/xml;q=0.9")
          ∷ ("Accept-Language", "uk-UA,uk;q=0.9,ru;q=0.8,en;q=0.5")
          ∷ []);
}

unfoldable pub received : Result Response → Fetched
received (err e) = record { body = []; status = 0; headers = none; error = some e }
received (ok resp) = elim (read_limited max_bytes resp.body) [
  | err e ↦ record {
    body = [];
    status = resp.status;
    headers = resp.headers;
    error = some (wrap "read body" e);
  }
  | ok body ↦ record { body = body; status = resp.status; headers = resp.headers; error = none }
]

module _ (env : Env) (cfg : Config) (json : Json) where
  unfoldable pub fetch : String → World → Fetched × World
  fetch url w = elim (env.bad_url url) [
    | some e ↦
        (record { body = []; status = 0; headers = none; error = some (wrap "build request" e) }, w)
    | none ↦ let (r, w') = do_request env (get_request cfg.user_agent url) w in (received r, w')
  ]

  -- the result is the row's id
  unfoldable pub insert : InsertFetchParams → M ℕ
  insert p = statement env (λ now w. (
    suc w.serials.fetch,
    record w {
      db = record w.db { fetches = insert_fetch now (suc w.serials.fetch) p w.db.fetches };
      serials = record w.serials { fetch = suc w.serials.fetch };
    },
  ))

  abbrev pub row_params : String → Fetched → Option Bytes → InsertFetchParams
  row_params url f html = record {
    url = url;
    status_code = int16 f.status;
    html = html;
    headers = must_marshal_headers json f.headers;
    error = none;
  }

  -- the classification of the fetch's results, and what follows
  unfoldable pub store : String → Fetched → M (Unit {0})
  store url f = elim f.error [
    | some e ↦ raise (wrap "fetch" e)
    | none ↦
        if leb 500 f.status || f.status == 429
        then raise (numbered "fetch returned status" f.status)
        else if leb 400 f.status
        then (do wrapping (wrap "insert fetch row (4xx)") (insert (row_params url f none)); pure tt)
        else (do
          id ← wrapping (wrap "insert fetch row") (insert (row_params url f (some f.body)))
          wrapping (wrap "publish parse task") (
              publish env queue_listings_parse
                (json.encode_next (record { fetch_id = id; url = url }))))
  ]

  abbrev pub latest : String → World → Result ListingHtmlFetch
  latest url w = elim (get_latest_fetch_by_url url w.db.fetches) [
    | none ↦ err no_rows
    | some r ↦ ok r
  ]

  -- the switch on the lookup's error; true means skip
  unfoldable pub judge : Result ListingHtmlFetch → M Bool
  judge (ok r) w =
      (ok (recently_fetched r.fetched_at (env.clock w.ticks) cfg.min_refetch_interval), w)
  judge (err e) w = if is_no_rows e then (ok false, w) else (err (wrap "dedup lookup" e), w)

  -- the dedup gate
  unfoldable pub skips : String → M Bool
  skips url w =
      if ltb_ℤ (pos 0) cfg.min_refetch_interval
      then (let (r, w') = query env (latest url) w in judge r w')
      else (ok false, w)

  unfoldable pub download : String → M (Unit {0})
  download url w =
      let (r, w') = wait_limiter env w in
      elim r [ err e ↦ (err e, w') | ok _ ↦ let (f, w'') = fetch url w' in store url f w'' ]

  unfoldable pub handle : Bytes → M (Unit {0})
  handle body = do
    task ← wrapping (wrap "decode task") (lift (json.decode_task body))
    if str_eq task.url ""
        then raise (message "task has empty url")
        else do skip ← skips task.url; if skip then pure tt else download task.url
