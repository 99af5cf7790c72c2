-- ===== src/Storage/Fetches.antt =====
-- The queries of internal/db/sqlc/fetches.sql.go on the table listing_html_fetches.
pub mod Latest
use real_estate_robot.Base.{
  ℕ, suc, ◌≤◌, String, str_eq, ◌==◌, ltb, ◌≡◌, Bool, true, Option, none, some, List, [], ◌∷◌, ◌++◌,
  find?, if◌then◌else◌, arith, All, IsExtension, IsExtension-append,
}
use real_estate_robot.Base.Int.{ℤ}
use real_estate_robot.Base.Values.{Bytes, Time, Text}
use real_estate_robot.Storage.Rows.{ListingHtmlFetch}

pub record InsertFetchParams : Type 0 where
  pub url : String
  pub status_code : ℤ
  pub html : Option Bytes
  pub headers : Bytes
  pub error : Text

-- INSERT … RETURNING: the row, with the number drawn for it and fetched_at DEFAULT NOW()
abbrev pub fetch_row : Time → ℕ → InsertFetchParams → ListingHtmlFetch
fetch_row now id p = record {
  id = id;
  url = p.url;
  status_code = p.status_code;
  html = p.html;
  headers = p.headers;
  error = p.error;
  fetched_at = now;
}

unfoldable pub insert_fetch :
    Time → ℕ → InsertFetchParams → List ListingHtmlFetch → List ListingHtmlFetch
insert_fetch now id p table = table ++ fetch_row now id p ∷ []

-- WHERE id = $1
unfoldable pub get_fetch_by_id : ℕ → List ListingHtmlFetch → Option ListingHtmlFetch
get_fetch_by_id id table = find? (λ r. r.id == id) table

-- the later of two rows; which of two rows with one fetched_at is not told apart by the program
abbrev pub later : Option ListingHtmlFetch → ListingHtmlFetch → ListingHtmlFetch
later none r = r
later (some best) r = if ltb best.fetched_at r.fetched_at then r else best

-- WHERE url = $1 ORDER BY fetched_at DESC LIMIT 1
unfoldable pub latest_from :
    Option ListingHtmlFetch → String → List ListingHtmlFetch → Option ListingHtmlFetch
latest_from best url [] = best
latest_from best url (r ∷ rs) =
    latest_from (if str_eq r.url url then some (later best r) else best) url rs

unfoldable pub get_latest_fetch_by_url : String → List ListingHtmlFetch → Option ListingHtmlFetch
get_latest_fetch_by_url url table = latest_from none url table
