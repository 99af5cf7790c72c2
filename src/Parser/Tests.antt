-- ===== src/Parser/Tests.antt =====
-- The parser's theorems at concrete pages.
use real_estate_robot.Base.{◌==◌, ◌≡◌, refl, true, false, none, some, [], ◌∷◌, ◌++◌, arith}
use real_estate_robot.Base.Int.{pos}
use real_estate_robot.Base.Values.{Bytes, Result, ok, wrap}
use real_estate_robot.Runtime.Env.{World, start, rewrap}
use real_estate_robot.Runtime.Samples.{all_well, some_body}
use real_estate_robot.Parser.State.{
  quote, backslash, marker, has_prefix, index, index_byte, walk, extract_prerendered_state,
}
use real_estate_robot.Parser.State.Literals.{
  IsBody, empty, plain, escaped, page, literal, extract-literal,
}
use real_estate_robot.Parser.Page.{Prerendered, Parsed, Reading, parsed_state}
use real_estate_robot.Parser.Worker.{Json, save_seller, save_listing, save_snapshot, save, handle}
use real_estate_robot.Storage.Sellers.Keys.{identities as seller_identities}
use real_estate_robot.Storage.Listings.Keys.{identities as listing_identities}
use real_estate_robot.Parser.Worker.Samples.{begin_func, atomic}
use real_estate_robot.Parser.Worker.Transactions.{Saved, save-Saved}
use real_estate_robot.Parser.Worker.Atomicity.{Digested, handle-Digested}
use real_estate_robot.Parser.Worker.Reparse.{Saved-again}

-- `x\"y`
abbrev inside : Bytes
inside = 120 ∷ backslash ∷ quote ∷ 121 ∷ []

-- the marker, `= `
abbrev gap : Bytes
gap = marker ++ 61 ∷ 32 ∷ []

abbrev behind : Bytes
behind = 59 ∷ quote ∷ []

abbrev html : Bytes
html = page (60 ∷ 95 ∷ []) gap inside behind

-- A decoder that gives the literal back.
abbrev decode_string : Bytes → Result Bytes
decode_string l = ok l

marked : index marker html ≡ some 2
unfolding index has_prefix
marked = refl

clear : index_byte quote gap ≡ none
unfolding index_byte
clear = refl

inside-IsBody : IsBody inside
inside-IsBody =
    plain (λ e. ground arith) (λ e. ground arith)
      (escaped (plain (λ e. ground arith) (λ e. ground arith) empty))

extract-literal_example :
    extract_prerendered_state decode_string html
    ≡ rewrap
        (wrap "decode state string literal")
        (decode_string (literal (60 ∷ 95 ∷ []) gap inside behind))
extract-literal_example =
    extract-literal (60 ∷ 95 ∷ []) gap inside behind decode_string marked clear inside-IsBody

abbrev state : Prerendered
state = record {
  ad = record {
    id = pos 9;
    url = "https://www.olx.ua/d/9";
    title = "Flat";
    description = "";
    created_time = 5;
    status = "active";
    is_business = false;
    price_value = record { bits = 43_000 };
    price_currency = "USD";
    location = record { city_name = "Kyiv"; district_name = ""; path_name = "Kyiv" };
    map_lat = record { bits = 0 };
    map_lon = record { bits = 0 };
    user = record { uuid = "u1"; name = "Olena"; created = 3 };
    params = [];
    category = "real_estate";
  };
  breadcrumbs = [];
}

abbrev reading : Reading
reading = record {
  decode_string = decode_string;
  decode_state = λ b. ok state;
  first_title = λ b. ok "";
  bytes_of = λ s. 97 ∷ [];
  sha256_hex = λ b. "e3b0c44298fc1c14";
  format_int = λ n. "9";
  format_float = λ f. "43000.00";
  to_lower = λ s. s;
  trim_space = λ s. s;
  is_positive = λ f. elim (f.bits == 0) [ true ↦ false | false ↦ true ];
  is_zero = λ f. f.bits == 0;
}

abbrev json : Json
json = record {
  decode_task = λ b. ok (record { fetch_id = pos 1; url = "https://www.olx.ua/d/9" });
  encode_next = λ u. some_body;
  scan = λ s. some (record { coefficient = pos 43_000; exponent = pos 0 });
}

abbrev stored_page : World
stored_page = record start {
  db = record start.db {
    fetches =
        record {
          id = 1;
          url = "https://www.olx.ua/d/9";
          status_code = pos 200;
          html = some html;
          headers = some_body;
          error = none;
          fetched_at = 900;
        }
        ∷ [];
  };
}

handle-Digested_example :
    Digested all_well reading json begin_func some_body stored_page
      (handle all_well reading json begin_func some_body stored_page)
handle-Digested_example =
    handle-Digested all_well reading json begin_func atomic some_body stored_page

abbrev result : Parsed
result = parsed_state reading state

abbrev once : World
once = (save all_well reading json result start).1

abbrev twice : World
twice = (save all_well reading json result once).1

first_rows : Saved all_well reading json result start.db once.db
unfolding save save_seller save_listing save_snapshot
first_rows = save-Saved all_well reading json result start refl

second_rows : Saved all_well reading json result once.db twice.db
unfolding save save_seller save_listing save_snapshot
second_rows = save-Saved all_well reading json result once refl

Saved-again_example :
    (seller_identities twice.db.sellers ≡ seller_identities once.db.sellers)
    × (listing_identities twice.db.listings ≡ listing_identities once.db.listings)
    × (twice.db.snapshots ≡ once.db.snapshots)
    × (twice.db.fetches ≡ once.db.fetches)
Saved-again_example =
    Saved-again all_well reading json result start.db once.db twice.db first_rows second_rows

walked : walk false 1 (inside ++ quote ∷ behind) ≡ some 5
unfolding walk
walked = refl
