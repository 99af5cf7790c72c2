-- ===== src/Pipeline/Tests/Samples.antt =====
-- What the libraries do in the tests of the system.
use real_estate_robot.Base.{String, true, none, some, [], ◌∷◌}
use real_estate_robot.Base.Int.{pos}
use real_estate_robot.Base.Values.{Bytes, message, Result, ok, err}
use real_estate_robot.Runtime.Samples.{some_body}
use real_estate_robot.Classification.Queries.{null}
use real_estate_robot.Discovery.{Web}
use real_estate_robot.Parser.Page.{Reading}
use real_estate_robot.Parser.Worker.{Task as ParserTask}
use real_estate_robot.Api.{Formats}
use real_estate_robot.Pipeline.{Wire}
use real_estate_robot.Pipeline.Tests.Codec.{codes, text_of}

-- A number and a text in a body.
abbrev pub decode_parse : Bytes → Result ParserTask
decode_parse [] = err (message "unexpected end of JSON input")
decode_parse (n ∷ url) = ok (record { fetch_id = pos n; url = text_of url })

abbrev pub formats : Formats
formats = record {
  decode_label = λ b. ok none;
  decode_crawl = λ b. err (message "unexpected end of JSON input");
  encode_task = λ t. codes t.search_url;
  decode_consumers = λ b. ok [];
  trim_space = λ s. s;
  atoi = λ s. none;
  parse_float = λ s. none;
  zero_float = record { bits = 0 };
  format_float_4 = λ f. "0.0000";
  scan = λ s. null;
  rfc3339 = λ t. "";
  float_of = λ d. none;
  float_of_hundredths = λ n. record { bits = n };
  average = λ l. record { bits = 0 };
  collation = λ a b. true;
  basic_auth = λ u p. u;
}

abbrev pub wire : Wire
wire = record {
  discovery = record {
    decode_task = λ b. ok (record { search_url = text_of b; page = pos 1 });
    encode_task = λ t. codes t.search_url;
    encode_fetch = λ u. codes u;
  };
  fetcher = record {
    decode_task = λ b. ok (record { url = text_of b });
    encode_next = λ t. t.fetch_id ∷ codes t.url;
    encode_map = λ m. some_body;
  };
  parser = record { decode_task = decode_parse; encode_next = λ u. codes u; scan = λ s. none };
  enrich = record {
    decode_task = λ b. ok (record { olx_user_id = text_of b });
    encode_fetch = λ u. codes u;
    links = λ n s. ok (some "https://www.olx.ua/d/2" ∷ []);
  };
  schedule = λ t. codes t.search_url;
  api = formats;
}

abbrev pub reading : Reading
reading = record {
  decode_string = λ b. ok b;
  decode_state = λ b. err (message "invalid character");
  first_title = λ b. ok "Flat";
  bytes_of = λ s. 97 ∷ [];
  sha256_hex = λ b. "e3b0c44298fc1c14";
  format_int = λ n. "9";
  format_float = λ f. "43000.00";
  to_lower = λ s. s;
  trim_space = λ s. s;
  is_positive = λ f. true;
  is_zero = λ f. true;
}

-- URLs that are texts already, all of them absolute.
abbrev pub web : Web
web = record {
  Url = String;
  parse = λ s. ok s;
  is_abs = λ u. true;
  resolve_reference = λ base u. u;
  set_raw_query = λ q u. u;
  set_fragment = λ f u. u;
  to_string = λ u. u;
  Query = String;
  query = λ u. u;
  set = λ k v q. q;
  encode = λ q. q;
  itoa = λ n. "2";
  links = λ n s. ok (some "https://www.olx.ua/d/1" ∷ []);
}
