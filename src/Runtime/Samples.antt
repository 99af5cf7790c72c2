-- ===== src/Runtime/Samples.antt =====
-- An environment in which every call works, for the tests of the parts.
use real_estate_robot.Base.{◌+◌, none, some, [], ◌∷◌}
use real_estate_robot.Base.Values.{Bytes, ok}
use real_estate_robot.Runtime.Env.{Env, acked, done, Request, Response}

abbrev pub page_of_request : Request → Response
page_of_request r = record {
  status = 200;
  headers = some (("Content-Type", "text/html") ∷ []);
  body = record { bytes = 60 ∷ 62 ∷ []; fault = none };
}

abbrev pub all_well : Env
all_well = record {
  clock = λ n. 1_000 + n;
  db_clock = λ n. 1_000 + n;
  new_id = λ n. "id";
  broker = λ n. acked;
  database = λ n. done;
  limiter = λ n. none;
  http = λ n r. ok (page_of_request r);
  bad_url = λ u. none;
}

-- `{}`
abbrev pub some_body : Bytes
some_body = 123 ∷ 125 ∷ []
