-- ===== src/Fetcher/Tests.antt =====
-- The fetcher's theorems at concrete tasks and rows.
use real_estate_robot.Base.{[], ◌∷◌}
use real_estate_robot.Base.Int.{pos}
use real_estate_robot.Base.Values.{Bytes, Result, ok}
use real_estate_robot.Runtime.Samples.{some_body}
use real_estate_robot.Fetcher.{Task, Config, Json}

abbrev config : Config
config = record { user_agent = "robot"; min_refetch_interval = pos 600 }

abbrev a_task : Task
a_task = record { url = "https://www.olx.ua/d/1" }

abbrev decode : Bytes → Result Task
decode body = ok a_task

abbrev json : Json
json = record {
  decode_task = decode;
  encode_next = λ t. t.fetch_id ∷ [];
  encode_map = λ h. some_body;
}
