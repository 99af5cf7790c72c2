-- ===== src/Demo/Tests.antt =====
-- The demonstration's theorem from the empty database.
use real_estate_robot.Base.{none, String, arith}
use real_estate_robot.Base.Values.{Bytes}
use real_estate_robot.Runtime.Env.{start}
use real_estate_robot.Runtime.Samples.{all_well, some_body}
use real_estate_robot.Demo.{main}
use real_estate_robot.Demo.Asserts.{Ends, main-Ends}

abbrev raw_json : String → Bytes
raw_json text = some_body

main-Ends_example : Ends (main all_well raw_json "postgres://db" none start)
main-Ends_example = main-Ends all_well raw_json "postgres://db" none start (omega arith)
