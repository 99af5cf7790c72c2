-- ===== src/Commands/Tests.antt =====
-- The commands' theorems at concrete variables and deliveries.
use real_estate_robot.Base.{refl, true, inl, none}
use real_estate_robot.Base.Int.{pos}
use real_estate_robot.Base.Values.{ok}
use real_estate_robot.Runtime.Env.{start}
use real_estate_robot.Runtime.Samples.{all_well, some_body}
use real_estate_robot.Queue.Names.{queue_listings_fetch}
use real_estate_robot.Queue.Headers.{end}
use real_estate_robot.Queue.Consumer.{Delivery, dispatch}
use real_estate_robot.Fetcher.{Json}
use real_estate_robot.Connections.{Confirming}
use real_estate_robot.Commands.{Flags, Boot, fetcher_handler}
use real_estate_robot.Commands.Booting.{Boots}
use real_estate_robot.Commands.Mains.{fetcher, main, main-Boots}
use real_estate_robot.Commands.Serving.{
  began, ended, signal, leaves, returns, Steps, here, next, IsJustified, Steps-IsJustified,
}
use real_estate_robot.Commands.Fetching.{Accounted, dispatch-Accounted}

abbrev json : Json
json = record {
  decode_task = λ b. ok (record { url = "https://www.olx.ua/d/1" });
  encode_next = λ t. some_body;
  encode_map = λ m. some_body;
}

abbrev delivery : Delivery
delivery = record { headers = end; message_id = "id"; body = some_body }

dispatch-Accounted_example : Accounted all_well json (pos 0) (pos 3) delivery start (
    dispatch all_well queue_listings_fetch
      (pos 3)
      (fetcher_handler all_well json (pos 0))
      delivery
      start)
dispatch-Accounted_example = dispatch-Accounted all_well json (pos 0) (pos 3) delivery start

abbrev confirming : Confirming
confirming = record { dial = none; open_channel = none; confirm = none }

abbrev flags : Flags
flags = record { prefetch = pos 0; max_retries = pos 0 }

abbrev boot : Boot
boot = record {
  database_url = "postgres://db";
  amqp_url = "amqp://mq";
  pooling = record { parse = none; create = none; ping = none };
  confirming = confirming;
  dialing = record { dial = none; open_channel = none; qos = λ n. none };
  consume = none;
}

main-Boots_example :
    Boots queue_listings_fetch flags
      (fetcher_handler all_well json (pos 0))
      boot
      start
      (main all_well (fetcher json (pos 0)) flags boot start)
main-Boots_example = main-Boots all_well (fetcher json (pos 0)) flags boot start

-- A signal, and then the shutdown.
signalled : Steps (record began { cancelled = true; phase = ended 0 })
signalled = next (next (next here (signal (inl refl))) (leaves refl refl)) (returns none refl)

Steps-IsJustified_example : IsJustified (record began { cancelled = true; phase = ended 0 })
Steps-IsJustified_example = Steps-IsJustified signalled
