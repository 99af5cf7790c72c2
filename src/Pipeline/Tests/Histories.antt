-- ===== src/Pipeline/Tests/Histories.antt =====
-- A concrete history: one page is fetched, it is parsed, and its seller's profile is read.
use real_estate_robot.Base.{◌∷◌}
use real_estate_robot.Base.Int.{pos}
use real_estate_robot.Runtime.Env.{World, start}
use real_estate_robot.Runtime.Samples.{all_well}
use real_estate_robot.Queue.Names.{queue_listings_fetch, queue_listings_parse, queue_sellers_enrich}
use real_estate_robot.Queue.Headers.{end}
use real_estate_robot.Queue.Consumer.{Delivery, dispatch}
use real_estate_robot.Enrich.{new as new_enrich, handle as enrich_seller}
use real_estate_robot.Parser.Worker.{handle as parse_page}
use real_estate_robot.Parser.Worker.Samples.{begin_func, atomic}
use real_estate_robot.Commands.{user_agent, fetcher_handler, handler_of}
use real_estate_robot.Pipeline.System.{History, begun, then, fetches, parses, enriches}
use real_estate_robot.Pipeline.Tests.Samples.{wire, reading}
use real_estate_robot.Pipeline.Tests.Codec.{codes}

abbrev pub asked : Delivery
asked = record { headers = end; message_id = "id"; body = codes "https://www.olx.ua/d/1" }

abbrev pub fetched : World
fetched =
    (dispatch all_well queue_listings_fetch (pos 3) (fetcher_handler all_well wire.fetcher (pos 0))
      asked start).1

abbrev pub passed_on : Delivery
passed_on = record { headers = end; message_id = "id"; body = 1 ∷ codes "https://www.olx.ua/d/1" }

abbrev pub stored : World
stored =
    (dispatch all_well queue_listings_parse (pos 3)
      (handler_of (parse_page all_well reading wire.parser begin_func)) passed_on fetched).1

pub fetched_once : History wire fetched
fetched_once = then begun (fetches all_well (pos 0) (pos 3) asked start)

pub parsed_too : History wire stored
parsed_too = then fetched_once (parses all_well reading begin_func (pos 3) passed_on fetched atomic)

abbrev pub known : Delivery
known = record { headers = end; message_id = "id"; body = codes "stub-user-e3b0c44298fc" }

-- six hours, by the default
abbrev pub visited : World
visited =
    (dispatch all_well queue_sellers_enrich (pos 3)
      (handler_of (
        enrich_seller all_well (new_enrich (record { user_agent = user_agent; freshness = pos 0 }))
          wire.enrich))
      known stored).1

pub enriched_too : History wire visited
enriched_too = then parsed_too (enriches all_well (pos 0) (pos 3) known stored)
