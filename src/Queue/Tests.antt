-- ===== src/Queue/Tests.antt =====
-- The queue's theorems at concrete deliveries, brokers and answers.
use real_estate_robot.Base.{
  ◌+◌, ◌≤◌, ◌<◌, String, ◌≡◌, refl, Option, none, List, [], ◌∷◌, arith, All, ◌⊎◌, true, false,
}
use real_estate_robot.Base.Int.{pos, int_min}
use real_estate_robot.Base.Values.{Bytes, Error, message, ok, err}
use real_estate_robot.Runtime.Env.{World, start}
use real_estate_robot.Runtime.Samples.{all_well, some_body}
use real_estate_robot.Queue.Names.{work_queues}
use real_estate_robot.Queue.Headers.{lookup, Table, end, field, array}
use real_estate_robot.Queue.Headers.Counts.{Death, entries, Carries, rejections}
use real_estate_robot.Queue.Publisher.{publish_dead, publishing}
use real_estate_robot.Queue.Consumer.{Delivery, Handler, returned, dispatch}
use real_estate_robot.Queue.Consumer.Policy.{Outcome, dispatch-Outcome}
use real_estate_robot.Queue.Consumer.Retries.{Fate, reached, lost, crashed, losses, arrivals, life}
use real_estate_robot.Queue.Consumer.Retries.DeadLetters.{Broker, first}
use real_estate_robot.Queue.Consumer.Retries.Bounds.{calls-le-budget}
use real_estate_robot.Queue.Consumer.Retries.Endings.{Ended, life-Ended}
use real_estate_robot.Queue.Publisher.Returns.{
  Return, Watching, watching, Step as Returning, arrive, close as shut, log, here as at_start,
  next as later, none_yet as no_steps, and_then as one_more,
}
use real_estate_robot.Queue.Publisher.Returns.Draining.{budget as budget_of, Steps-drained}
use real_estate_robot.Queue.Consumer.Run.{
  Running, started, finished, Step, deliver, close, take, finish, Reach, here, next, none_yet,
  and_then, lose, finish_late, finished_late,
}
use real_estate_robot.Queue.Consumer.Run.Deliveries.{IsSound, Reach-IsSound}
use real_estate_robot.Queue.Consumer.Run.Shutdown.{budget, Steps-returned}
use real_estate_robot.Queue.Topology.{
  Call, declare_calls, perform, declare, exchange_calls, stage_calls, queue_calls,
}
use real_estate_robot.Queue.Topology.Routes.{IsRouted, declare-IsRouted}

abbrev headers_with : List Death → Table
headers_with [] = end
headers_with (d ∷ ds) = field "x-death" (array (entries (d ∷ ds))) end

headers_with-Carries : (ds : List Death) → Carries (headers_with ds) ds
unfolding lookup
headers_with-Carries [] = refl
headers_with-Carries (d ∷ ds) = refl

-- A broker that writes a new line for every hop.
abbrev broker : Broker
broker = record {
  dead_letter = λ queue reason ds. record { queue = queue; reason = reason; count = 1 } ∷ ds;
  dead_letter-Bump = λ queue reason ds. first refl;
  headers = headers_with;
  headers-Carries = headers_with-Carries;
}

abbrev failing : Handler
failing d w = (returned (err (message "down")), w)

abbrev fetch_deaths : List Death
fetch_deaths =
    record { queue = "listings.fetch.retry"; reason = "expired"; count = 2 }
    ∷ record { queue = "listings.fetch"; reason = "rejected"; count = 2 }
    ∷ []

abbrev delivery : Delivery
delivery = record { headers = headers_with fetch_deaths; message_id = "id"; body = some_body }

budget_fits : 5 < int_min
budget_fits = omega arith

dead_publishes :
    (w : World) → (publish_dead all_well "listings.fetch" some_body "retries exhausted" w).0 ≡ ok tt
unfolding publish_dead publishing
dead_publishes w = refl

-- a connection that is lost and a crash before seven deliveries that are settled
abbrev nine : List Fate
nine =
    lost ∷ crashed start ∷ reached ∷ reached ∷ reached ∷ reached ∷ reached ∷ reached ∷ reached ∷ []

abbrev six : List Fate
six = reached ∷ lost ∷ reached ∷ crashed start ∷ reached ∷ reached ∷ []

calls-le-budget_example :
    (life all_well broker "listings.fetch" "id" some_body 5 failing nine fetch_deaths start).calls
      + rejections fetch_deaths
    ≤ 5 + losses nine
calls-le-budget_example =
    calls-le-budget all_well broker "listings.fetch" "id" some_body 5 failing budget_fits nine
      fetch_deaths start (omega arith)

life-Ended_example :
    Ended all_well broker "listings.fetch" "id" some_body 5 failing
      (life all_well broker "listings.fetch" "id" some_body 5 failing six fetch_deaths start)
life-Ended_example =
    life-Ended all_well broker "listings.fetch" "id" some_body 5 failing budget_fits dead_publishes
      six fetch_deaths start (omega arith) (unfold arrivals in omega arith)

dispatch-Outcome_example :
    Outcome all_well "listings.fetch"
      (pos 5)
      failing
      delivery
      start
      (dispatch all_well "listings.fetch" (pos 5) failing delivery start)
dispatch-Outcome_example = dispatch-Outcome all_well "listings.fetch" (pos 5) failing delivery start

abbrev encode_url : String → Bytes
encode_url u = some_body

abbrev accept : List Call → Option Error
accept calls = none

accepted : declare accept ≡ (ok tt, declare_calls)
unfolding declare perform declare_calls exchange_calls queue_calls stage_calls
accepted = refl

declare-IsRouted_example : All (IsRouted declare_calls) work_queues
declare-IsRouted_example = declare-IsRouted accept declare_calls accepted

-- A delivery comes, is taken and is handled, and ctx is cancelled while it is at work.
abbrev delivered : Running
delivered = record (started start) { next = 1; waiting = (0, delivery) ∷ [] }

abbrev taken : Running
taken = record delivered { waiting = []; at_work = (0, delivery) ∷ [] }

abbrev cancelled : Running
cancelled = record taken { streaming = false }

abbrev handled : Running
handled = finished all_well "listings.fetch" (pos 5) failing 1 [] (0, delivery) [] cancelled

run_so_far : Reach all_well "listings.fetch" (pos 5) failing 1 (started start) cancelled
run_so_far =
    next
      (next (next here (deliver (started start) delivery refl (omega arith)))
        (take delivered (0, delivery) [] refl))
      (close taken refl)

-- The connection is lost while the handler is at work.
abbrev severed : Running
severed = record cancelled { connected = false }

abbrev handled_late : Running
handled_late = finished_late all_well "listings.fetch" (pos 5) failing 1 [] (0, delivery) [] severed

Reach-IsSound_example : IsSound 1 handled_late
Reach-IsSound_example = Reach-IsSound all_well "listings.fetch" (pos 5) failing 1 (
    next (next run_so_far (lose cancelled refl))
      (finish_late severed [] (0, delivery) [] refl refl))

Steps-returned_example :
    (1 ≤ budget cancelled)
    × ((handled.returned ≡ true)
        ⊎ ((u : Running) × Step all_well "listings.fetch" (pos 5) failing 1 handled u))
Steps-returned_example =
    Steps-returned all_well "listings.fetch" (pos 5) failing 1
      (and_then none_yet (finish cancelled [] (0, delivery) [] refl refl)) refl

abbrev unrouted : Return
unrouted = record {
  exchange = "work";
  routing_key = "listings.none";
  reply_code = pos 312;
  reply_text = "NO_ROUTE";
  message_id = "id";
}

-- A message comes back, and Close is called before it is logged.
abbrev with_return : Watching
with_return = record watching { arrived = unrouted ∷ []; returns = unrouted ∷ [] }

abbrev closing : Watching
closing = record with_return { closed = true }

abbrev all_logged : Watching
all_logged = record closing { returns = []; logged = unrouted ∷ [] }

Steps-drained_example :
    (1 ≤ budget_of closing)
    × (((all_logged.done ≡ true) × (all_logged.logged ≡ all_logged.arrived))
        ⊎ ((u : Watching) × Returning all_logged u))
Steps-drained_example =
    Steps-drained
      (later (later at_start (arrive watching unrouted refl (omega arith))) (shut with_return refl))
      refl (one_more no_steps (log closing unrouted [] refl refl))
