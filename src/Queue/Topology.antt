-- ===== src/Queue/Topology.antt =====
-- Declare of internal/queue/topology.go: its calls on a channel, in order, up to the first error.
pub mod Routes
use Prim.Native.String.{◌++◌ as append}
use real_estate_robot.Base.{
  ℕ, String, str_eq, Bool, true, false, ◌&&◌, Option, none, some, List, [], ◌∷◌, ◌++◌,
  if◌then◌else◌,
}
use real_estate_robot.Base.Values.{Error, Result, ok, err, wrap_of}
use real_estate_robot.Queue.Names.{exchange_work, exchange_retry, exchange_dead, work_queues}

-- milliseconds
abbrev pub retry_ttl : ℕ
retry_ttl = 60_000

-- the x-message-ttl, x-dead-letter-exchange and x-dead-letter-routing-key of a queue's amqp.Table
pub record Arguments : Type 0 where
  pub ttl : Option ℕ
  pub dead_letter : Option (String × String)

pub record Exchange : Type 0 where
  pub name : String
  pub kind : String
  pub durable : Bool
  pub auto_delete : Bool

pub data Call : Type 0 where
  exchange_declare : Exchange → Call
  queue_declare : String → Arguments → Call  -- durable, not auto-deleted, not exclusive
  queue_bind : String → String → String → Call  -- queue, key, exchange

abbrev pub no_arguments : Arguments
no_arguments = record { ttl = none; dead_letter = none }

unfoldable pub exchange_calls : List String → List Call
exchange_calls [] = []
exchange_calls (ex ∷ rest) =
    exchange_declare (record { name = ex; kind = "direct"; durable = true; auto_delete = false })
    ∷ exchange_calls rest

-- one round of the loop over workQueues: the dead queue, the retry queue, the work queue
unfoldable pub stage_calls : String → List Call
stage_calls q =
    let retry = append q ".retry" in
    let dead = append q ".dead" in
    queue_declare dead no_arguments
    ∷ queue_bind dead dead exchange_dead
    ∷ queue_declare retry (record { ttl = some retry_ttl; dead_letter = some (exchange_work, q) })
    ∷ queue_bind retry retry exchange_retry
    ∷ queue_declare q (record { ttl = none; dead_letter = some (exchange_retry, retry) })
    ∷ queue_bind q q exchange_work
    ∷ []

unfoldable pub queue_calls : List String → List Call
queue_calls [] = []
queue_calls (q ∷ rest) = stage_calls q ++ queue_calls rest

unfoldable pub declare_calls : List Call
declare_calls =
    exchange_calls (exchange_work ∷ exchange_retry ∷ exchange_dead ∷ []) ++ queue_calls work_queues

unfoldable pub error_of : Call → Error → Error
error_of (exchange_declare ex) e = wrap_of "declare exchange" ex.name e
error_of (queue_declare q _) e = wrap_of "declare queue" q e
error_of (queue_bind q _ _) e = wrap_of "bind queue" q e

-- The calls run in order until the channel answers one with an error. The answer may depend on all
-- the calls made so far, the present one included; they are returned too.
unfoldable pub perform :
    (List Call → Option Error) → List Call → List Call → Result (Unit {0}) × List Call
perform answer made [] = (ok tt, made)
perform answer made (c ∷ rest) = elim (answer (made ++ c ∷ [])) [
  | none ↦ perform answer (made ++ c ∷ []) rest
  | some e ↦ (err (error_of c e), made ++ c ∷ [])
]

unfoldable pub declare : (List Call → Option Error) → Result (Unit {0}) × List Call
declare answer = perform answer [] declare_calls
