-- ===== src/Queue/Consumer/Retries.antt =====
-- The life of one message: dispatch by the consumer, a hop through the retry queue after each
-- failure, and the dead queue when the budget is used up. The broker is a parameter, and so is what
-- becomes of each delivery: its Ack or Nack may fail and its consumer may crash, and the broker then
-- delivers the message again with the headers that it had.
pub mod DeadLetters
pub mod Bounds
pub mod Endings
use Prim.Native.String.{◌++◌}
use real_estate_robot.Base.{ℕ, zero, suc, ◌+◌, String, Bool, true, false, List, [], ◌∷◌}
use real_estate_robot.Base.Int.{pos}
use real_estate_robot.Base.Values.{Bytes}
use real_estate_robot.Runtime.Env.{Env, World}
use real_estate_robot.Queue.Headers.Counts.{Death}
use real_estate_robot.Queue.Consumer.{
  Delivery, Handler, Action, handler_called, dead_published, ack, nack, Settled, dispatch,
}
use real_estate_robot.Queue.Consumer.Retries.DeadLetters.{Broker}

-- What becomes of a message after one dispatch.
pub data Verdict : Type 0 where
  handled buried dead_lettered requeued in_flight : Verdict

abbrev pub verdict : List Action → Verdict
verdict (handler_called ∷ ack ∷ []) = handled
verdict (handler_called ∷ nack false ∷ []) = dead_lettered
verdict (dead_published ∷ ack ∷ []) = buried
verdict (nack true ∷ []) = requeued
verdict _ = in_flight

abbrev pub calls_in : List Action → ℕ
calls_in (handler_called ∷ _) = 1
calls_in _ = 0

pub record Life : Type 0 where
  pub calls : ℕ  -- of the handler
  pub finish : Verdict
  pub world : World

abbrev pub later_in : ℕ → Life → Life
later_in n l = record l { calls = n + l.calls }

-- what follows a dispatch: `retry` after a hop, `again` where the message was put back
pub proceed : (World → Life) → (World → Life) → Settled → Life
proceed retry again (actions, w) = elim (verdict actions) [
  | handled ↦ record { calls = calls_in actions; finish = handled; world = w }
  | buried ↦ record { calls = calls_in actions; finish = buried; world = w }
  | dead_lettered ↦ later_in (calls_in actions) (retry w)
  | requeued ↦ later_in (calls_in actions) (again w)
  | in_flight ↦ record { calls = calls_in actions; finish = in_flight; world = w }
]

-- What becomes of one delivery: dispatch's Ack or Nack reaches the broker; or dispatch is done and it
-- does not, since the call fails or the connection is lost; or the consumer crashes within dispatch,
-- which leaves any world behind.
pub data Fate : Type 0 where
  reached : Fate
  lost : Fate
  crashed : World → Fate

-- The deliveries that the broker has to make again, and those that it has not.
unfoldable pub losses : List Fate → ℕ
losses [] = 0
losses (reached ∷ fates) = losses fates
losses (lost ∷ fates) = suc (losses fates)
losses (crashed v ∷ fates) = suc (losses fates)

unfoldable pub arrivals : List Fate → ℕ
arrivals [] = 0
arrivals (reached ∷ fates) = suc (arrivals fates)
arrivals (lost ∷ fates) = arrivals fates
arrivals (crashed v ∷ fates) = arrivals fates

module _ (env : Env) (broker : Broker) (queue : String) (message_id : String) (body : Bytes)
    (budget : ℕ) (handler : Handler) where
  -- the delivery of the message when its x-death header has the lines `ds`
  abbrev pub delivery : List Death → Delivery
  delivery ds = record { headers = broker.headers ds; message_id = message_id; body = body }

  -- a rejection on the work queue, then the end of the time to live on the retry queue
  abbrev pub hop : List Death → List Death
  hop ds = broker.dead_letter (queue ++ ".retry") "expired" (broker.dead_letter queue "rejected" ds)

  abbrev pub dispatched : List Death → World → Settled
  dispatched ds w = dispatch env queue (pos budget) handler (delivery ds) w

  -- The message through its deliveries, one for each fate. A call that a crash cuts short is a call.
  pub life : List Fate → List Death → World → Life
  life [] ds w = record { calls = 0; finish = in_flight; world = w }
  life (reached ∷ fates) ds w = proceed (life fates (hop ds)) (life fates ds) (dispatched ds w)
  life (lost ∷ fates) ds w =
      later_in (calls_in (dispatched ds w).0) (life fates ds (dispatched ds w).1)
  life (crashed v ∷ fates) ds w = later_in (calls_in (dispatched ds w).0) (life fates ds v)
