-- ===== src/Queue/Consumer/Retries/Bounds.antt =====
-- How often the handler runs for one message, and that a message comes to an end.
use Prim.Native.String.{◌++◌}
use real_estate_robot.Base.{ℕ, ◌+◌, ◌≤◌, ◌<◌, String, ◌≡◌, List, [], ◌∷◌, arith, ap, ◌∙◌, leb}
use real_estate_robot.Base.Int.{pos, leb_ℤ, int_min}
use real_estate_robot.Base.Values.{Bytes}
use real_estate_robot.Runtime.Env.{Env, World}
use real_estate_robot.Queue.Headers.{x_death_count}
use real_estate_robot.Queue.Headers.Counts.{Death, rejections, x_death_count-eq-rejections}
use real_estate_robot.Queue.Consumer.{
  Handler, Settled, Action, handler_called, dead_published, ack, nack, dispatch,
}
use real_estate_robot.Queue.Consumer.Policy.{
  Outcome, buried, put_back, handled, failed, dispatch-Outcome,
}
use real_estate_robot.Queue.Consumer.Retries.{
  Life, Fate, reached, lost, crashed, losses, calls_in, delivery, hop, proceed, life,
}
use real_estate_robot.Queue.Consumer.Retries.DeadLetters.{
  Broker, rejections-rejected, rejections-expired,
}

module _ (env : Env) (broker : Broker) (queue : String) (message_id : String) (body : Bytes)
    (budget : ℕ) (handler : Handler) (small : budget < int_min) where
  pub rejections-hop :
      (ds : List Death)
      → rejections (hop env broker queue message_id body budget handler ds) ≡ rejections ds + 1
  rejections-hop ds =
      rejections-expired (queue ++ ".retry") _ _ (broker.dead_letter-Bump _ _ _)
      ∙ rejections-rejected queue _ _ (broker.dead_letter-Bump _ _ _)

  -- The budget is left exactly while fewer rejections than it allows are recorded.
  pub left_iff :
      (ds : List Death)
      → rejections ds < int_min
      → leb_ℤ (pos budget) (x_death_count (broker.headers ds)) ≡ leb budget (rejections ds)
  left_iff ds h =
      ap (leb_ℤ (pos budget))
        (x_death_count-eq-rejections (broker.headers ds) ds (broker.headers-Carries ds) h)
      ∙ ground arith

  abbrev run : List Fate → List Death → World → Life
  run = life env broker queue message_id body budget handler

  abbrev out : List Death → World → Settled
  out ds w =
      dispatch env queue (pos budget) handler
        (delivery env broker queue message_id body budget handler ds) w

  abbrev Seen : List Death → World → Type 0
  Seen ds w =
      Outcome env queue (pos budget) handler
        (delivery env broker queue message_id body budget handler ds) w (out ds w)

  calls_step :
      (n : List Fate) (ds : List Death) (w : World)
      → rejections ds ≤ budget
      → ((es : List Death) (v : World)
          → rejections es ≤ budget
          → (run n es v).calls + rejections es ≤ budget + losses n)
      → Seen ds w
      → (run (reached ∷ n) ds w).calls + rejections ds ≤ budget + losses n
  unfolding life proceed
  calls_step n ds w h ih (buried spent e c) = ground arith
  calls_step n ds w h ih (put_back x spent r e c) = ground (arith, ih ds (out ds w).1 h)
  calls_step n ds w h ih (handled left r e s) = ground (arith, left_iff ds (omega arith))
  calls_step n ds w h ih (failed left r e s) =
      let room : rejections ds < budget = ground (arith, left_iff ds (omega arith)) in
      ground (
        arith,
        rejections-hop ds,
        ih (hop env broker queue message_id body budget handler ds) (out ds w).1
            (omega (arith, rejections-hop ds)),
      )

  calls_in-le : (actions : List Action) → calls_in actions ≤ 1
  calls_in-le [] = omega arith
  calls_in-le (handler_called ∷ rest) = omega arith
  calls_in-le (dead_published ∷ rest) = omega arith
  calls_in-le (ack ∷ rest) = omega arith
  calls_in-le (nack requeue ∷ rest) = omega arith

  -- For a budget below 2^63, and a message with at most that many rejections recorded, the handler
  -- runs at most as often as the budget has room for rejections, and once more for each delivery
  -- whose Ack or Nack does not reach the broker or whose consumer crashes, whatever it returns,
  -- however often the message is delivered and whatever becomes of the publishing.
  pub calls-le-budget :
      (fates : List Fate) (ds : List Death) (w : World)
      → rejections ds ≤ budget
      → (run fates ds w).calls + rejections ds ≤ budget + losses fates
  unfolding life proceed losses
  calls-le-budget [] ds w h = ground arith
  calls-le-budget (reached ∷ fates) ds w h =
      calls_step fates ds w h (calls-le-budget fates)
        (dispatch-Outcome env queue (pos budget) handler _ w)
  calls-le-budget (lost ∷ fates) ds w h =
      omega (arith, calls-le-budget fates ds (out ds w).1 h, calls_in-le (out ds w).0)
  calls-le-budget (crashed v ∷ fates) ds w h =
      omega (arith, calls-le-budget fates ds v h, calls_in-le (out ds w).0)
