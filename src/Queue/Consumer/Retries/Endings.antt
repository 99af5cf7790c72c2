-- ===== src/Queue/Consumer/Retries/Endings.antt =====
-- How the life of a message ends, where publishing to the dead queue succeeds.
use real_estate_robot.Base.{
  ℕ, suc, ◌+◌, ◌≤◌, ◌<◌, String, ◌≡◌, List, [], ◌∷◌, ◌++◌, arith, false, refl, subst, sym,
}
use real_estate_robot.Base.Int.{pos, int_min}
use real_estate_robot.Base.Values.{Bytes, ok}
use real_estate_robot.Runtime.Env.{Env, World}
use real_estate_robot.Queue.Headers.Counts.{Death, rejections}
use real_estate_robot.Queue.Publisher.{publish_dead, dead_message}
use real_estate_robot.Queue.Consumer.{handler_called, nack, Handler, Settled, dispatch, returned}
use real_estate_robot.Queue.Consumer.Policy.{Outcome, dispatch-Outcome}
use real_estate_robot.Queue.Consumer.Policy
use real_estate_robot.Queue.Consumer.Retries.{
  Life, Verdict, Fate, reached, lost, crashed, arrivals, delivery, hop, later_in, proceed, life,
}
use real_estate_robot.Queue.Consumer.Retries.DeadLetters.{Broker}
use real_estate_robot.Queue.Consumer.Retries.Bounds.{rejections-hop, left_iff}

module _ (env : Env) (broker : Broker) (queue : String) (message_id : String) (body : Bytes)
    (budget : ℕ) (handler : Handler) where
  -- The message is gone from the broker's work and retry queues, and is not lost: a call of the
  -- handler on it returned nil, or a copy for the dead queue was confirmed last.
  pub data Ended (l : Life) : Type 0 where
    by_handler :
        (ds : List Death) (w : World)
        → (handler (delivery env broker queue message_id body budget handler ds) w).0
          ≡ returned (ok tt)
        → l.finish ≡ Verdict.handled
        → l.world ≡ (handler (delivery env broker queue message_id body budget handler ds) w).1
        → Ended l
    by_burial :
        (w : World)
        → l.finish ≡ Verdict.buried
        → l.world.confirmed ≡ w.confirmed ++ dead_message env queue body "retries exhausted" w ∷ []
        → Ended l

  Ended-later_in : (n : ℕ) (l : Life) → Ended l → Ended (later_in n l)
  Ended-later_in n l (by_handler ds w r f e) = by_handler ds w r f e
  Ended-later_in n l (by_burial w f e) = by_burial w f e

module _ (env : Env) (broker : Broker) (queue : String) (message_id : String) (body : Bytes)
    (budget : ℕ) (handler : Handler) (small : budget < int_min)
    (sure : (w : World) → (publish_dead env queue body "retries exhausted" w).0 ≡ ok tt) where
  abbrev run : List Fate → List Death → World → Life
  run = life env broker queue message_id body budget handler

  abbrev out : List Death → World → Settled
  out ds w =
      dispatch env queue (pos budget) handler
        (delivery env broker queue message_id body budget handler ds) w

  abbrev Seen : List Death → World → Type 0
  Seen ds w =
      Outcome env queue (pos budget) handler
        (delivery env broker queue message_id body budget handler ds) w (out ds w)

  abbrev next : List Death → List Death
  next = hop env broker queue message_id body budget handler

  proceed-failed :
      (retry again : World → Life) (s : Settled)
      → s.0 ≡ handler_called ∷ nack false ∷ []
      → proceed retry again s ≡ later_in 1 (retry s.1)
  unfolding proceed
  proceed-failed retry again (actions, w) e = rw e refl

  life-failed :
      (n : List Fate) (ds : List Death) (w : World)
      → (out ds w).0 ≡ handler_called ∷ nack false ∷ []
      → run (reached ∷ n) ds w ≡ later_in 1 (run n (next ds) (out ds w).1)
  unfolding life
  life-failed n ds w e = proceed-failed (run n (next ds)) (run n ds) (out ds w) e

  life_step :
      (n : List Fate) (ds : List Death) (w : World)
      → rejections ds ≤ budget
      → budget < rejections ds + suc (arrivals n)
      → ((es : List Death) (v : World)
          → rejections es ≤ budget
          → budget < rejections es + arrivals n
          → Ended env broker queue message_id body budget handler (run n es v))
      → Seen ds w
      → Ended env broker queue message_id body budget handler (run (reached ∷ n) ds w)
  unfolding life proceed
  life_step n ds w h f ih (Policy.buried spent e c) = by_burial w (ground arith) (ground arith)
  life_step n ds w h f ih (Policy.put_back x spent r e c) = absurd (ground (arith, sure w))
  life_step n ds w h f ih (Policy.handled left r e s) =
      by_handler ds w r (ground arith) (ground arith)
  life_step n ds w h f ih (Policy.failed left r e s) =
      let room : rejections ds < budget =
        ground (
          arith,
          left_iff env broker queue message_id body budget handler small ds (omega arith),
        ) in
      let one : rejections (next ds) ≡ rejections ds + 1 =
        rejections-hop env broker queue message_id body budget handler small ds in
      subst (Ended env broker queue message_id body budget handler) (sym (life-failed n ds w e)) (
        Ended-later_in env broker queue message_id body budget handler 1 _
          (ih (next ds) (out ds w).1 (omega arith) (omega arith)))

  -- For a budget below 2^63, and where a publish to the dead queue never fails, a message with at
  -- most `budget` rejections recorded ends within as many deliveries as have `budget + 1`, less
  -- those, whose Ack or Nack reaches the broker, however many others are lost or crash between them:
  -- a call of the handler on it returned nil, or a copy for the dead queue was confirmed.
  pub life-Ended :
      (fates : List Fate) (ds : List Death) (w : World)
      → rejections ds ≤ budget
      → budget < rejections ds + arrivals fates
      → Ended env broker queue message_id body budget handler (run fates ds w)
  unfolding life arrivals
  life-Ended [] ds w h f = absurd (omega arith)
  life-Ended (reached ∷ fates) ds w h f =
      life_step fates ds w h f (life-Ended fates)
        (dispatch-Outcome env queue (pos budget) handler _ w)
  life-Ended (lost ∷ fates) ds w h f =
      Ended-later_in env broker queue message_id body budget handler _ _
        (life-Ended fates ds (out ds w).1 h f)
  life-Ended (crashed v ∷ fates) ds w h f =
      Ended-later_in env broker queue message_id body budget handler _ _ (life-Ended fates ds v h f)
