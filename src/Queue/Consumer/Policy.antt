-- ===== src/Queue/Consumer/Policy.antt =====
-- The retry policy: one settlement for each delivery, and nothing is acked that may be lost.
use real_estate_robot.Base.{
  String, ◌≡◌, ◌≢◌, refl, true, false, [], ◌∷◌, ◌++◌, arith, inl, inr, Bool-cases,
}
use real_estate_robot.Base.Int.{ℤ, leb_ℤ}
use real_estate_robot.Base.Values.{Error, Result, ok, err}
use real_estate_robot.Runtime.Env.{Env, World}
use real_estate_robot.Queue.Headers.{x_death_count}
use real_estate_robot.Queue.Publisher.{
  publish_dead, dead_message, Publishes, delivered, dropped, unsure, publish_dead-Publishes,
}
use real_estate_robot.Queue.Consumer.{
  Delivery, Ending, returned, panicked, Handler, handler_called, dead_published, ack, nack, Settled,
  settle, give_up, attempt, dispatch,
}

module _ (env : Env) (queue : String) (max_retries : ℤ) (handler : Handler) where
  -- The four ways a delivery is settled. The budget is used up: its body was published to the dead
  -- exchange, and confirmed, and then it was acked, or that failed and it goes back to the queue.
  -- The budget is not used up: the handler ran once, and its success was acked and anything else
  -- sent to the retry queue.
  pub data Outcome (d : Delivery) (w : World) (s : Settled) : Type 0 where
    buried :
        leb_ℤ max_retries (x_death_count d.headers) ≡ true
        → s.0 ≡ dead_published ∷ ack ∷ []
        → s.1.confirmed ≡ w.confirmed ++ dead_message env queue d.body "retries exhausted" w ∷ []
        → Outcome d w s
    put_back :
        (e : Error)
        → leb_ℤ max_retries (x_death_count d.headers) ≡ true
        → (publish_dead env queue d.body "retries exhausted" w).0 ≡ err e
        → s.0 ≡ nack true ∷ []
        → s.1.confirmed ≡ w.confirmed
        → Outcome d w s
    handled :
        leb_ℤ max_retries (x_death_count d.headers) ≡ false
        → (handler d w).0 ≡ returned (ok tt)
        → s.0 ≡ handler_called ∷ ack ∷ []
        → s.1 ≡ (handler d w).1
        → Outcome d w s
    failed :
        leb_ℤ max_retries (x_death_count d.headers) ≡ false
        → (handler d w).0 ≢ returned (ok tt)
        → s.0 ≡ handler_called ∷ nack false ∷ []
        → s.1 ≡ (handler d w).1
        → Outcome d w s

  give_up-Outcome :
      (d : Delivery) (w : World) {after : Result (Unit {0}) × World}
      → leb_ℤ max_retries (x_death_count d.headers) ≡ true
      → publish_dead env queue d.body "retries exhausted" w ≡ after
      → Publishes (dead_message env queue d.body "retries exhausted" w) w after
      → Outcome d w (give_up env queue max_retries handler d w)
  unfolding give_up
  give_up-Outcome d w spent same (delivered r s) = buried spent (ground arith) (ground arith)
  give_up-Outcome d w spent same (dropped e r s) =
      put_back e spent (ground arith) (ground arith) (ground arith)
  give_up-Outcome d w spent same (unsure e r s) =
      put_back e spent (ground arith) (ground arith) (ground arith)

  attempt-Outcome :
      (d : Delivery) (w : World) (ending : Ending)
      → leb_ℤ max_retries (x_death_count d.headers) ≡ false
      → (handler d w).0 ≡ ending
      → Outcome d w (attempt env queue max_retries handler d w)
  unfolding attempt settle
  attempt-Outcome d w (returned (ok _)) left e = handled left e (ground arith) (ground arith)
  attempt-Outcome d w (returned (err x)) left e =
      failed left (λ h. cc) (ground arith) (ground arith)
  attempt-Outcome d w panicked left e = failed left (λ h. cc) (ground arith) (ground arith)

  -- Every delivery is settled in one of the four ways of Outcome.
  pub dispatch-Outcome :
      (d : Delivery) (w : World) → Outcome d w (dispatch env queue max_retries handler d w)
  unfolding dispatch
  dispatch-Outcome d w = elim (Bool-cases (leb_ℤ max_retries (x_death_count d.headers))) [
    | inl spent ↦ rw spent (give_up-Outcome d w spent refl (publish_dead-Publishes env _ _ _ w))
    | inr left ↦ rw left (attempt-Outcome d w (handler d w).0 left refl)
  ]
