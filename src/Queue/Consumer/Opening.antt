-- ===== src/Queue/Consumer/Opening.antt =====
-- Opening a consumer: the defaults, and that no connection is left behind by an error.
use real_estate_robot.Base.{◌≡◌, ◌≢◌, true, none, [], arith, eq_iff}
use mathlib.Core.List.{reverse}
use real_estate_robot.Base.Int.{pos, ltb_ℤ}
use real_estate_robot.Base.Values.{ok, err}
use real_estate_robot.Queue.Consumer.{
  ConsumerConfig, check_config, Dialing, Opened, open_consumer, new_consumer,
}

-- What a caller gets from NewConsumer: with an error, everything opened was closed, in reverse
-- order; without one, nothing was closed, the queue has a name, there is a handler, and both the
-- prefetch and the retry budget are positive.
abbrev pub Accounts : Opened → Type 0
Accounts o = elim o.result [
  | err e ↦ o.closed ≡ reverse o.opened
  | ok cfg ↦
      (o.closed ≡ [])
      × (cfg.queue ≢ "")
      × (cfg.handler ≢ none)
      × (ltb_ℤ (pos 0) cfg.prefetch ≡ true)
      × (ltb_ℤ (pos 0) cfg.max_retries ≡ true)
]

-- NewConsumer closes what it opened, in reverse order, on every error; on success nothing is
-- closed and the configuration is complete: a queue name, a handler, a positive prefetch and a
-- positive retry budget.
pub new_consumer-Accounts : (d : Dialing) (cfg : ConsumerConfig) → Accounts (new_consumer d cfg)
unfolding new_consumer check_config open_consumer
new_consumer-Accounts d cfg = ground (arith, eq_iff cfg.queue "")
