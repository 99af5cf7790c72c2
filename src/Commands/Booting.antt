-- ===== src/Commands/Booting.antt =====
-- How far a worker's main comes.
use real_estate_robot.Base.{
  String, str_eq, ◌||◌, ◌≡◌, ◌≢◌, eq_iff, refl, inl, inr, true, Bool-cases, Option, none, some,
  arith,
}
use real_estate_robot.Base.Int.{pos, ltb_ℤ}
use real_estate_robot.Base.Values.{Error, ok, err}
use real_estate_robot.Runtime.Env.{World, Result-cases}
use real_estate_robot.Queue.Consumer.{
  Handler, ConsumerConfig, Dialing, check_config, open_consumer, new_consumer,
}
use real_estate_robot.Queue.Consumer.Run.{started, start_consume}
use real_estate_robot.Connections.{connect, new_publisher}
use real_estate_robot.Commands.{
  Flags, config_of, Booted, exited, running, Boot, boot_consumer, boot_publisher, boot_pool,
  boot_worker,
}

-- A configuration that NewConsumer has made of the flags: with both limits positive.
pub record IsChecked (q : String) (handler : Handler) (checked : ConsumerConfig) : Type 0 where
  pub queue : checked.queue ≡ q
  pub handler_kept : checked.handler ≡ some handler
  pub prefetch : ltb_ℤ (pos 0) checked.prefetch ≡ true
  pub max_retries : ltb_ℤ (pos 0) checked.max_retries ≡ true

-- The two variables are set, and the database and the publisher are connected.
pub record IsReady (b : Boot) : Type 0 where
  pub database_set : b.database_url ≢ ""
  pub amqp_set : b.amqp_url ≢ ""
  pub pool : (e : Error) → (connect b.pooling).result ≢ err e
  pub publisher : (e : Error) → (new_publisher b.confirming).result ≢ err e

-- How a main ends: with status 1 behind a variable that is not set or a call that fails, or with
-- the consumer subscribed.
pub data Boots (q : String) (flags : Flags) (handler : Handler) (b : Boot) (w : World)
    : Booted → Type 0 where
  unset :
      (str_eq b.database_url "" || str_eq b.amqp_url "") ≡ true
      → Boots q flags handler b w (exited 1)
  no_pool : (e : Error) → (connect b.pooling).result ≡ err e → Boots q flags handler b w (exited 1)
  no_publisher :
      (e : Error)
      → (new_publisher b.confirming).result ≡ err e
      → Boots q flags handler b w (exited 1)
  no_consumer :
      (e : Error)
      → (new_consumer b.dialing (config_of q flags handler)).result ≡ err e
      → Boots q flags handler b w (exited 1)
  unsubscribed : (e : Error) → b.consume ≡ some e → Boots q flags handler b w (exited 1)
  up :
      (checked : ConsumerConfig)
      → IsReady b
      → (new_consumer b.dialing (config_of q flags handler)).result ≡ ok checked
      → IsChecked q handler checked
      → b.consume ≡ none
      → Boots q flags handler b w (running checked (started w))

new_consumer-IsChecked :
    (d : Dialing) (q : String) (flags : Flags) (handler : Handler) (checked : ConsumerConfig)
    → (new_consumer d (config_of q flags handler)).result ≡ ok checked
    → IsChecked q handler checked
unfolding new_consumer check_config open_consumer
new_consumer-IsChecked d q flags handler checked h = record {
  queue = ground arith;
  handler_kept = ground arith;
  prefetch = ground arith;
  max_retries = ground arith;
}

module _ (q : String) (flags : Flags) (handler : Handler) (b : Boot) (w : World) where
  abbrev cfg : ConsumerConfig
  cfg = config_of q flags handler

  subscribed-Boots :
      (checked : ConsumerConfig) (answer : Option Error)
      → IsReady b
      → (new_consumer b.dialing cfg).result ≡ ok checked
      → b.consume ≡ answer
      → Boots q flags handler b w
          (elim (start_consume answer w) [ err e ↦ exited 1 | ok s ↦ running checked s ])
  unfolding start_consume
  subscribed-Boots checked none ready r e =
      up checked ready r (new_consumer-IsChecked _ q flags handler checked r) e
  subscribed-Boots checked (some x) ready r e = unsubscribed x e

  boot_consumer-Boots : IsReady b → Boots q flags handler b w (boot_consumer b cfg w)
  unfolding boot_consumer
  boot_consumer-Boots ready = elim (Result-cases (new_consumer b.dialing cfg).result) [
    | inr (e, r) ↦ rw (boot_consumer, r) (no_consumer e r)
    | inl (checked, r) ↦ rw (boot_consumer, r) (subscribed-Boots checked b.consume ready r refl)
  ]

  module _ (database : b.database_url ≢ "") (amqp : b.amqp_url ≢ "") where
    boot_publisher-Boots :
        ((e : Error) → (connect b.pooling).result ≢ err e)
        → Boots q flags handler b w (boot_publisher b cfg w)
    unfolding boot_publisher
    boot_publisher-Boots pool = elim (Result-cases (new_publisher b.confirming).result) [
      | inr (e, r) ↦ rw (boot_publisher, r) (no_publisher e r)
      | inl (_, r) ↦
          rw (boot_publisher, r)
            (boot_consumer-Boots (record {
              database_set = database;
              amqp_set = amqp;
              pool = pool;
              publisher = λ e h. ground arith;
            }))
    ]

    boot_pool-Boots : Boots q flags handler b w (boot_pool b cfg w)
    unfolding boot_pool
    boot_pool-Boots = elim (Result-cases (connect b.pooling).result) [
      | inr (e, r) ↦ rw (boot_pool, r) (no_pool e r)
      | inl (_, r) ↦ rw (boot_pool, r) (boot_publisher-Boots (λ e h. ground arith))
    ]

  -- The main of a worker with a database ends with status 1 where a variable is not set or one of
  -- its calls fails; else both are set, the database, the publisher and the consumer are connected,
  -- and it has subscribed to its queue with its handler, with a positive prefetch
  -- and a positive retry budget whatever its flags are, and no delivery is taken yet.
  pub boot_worker-Boots : Boots q flags handler b w (boot_worker b (config_of q flags handler) w)
  unfolding boot_worker
  boot_worker-Boots = elim (Bool-cases (str_eq b.database_url "" || str_eq b.amqp_url "")) [
    | inl u ↦ rw u (unset u)
    | inr u ↦ rw u (
        boot_pool-Boots (λ e. ground (arith, eq_iff b.database_url ""))
          (λ e. ground (arith, eq_iff b.amqp_url "")))
  ]
