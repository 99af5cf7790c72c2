-- ===== src/Queue/Consumer.antt =====
-- internal/queue/consumer.go: the configuration, opening a consumer, and the retry policy.
pub mod Policy
pub mod Opening
pub mod Retries
pub mod Run
use real_estate_robot.Base.{
  ℕ, String, str_eq, Bool, true, false, Option, none, some, List, [], ◌∷◌, ◌++◌, if◌then◌else◌,
}
use real_estate_robot.Base.Int.{ℤ, pos, leb_ℤ}
use real_estate_robot.Base.Values.{Bytes, Error, Result, ok, err, message, wrap}
use real_estate_robot.Runtime.Env.{Env, World}
use real_estate_robot.Queue.Headers.{Table, x_death_count}
use real_estate_robot.Queue.Publisher.{publish_dead}

-- amqp.Delivery
pub record Delivery : Type 0 where
  pub headers : Table
  pub message_id : String
  pub body : Bytes

-- How a handler ends: it returns nil or an error, or it panics.
pub data Ending : Type 0 where
  returned : Result (Unit {0}) → Ending
  panicked : Ending

abbrev pub Handler : Type 0
Handler = Delivery → World → Ending × World

pub record ConsumerConfig : Type 0 where
  pub queue : String
  pub prefetch : ℤ
  pub max_retries : ℤ
  pub handler : Option Handler

-- What dispatch does, in order: the deferred Nack of a panic included. `ack` and `nack` are the
-- calls. The error of a call is logged or dropped, and nothing follows it: what then becomes of the
-- delivery is the broker's part, in Retries and in Run.
pub data Action : Type 0 where
  handler_called : Action
  dead_published : Action
  ack : Action
  nack : Bool → Action  -- Nack(false, requeue)

-- the tests and defaults at the top of NewConsumer
unfoldable pub check_config : ConsumerConfig → Result ConsumerConfig
check_config cfg = elim cfg.handler [
  | none ↦ err (message "queue: ConsumerConfig.Handler is required")
  | some _ ↦
      if str_eq cfg.queue ""
      then err (message "queue: ConsumerConfig.Queue is required")
      else ok (record cfg {
        prefetch = (if leb_ℤ cfg.prefetch (pos 0) then pos 1 else cfg.prefetch);
        max_retries = (if leb_ℤ cfg.max_retries (pos 0) then pos 5 else cfg.max_retries);
      })
]

-- What NewConsumer opens and closes, and how far the broker lets it come.
pub data Resource : Type 0 where
  connection channel : Resource

pub record Opened : Type 0 where
  pub result : Result ConsumerConfig
  pub opened : List Resource
  pub closed : List Resource

pub record Dialing : Type 0 where
  pub dial : Option Error  -- amqp.Dial
  pub open_channel : Option Error  -- conn.Channel
  pub qos : ℤ → Option Error  -- ch.Qos(prefetch, 0, false)

unfoldable pub open_consumer : Dialing → ConsumerConfig → Opened
open_consumer d cfg = elim d.dial [
  | some e ↦ record { result = err (wrap "dial amqp" e); opened = []; closed = [] }
  | none ↦ elim d.open_channel [
    | some e ↦ record {
      result = err (wrap "open channel" e);
      opened = connection ∷ [];
      closed = connection ∷ [];
    }
    | none ↦ elim (d.qos cfg.prefetch) [
      | some e ↦ record {
        result = err (wrap "set qos" e);
        opened = connection ∷ channel ∷ [];
        closed = channel ∷ connection ∷ [];
      }
      | none ↦ record { result = ok cfg; opened = connection ∷ channel ∷ []; closed = [] }
    ]
  ]
]

unfoldable pub new_consumer : Dialing → ConsumerConfig → Opened
new_consumer d cfg = elim (check_config cfg) [
  | err e ↦ record { result = err e; opened = []; closed = [] }
  | ok cfg' ↦ open_consumer d cfg'
]

-- The settled delivery: what was done, in order, and the world after it.
abbrev pub Settled : Type 0
Settled = List Action × World

-- the branch of a handler's end: Ack on nil, Nack(false, false) on an error and on a panic, with
-- nothing but a log line behind an Ack that fails
unfoldable pub settle : Ending → World → Settled
settle (returned (ok _)) w = (handler_called ∷ ack ∷ [], w)
settle (returned (err _)) w = (handler_called ∷ nack false ∷ [], w)
settle panicked w = (handler_called ∷ nack false ∷ [], w)

module _ (env : Env) (queue : String) (max_retries : ℤ) (handler : Handler) where
  -- the branch of an exhausted budget: publish first, then ack
  unfoldable pub give_up : Delivery → World → Settled
  give_up d w =
      let (r, w') = publish_dead env queue d.body "retries exhausted" w in
      elim r [ err _ ↦ (nack true ∷ [], w') | ok _ ↦ (dead_published ∷ ack ∷ [], w') ]

  unfoldable pub attempt : Delivery → World → Settled
  attempt d w = let (ending, w') = handler d w in settle ending w'

  unfoldable pub dispatch : Delivery → World → Settled
  dispatch d w = if leb_ℤ max_retries (x_death_count d.headers) then give_up d w else attempt d w
