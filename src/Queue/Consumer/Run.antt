-- ===== src/Queue/Consumer/Run.antt =====
-- Run and Close of internal/queue/consumer.go. Each handler has its own goroutine, so Run is a step
-- relation: the broker, the loop and the goroutines take their steps in any order. What a goroutine
-- does is one step, the whole of dispatch.
pub mod Deliveries
pub mod Shutdown
use real_estate_robot.Base.{
  ℕ, String, suc, ◌+◌, ◌<◌, ◌≡◌, Bool, true, false, Option, none, some, List, [], ◌∷◌, ◌++◌, length,
  map,
}
use real_estate_robot.Base.Int.{ℤ}
use real_estate_robot.Base.Values.{Error, Result, ok, err, wrap}
use real_estate_robot.Runtime.Env.{Env, World}
use real_estate_robot.Queue.Publisher.Returns.{joined_errors}
use real_estate_robot.Queue.Consumer.{
  Delivery, Handler, Action, Resource, connection, channel, dispatch,
}

-- A delivery with its number on the channel.
abbrev pub Tagged : Type 0
Tagged = ℕ × Delivery

-- Run after ConsumeWithContext. The channel of deliveries is open or closed, and what is in it is
-- not yet taken by the loop; wg counts the goroutines that are at work. A delivery that the broker
-- has not seen settled when the connection is lost is the broker's again, for a later consumer.
pub record Running : Type 0 where
  pub next : ℕ  -- the number of the next delivery
  pub streaming : Bool
  pub waiting : List Tagged  -- in the channel msgs
  pub at_work : List Tagged  -- taken by the loop, and not yet done
  pub settled : List (ℕ × List Action)  -- done, with what dispatch did
  pub connected : Bool
  pub unsettled : List ℕ  -- dropped from the channel, or done behind the loss: their Ack or Nack fails
  pub returned : Bool  -- Run has returned nil
  pub world : World

abbrev pub started : World → Running
started w = record {
  next = 0;
  streaming = true;
  waiting = [];
  at_work = [];
  settled = [];
  connected = true;
  unsettled = [];
  returned = false;
  world = w;
}

-- ConsumeWithContext, from its error
unfoldable pub start_consume : Option Error → World → Result Running
start_consume none w = ok (started w)
start_consume (some e) w = err (wrap "start consume" e)

module _ (env : Env) (queue : String) (max_retries : ℤ) (handler : Handler) (prefetch : ℕ) where
  abbrev pub finished : List Tagged → Tagged → List Tagged → Running → Running
  finished before x after s = record s {
    at_work = before ++ after;
    settled = (x.0, (dispatch env queue max_retries handler x.1 s.world).0) ∷ s.settled;
    world = (dispatch env queue max_retries handler x.1 s.world).1;
  }

  -- dispatch behind the loss of the connection: its Ack or Nack fails, which is logged or dropped
  abbrev pub finished_late : List Tagged → Tagged → List Tagged → Running → Running
  finished_late before x after s = record s {
    at_work = before ++ after;
    unsettled = x.0 ∷ s.unsettled;
    world = (dispatch env queue max_retries handler x.1 s.world).1;
  }

  -- The broker delivers while the channel is open and fewer than prefetch deliveries are not
  -- settled, as Qos documents, and at most once under a number. The channel is closed when ctx is
  -- cancelled, and what is in it is still taken; and it is closed when the connection is lost, and
  -- what is in it is dropped, as amqp091 documents.
  pub data Step : Running → Running → Type 0 where
    deliver :
        (s : Running) (d : Delivery)
        → s.streaming ≡ true
        → length s.waiting + length s.at_work < prefetch
        → Step s (record s { next = suc s.next; waiting = s.waiting ++ (s.next, d) ∷ [] })
    close : (s : Running) → s.streaming ≡ true → Step s (record s { streaming = false })
    lose :
        (s : Running)
        → s.connected ≡ true
        → Step s (record s {
          streaming = false;
          connected = false;
          waiting = [];
          unsettled = map (λ x. x.0) s.waiting ++ s.unsettled;
        })
    take :
        (s : Running) (x : Tagged) (rest : List Tagged)
        → s.waiting ≡ x ∷ rest
        → Step s (record s { waiting = rest; at_work = x ∷ s.at_work })
    finish :
        (s : Running) (before : List Tagged) (x : Tagged) (after : List Tagged)
        → s.connected ≡ true
        → s.at_work ≡ before ++ x ∷ after
        → Step s (finished before x after s)
    finish_late :
        (s : Running) (before : List Tagged) (x : Tagged) (after : List Tagged)
        → s.connected ≡ false
        → s.at_work ≡ before ++ x ∷ after
        → Step s (finished_late before x after s)
    return :
        (s : Running)
        → s.streaming ≡ false
        → s.waiting ≡ []
        → s.at_work ≡ []
        → s.returned ≡ false
        → Step s (record s { returned = true })

  pub data Reach (s : Running) : Running → Type 0 where
    here : Reach s s
    next : {t u : Running} → Reach s t → Step t u → Reach s u

  -- A sequence of so many steps.
  pub data Steps (s : Running) : ℕ → Running → Type 0 where
    none_yet : Steps s 0 s
    and_then : {n : ℕ} {t u : Running} → Steps s n t → Step t u → Steps s (suc n) u

-- Close: the errors of the channel's close and of the connection's; what is closed, in order
unfoldable pub close_consumer : Option Error → Option Error → List Error × List Resource
close_consumer on_channel on_connection =
    (joined_errors on_channel on_connection, channel ∷ connection ∷ [])
