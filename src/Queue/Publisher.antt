-- ===== src/Queue/Publisher.antt =====
-- Publish and PublishDead of internal/queue/publisher.go. The mutex that serialises them is not
-- modelled: a call is one step.
pub mod Batch
pub mod Returns
use Prim.Native.String.{◌++◌}
use real_estate_robot.Base.{
  String, ◌≡◌, refl, Bool, true, List, [], ◌∷◌, ◌++◌ as append, Option, none, some,
}
use real_estate_robot.Base.Values.{Bytes, Error, Result, ok, err, message, wrap, wrap_of}
use real_estate_robot.Runtime.Env.{
  Env, World, M, Message, PublishReply, rejected, unconfirmed, nacked, acked, tick,
}
use real_estate_robot.Queue.Names.{exchange_work, exchange_dead}

abbrev pub hand_over : Message → World → World
hand_over m w = record w { sent = append w.sent (m ∷ []) }

abbrev pub confirm : Message → World → World
confirm m w = record w { sent = append w.sent (m ∷ []); confirmed = append w.confirmed (m ∷ []) }

-- How a call ends, from its three error texts, the message and the broker's reply.
unfoldable pub publishing :
    (Error → Error)
    → (Error → Error)
    → Error
    → Message
    → PublishReply
    → World
    → Result (Unit {0}) × World
publishing on_send on_wait on_nack m (rejected e) w = (err (on_send e), tick w)
publishing on_send on_wait on_nack m (unconfirmed e) w = (err (on_wait e), tick (hand_over m w))
publishing on_send on_wait on_nack m nacked w = (err on_nack, tick (hand_over m w))
publishing on_send on_wait on_nack m acked w = (ok tt, tick (confirm m w))

module _ (env : Env) where
  abbrev pub work_message : String → Bytes → World → Message
  work_message q body w = record {
    exchange = exchange_work;
    routing_key = q;
    mandatory = true;
    persistent = true;
    content_type = "application/json";
    message_id = env.new_id w.ticks;
    timestamp = env.clock w.ticks;
    headers = [];
    body = body;
  }

  unfoldable pub publish : String → Bytes → M (Unit {0})
  publish q body w =
      publishing (wrap_of "publish to" q) (wrap_of "wait for confirm on" q)
        (message "broker nacked message") (work_message q body w) (env.broker w.ticks) w

  abbrev pub dead_message : String → Bytes → String → World → Message
  dead_message q body reason w = record {
    exchange = exchange_dead;
    routing_key = q ++ ".dead";
    mandatory = true;
    persistent = true;
    content_type = "application/json";
    message_id = env.new_id w.ticks;
    timestamp = env.clock w.ticks;
    headers = ("x-dead-reason", reason) ∷ ("x-original-queue", q) ∷ [];
    body = body;
  }

  unfoldable pub publish_dead : String → Bytes → String → M (Unit {0})
  publish_dead q body reason w =
      publishing (wrap "publish to dead exchange") (wrap "wait for confirm on dead publish")
        (message "broker nacked dead message") (dead_message q body reason w) (env.broker w.ticks) w

-- What a call may do: it succeeds and its message is confirmed, or it fails and none is.
pub data Publishes (m : Message) (w : World) (after : Result (Unit {0}) × World) : Type 0 where
  delivered : after.0 ≡ ok tt → after.1 ≡ tick (confirm m w) → Publishes m w after
  dropped : (e : Error) → after.0 ≡ err e → after.1 ≡ tick w → Publishes m w after
  unsure : (e : Error) → after.0 ≡ err e → after.1 ≡ tick (hand_over m w) → Publishes m w after

publishing-Publishes :
    (f g : Error → Error) (e : Error) (m : Message) (r : PublishReply) (w : World)
    → Publishes m w (publishing f g e m r w)
unfolding publishing
publishing-Publishes f g e m (rejected x) w = dropped (f x) refl refl
publishing-Publishes f g e m (unconfirmed x) w = unsure (g x) refl refl
publishing-Publishes f g e m nacked w = unsure e refl refl
publishing-Publishes f g e m acked w = delivered refl refl

module _ (env : Env) where
  pub publish-Publishes :
      (q : String) (body : Bytes) (w : World)
      → Publishes (work_message env q body w) w (publish env q body w)
  unfolding publish
  publish-Publishes q body w = publishing-Publishes _ _ _ _ _ w

  pub publish_dead-Publishes :
      (q : String) (body : Bytes) (reason : String) (w : World)
      → Publishes (dead_message env q body reason w) w (publish_dead env q body reason w)
  unfolding publish_dead
  publish_dead-Publishes q body reason w = publishing-Publishes _ _ _ _ _ w
