-- ===== src/Queue/Publisher/Batch.antt =====
-- The fan-out loop of the discovery and enrichment workers: one message for each URL, in order, up
-- to the first error.
use real_estate_robot.Base.{
  String, ◌≡◌, refl, sym, subst, ◌∙◌, ap, List, [], ◌∷◌, ◌++◌, map, append_assoc, append-nil, arith,
}
use mathlib.Core.List.{map-append}
use real_estate_robot.Base.Values.{Bytes, Error, Result, ok, err, wrap_of}
use real_estate_robot.Runtime.Env.{Env, World, M, Message, pure, wrapping, tick, ◌>>◌}
use real_estate_robot.Queue.Publisher.{
  confirm, publish, work_message, Publishes, delivered, dropped, unsure, publish-Publishes,
}

-- What a message says to whom.
abbrev pub letter : Message → String × Bytes
letter m = (m.routing_key, m.body)

abbrev pub letters : List Message → List (String × Bytes)
letters ms = map letter ms

module _ (env : Env) (queue : String) (encode : String → Bytes) where
  unfoldable pub publish_each : List String → M (Unit {0})
  publish_each [] = pure tt
  publish_each (u ∷ urls) = do
    wrapping (wrap_of "publish fetch" u) (publish env queue (encode u))
    publish_each urls

  abbrev pub addressed : List String → List (String × Bytes)
  addressed urls = map (λ u. (queue, encode u)) urls

  -- All URLs were published and confirmed in order, or the first ones were and the next was not.
  pub data Batch (urls : List String) (w : World) (after : Result (Unit {0}) × World) : Type 0 where
    whole :
        after.0 ≡ ok tt
        → letters after.1.confirmed ≡ letters w.confirmed ++ addressed urls
        → after.1.db ≡ w.db
        → after.1.requested ≡ w.requested
        → Batch urls w after
    broken :
        (e : Error) (sent : List String) (u : String) (left : List String)
        → urls ≡ sent ++ u ∷ left
        → after.0 ≡ err e
        → letters after.1.confirmed ≡ letters w.confirmed ++ addressed sent
        → after.1.db ≡ w.db
        → after.1.requested ≡ w.requested
        → Batch urls w after

  Batch-next :
      (u : String) (urls : List String) (w v : World) {after : Result (Unit {0}) × World}
      → letters v.confirmed ≡ letters w.confirmed ++ (queue, encode u) ∷ []
      → v.db ≡ w.db
      → v.requested ≡ w.requested
      → Batch urls v after
      → Batch (u ∷ urls) w after
  Batch-next u urls w v c d r (whole o c' d' r') =
      whole o (c' ∙ ap (λ t. t ++ addressed urls) c ∙ append_assoc (letters w.confirmed) _ _)
        (d' ∙ d) (r' ∙ r)
  Batch-next u urls w v c d r (broken e sent x left s o c' d' r') =
      broken e (u ∷ sent) x left (ap (λ t. u ∷ t) s) o
        (c' ∙ ap (λ t. t ++ addressed sent) c ∙ append_assoc (letters w.confirmed) _ _) (d' ∙ d)
        (r' ∙ r)

  publish_step :
      (u : String) (urls : List String) (w : World) {after : Result (Unit {0}) × World}
      → publish env queue (encode u) w ≡ after
      → Publishes (work_message env queue (encode u) w) w after
      → ((v : World) → Batch urls v (publish_each urls v))
      → Batch (u ∷ urls) w (publish_each (u ∷ urls) w)
  publish_step u urls w {after} p (delivered o s) ih =
      let v : World = tick (confirm (work_message env queue (encode u) w) w) in
      let same : publish_each (u ∷ urls) w ≡ publish_each urls v =
        (unfold publish_each in ground arith) in
      subst (Batch (u ∷ urls) w) (sym same)
        (Batch-next u urls w v (map-append letter w.confirmed _) refl refl (ih v))
  publish_step u urls w {after} p (dropped e o s) ih =
      broken (wrap_of "publish fetch" u e) [] u urls refl (unfold publish_each in ground arith)
        (unfold publish_each in ground (arith, append-nil (letters w.confirmed)))
        (unfold publish_each in ground arith) (unfold publish_each in ground arith)
  publish_step u urls w {after} p (unsure e o s) ih =
      broken (wrap_of "publish fetch" u e) [] u urls refl (unfold publish_each in ground arith)
        (unfold publish_each in ground (arith, append-nil (letters w.confirmed)))
        (unfold publish_each in ground arith) (unfold publish_each in ground arith)

  -- Whatever the broker answers, the loop confirms all URLs in order, or the first ones and then
  -- returns the error of the next; tables and requests stay as they were.
  pub publish_each-Batch : (urls : List String) (w : World) → Batch urls w (publish_each urls w)
  publish_each-Batch [] w =
      whole (unfold publish_each in refl)
        (unfold publish_each in ground (arith, append-nil (letters w.confirmed)))
        (unfold publish_each in refl) (unfold publish_each in refl)
  publish_each-Batch (u ∷ urls) w =
      publish_step u urls w refl (publish-Publishes env queue (encode u) w)
        (publish_each-Batch urls)
