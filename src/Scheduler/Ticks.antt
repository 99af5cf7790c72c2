-- ===== src/Scheduler/Ticks.antt =====
-- What one tick publishes.
use real_estate_robot.Base.{
  ◌+◌, String, ◌≡◌, refl, ◌∙◌, ap, sym, List, [], ◌∷◌, ◌++◌, map, length, append_assoc, append-nil,
  arith,
}
use mathlib.Core.List.{map-append}
use real_estate_robot.Base.Values.{Bytes, Result}
use real_estate_robot.Runtime.Env.{Env, World}
use real_estate_robot.Queue.Names.{queue_listings_discover}
use real_estate_robot.Queue.Publisher.{
  publish, work_message, Publishes, delivered, dropped, unsure, publish-Publishes,
}
use real_estate_robot.Queue.Publisher.Batch.{letter, letters}
use real_estate_robot.Scheduler.{DiscoveryTask, first_page, tick_all}

-- Some of the elements, in their order.
pub data IsPart : List String → List String → Type 0 where
  none_left : IsPart [] []
  kept : (u : String) {xs ys : List String} → IsPart xs ys → IsPart (u ∷ xs) (u ∷ ys)
  left_out : (u : String) {xs ys : List String} → IsPart xs ys → IsPart xs (u ∷ ys)

module _ (env : Env) (encode : DiscoveryTask → Bytes) where
  abbrev pub first_pages : List String → List (String × Bytes)
  first_pages urls = map (λ u. (queue_listings_discover, first_page env encode u)) urls

  -- Every search was tried, and the confirmed messages are those of some of them, in order.
  pub data Ticked (urls : List String) (w v : World) : Type 0 where
    ticked :
        (sent : List String)
        → IsPart sent urls
        → letters v.confirmed ≡ letters w.confirmed ++ first_pages sent
        → v.ticks ≡ w.ticks + length urls
        → v.db ≡ w.db
        → Ticked urls w v

  Ticked-one :
      (u : String) (urls : List String) (w : World) (v : World) {after : Result (Unit {0}) × World}
      → Publishes (work_message env queue_listings_discover (first_page env encode u) w) w after
      → Ticked urls after.1 v
      → Ticked (u ∷ urls) w v
  Ticked-one u urls w v {after} (delivered o s) (ticked sent p c t d) =
      let one : letters after.1.confirmed
          ≡ letters w.confirmed ++ (queue_listings_discover, first_page env encode u) ∷ [] =
        (ap (λ x. letters x.confirmed) s ∙ map-append letter w.confirmed _) in
      ticked (u ∷ sent) (kept u p)
        (c ∙ ap (λ x. x ++ first_pages sent) one ∙ append_assoc (letters w.confirmed) _ _)
        (ground arith) (ground arith)
  Ticked-one u urls w v {after} (dropped e o s) (ticked sent p c t d) =
      ticked sent (left_out u p) (ground arith) (ground arith) (ground arith)
  Ticked-one u urls w v {after} (unsure e o s) (ticked sent p c t d) =
      ticked sent (left_out u p) (ground arith) (ground arith) (ground arith)

  -- Whatever the broker answers, a tick tries every search once, and the messages that it confirms
  -- are the first-page tasks of those that worked, in order.
  pub tick_all-Ticked :
      (urls : List String) (w : World) → Ticked urls w (tick_all env encode urls w)
  unfolding tick_all
  tick_all-Ticked [] w = ticked [] none_left (sym (append-nil _)) (omega arith) refl
  tick_all-Ticked (u ∷ urls) w =
      Ticked-one u urls w _
        (publish-Publishes env queue_listings_discover (first_page env encode u) w)
        (tick_all-Ticked urls (publish env queue_listings_discover (first_page env encode u) w).1)
