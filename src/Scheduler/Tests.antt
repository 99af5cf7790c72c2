-- ===== src/Scheduler/Tests.antt =====
-- The scheduler's theorems at concrete searches.
use real_estate_robot.Base.{String, true, false, List, [], ◌∷◌, refl}
use real_estate_robot.Base.Int.{pos}
use real_estate_robot.Base.Values.{Bytes}
use real_estate_robot.Runtime.Env.{World, start}
use real_estate_robot.Runtime.Samples.{all_well, some_body}
use real_estate_robot.Scheduler.{DiscoveryTask, tick_all}
use real_estate_robot.Scheduler.Loop.{
  Loop, returned, Reach, here, next, signal, begins, elapses, takes, leaves, Scheduled,
  Reach-Scheduled,
}

abbrev encode : DiscoveryTask → Bytes
encode task = some_body

abbrev searches : List String
searches = "a" ∷ "b" ∷ []

abbrev once : World
once = tick_all all_well encode searches start

abbrev twice : World
twice = tick_all all_well encode searches once

abbrev stopped : Loop
stopped = record { phase = returned; cancelled = true; waiting = false; world = twice }

-- the tick at once, two intervals with one tick behind them, and a signal
stopped_loop : Reach all_well encode searches (pos 60) start 2 stopped
stopped_loop =
    next
      (next (next (next (next (next here (begins refl refl)) (elapses refl)) (elapses refl)) signal)
        (takes refl refl))
      (leaves refl refl)

Reach-Scheduled_example : Scheduled all_well encode searches (pos 60) start 2 stopped
Reach-Scheduled_example = Reach-Scheduled all_well encode searches (pos 60) stopped_loop
