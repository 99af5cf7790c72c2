-- ===== src/Base/Clock.antt =====
-- Differences of instants, as time.Time.Sub gives them.
use Prim.Native.Nat.{ℕ, ◌+◌, ◌-◌, ◌^◌, ◌≤◌, ◌<◌}
use mathlib.Core.Path.{◌≡◌}
use mathlib.Core.Logic.{◌↔◌}
use mathlib.Core.Bool.{true, ◌&&◌}
use native.Mathlib.Omega.{arith}
use real_estate_robot.Base.Tests.{ltb, leb, if◌then◌else◌}
use real_estate_robot.Base.Int.{pos, negsuc, sub_ℕ, ltb_ℤ}
use real_estate_robot.Base.Values.{Time, Duration}

abbrev pub max_duration : ℕ
max_duration = 2 ^ 63 - 1

-- The difference stops at the largest and at the smallest Duration.
unfoldable pub sub_time : Time → Time → Duration
sub_time t u =
    if leb (t - u) max_duration && leb (u - t) max_duration
    then sub_ℕ t u
    else if ltb u t
    then pos max_duration
    else negsuc max_duration

-- An age is below a window exactly while the window is open.
pub sub_time_lt_iff :
    (now t window : ℕ)
    → window ≤ max_duration
    → (ltb_ℤ (sub_time now t) (pos window) ≡ true) ↔ (now < t + window)
unfolding sub_time
sub_time_lt_iff now t window h = (λ e. ground arith, λ e. ground arith)
