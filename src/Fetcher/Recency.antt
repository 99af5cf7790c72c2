-- ===== src/Fetcher/Recency.antt =====
-- The window of the fetcher's dedup gate.
use real_estate_robot.Base.{ℕ, ◌+◌, ◌≤◌, ◌<◌, ◌≡◌, ◌≢◌, ◌↔◌, true, arith}
use real_estate_robot.Base.Int.{pos}
use real_estate_robot.Base.Clock.{max_duration, sub_time}
use real_estate_robot.Fetcher.{recently_fetched}

-- For a window of `interval` nanoseconds, a URL counts as fetched recently exactly when there is a
-- window, the fetch has a time, and the window that opened with it has not closed: at its very end
-- it counts no more. Differences too large for a Duration do not change this.
pub recently_fetched_iff :
    (fetched_at now interval : ℕ)
    → interval ≤ max_duration
    → (recently_fetched fetched_at now (pos interval) ≡ true)
      ↔ ((0 < interval) × (fetched_at ≢ 0) × (now < fetched_at + interval))
unfolding recently_fetched sub_time
recently_fetched_iff fetched_at now interval h = (λ e. ground arith, λ e. ground arith)
