-- ===== src/Async/Detached/Schedule.antt =====
-- The end of a cycle of `execute_detached_callback`: when the next one is to begin. Times are in
-- nanoseconds. The computation in `double` is the parameter `Doubles`; a delay so long that the count
-- does not fit an `int` is left out.
use portage_realtime_tools_e.Base.{ℕ, ◌+◌, ◌-◌, ◌*◌, ◌/◌, ltb, if◌then◌else◌}

-- `milliseconds` is a difference of times as a `duration<double, std::milli>`, `cycle` is
-- `1.e3 / static_cast<double>(rate)`, `ceil_int` is `std::ceil` and the cast of its result.
pub record Doubles : Type 1 where
  pub Double : Type 0
  pub milliseconds : ℕ → Double
  pub cycle : ℕ → Double
  pub divide : Double → Double → Double
  pub ceil_int : Double → ℕ

-- `1'000'000'000 / params_.exec_rate`
abbrev pub period_of : ℕ → ℕ
period_of rate = 1_000_000_000 / rate

module _ (d : Doubles) where
  unfoldable pub overrun_count : ℕ → ℕ → ℕ
  overrun_count rate late = d.ceil_int (d.divide (d.milliseconds late) (d.cycle rate))

  -- From `next_iteration_time += period` to the sleep, where the clock shows `time_now`.
  unfoldable pub reschedule : ℕ → ℕ → ℕ → ℕ
  reschedule rate time_now next =
      if ltb (next + period_of rate) time_now
      then next
        + period_of rate
        + overrun_count rate (time_now - (next + period_of rate)) * period_of rate
      else next + period_of rate
