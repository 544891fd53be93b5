-- ===== src/Async/Detached/Exact.antt =====
-- An instance of `Doubles` that computes without rounding.
use portage_realtime_tools_e.Base.{ℕ, ◌+◌, ◌*◌, ◌/◌}
use portage_realtime_tools_e.Async.Detached.Schedule.{Doubles}

-- The computation without rounding but that of `ceil`; a `Double` is scaled by 10 ^ 9.
abbrev pub exact : Doubles
exact = record {
  Double = ℕ;
  milliseconds = λ late. late;
  cycle = λ rate. rate;
  divide = λ late rate. late * rate;
  ceil_int = λ x. (x + 999_999_999) / 1_000_000_000;
}
