-- ===== src/Async/Detached/Pause.antt =====
-- `pause_execution` under the detached policy.
use portage_realtime_tools_e.Base.{◌≡◌, true}
use portage_realtime_tools_e.Async.Handler.{Types, Handler}
use portage_realtime_tools_e.Async.Detached.Schedule.{Doubles}
use portage_realtime_tools_e.Async.Detached.{WorkerPc, Shared, Clocks, System, Step}

module _ {k : Types} (clocks : Clocks k) (d : Doubles) (new_return : k.Return)
    (zero_duration : k.Duration) where
  -- Steps of any threads through states in all of which `pause_thread_` is set.
  pub data Paused (s : System k) : System k → Type 0 where
    stays : s.shared.handler.pause_thread ≡ true → Paused s s
    goes :
        {t u : System k}
        → Paused s t
        → Step d clocks new_return zero_duration t u
        → u.shared.handler.pause_thread ≡ true
        → Paused s u

  -- The worker has not passed its wait, or has passed it to stop.
  abbrev Quiet : Shared k → WorkerPc k → Type 0
  Quiet s (WorkerPc.deciding n) = s.handler.stop_async_callback ≡ true
  Quiet s (WorkerPc.measuring n) = ⊥
  Quiet s (WorkerPc.calling n t e) = ⊥
  Quiet s _ = Unit
