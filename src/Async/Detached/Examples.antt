-- ===== src/Async/Detached/Examples.antt =====
-- Reachable states of a detached handler, and the theorems at them.
mod Runs
use portage_realtime_tools_e.Base.{ℕ, ◌-◌, ◌≡◌, refl, true, false, [], ◌∷◌, ℕ_discrete}
use portage_realtime_tools_e.Async.Handler.{is_initialized}
use portage_realtime_tools_e.Async.Detached.Schedule.{overrun_count, reschedule}
use portage_realtime_tools_e.Async.Detached.{
  WorkerPc, Call, Shared, worker_step, enter, client_step, wake,
}
use portage_realtime_tools_e.Async.Detached.Wakeup.{will_notify, no_lost_resume}
use portage_realtime_tools_e.Async.Detached.Exact.{exact}
use portage_realtime_tools_e.Async.Detached.Examples.Runs.{
  types, clocks, handler, handler-IsFresh, Run, worker, call, client, run_from, begun, workers,
  clients,
}

-- At 100 Hz, 25 ms after the begin of a cycle, which was to end after 10.
reschedule_test : reschedule exact 100 25_000_000 0 ≡ 30_000_000
unfolding reschedule overrun_count
reschedule_test = refl

-- The worker waits, and thread 3 has taken the pause back and has still to notify.
resuming : Run
unfolding run_from worker_step enter client_step is_initialized ℕ_discrete reschedule overrun_count
resuming =
    run_from begun (workers 0 6 (call 3 Call.trigger_async_callback ∷ clients 50_000_000 3 6 []))

-- The worker has called the callback once, and is about to call it again.
calling : Run
unfolding resuming wake
calling =
    run_from resuming
      (client 50_000_000 3 ∷ workers 60_000_000 19 (worker 60_000_000 ∷ workers 70_000_000 3 []))

calling_test : calling.last.worker ≡ WorkerPc.calling 70_000_000 70_000_000 10_000_000
unfolding calling
calling_test = refl

no_lost_resume_example : (i : ℕ) × (will_notify (resuming.last.clients i) ≡ true)
unfolding resuming
no_lost_resume_example =
    no_lost_resume clocks exact 0 0 handler resuming.last handler-IsFresh resuming.reach refl refl

-- Thread 5 is about to return from `pause_execution`.
paused : Run
unfolding run_from worker_step enter client_step ℕ_discrete
paused = run_from begun (worker 0 ∷ call 5 Call.pause_execution ∷ clients 0 5 2 [])

-- The worker finds the pause.
paused_later : Run
unfolding paused
paused_later = run_from paused (worker 0 ∷ [])

-- `stop_thread` has set its flag while the callback is about to be called.
abbrev stopped : Shared types
stopped = record {
  handler = record handler { stop_async_callback = true; pause_thread = false };
  marks = [];
  called = [];
}
