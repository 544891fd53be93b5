-- ===== src/Async/Synchronized/Examples/Executed.antt =====
-- A cycle that the worker executes, and the theorem at it.
use mathlib.Core.Path.{ap}
use portage_realtime_tools_e.Base.{
  ℕ, ◌≡◌, refl, false, some, List, [], ◌∷◌, ℕ_discrete, update-updates,
}
use portage_realtime_tools_e.Async.Handler.{is_initialized}
use portage_realtime_tools_e.Async.Synchronized.{
  WorkerPc, ClientPc, value, trigger_async_callback, worker_step, enter, client_step, wake,
}
use portage_realtime_tools_e.Async.Synchronized.Invariant.{Cycle, client_holds}
use portage_realtime_tools_e.Async.Synchronized.Shutdown.{run_worker}
use portage_realtime_tools_e.Async.Synchronized.Progress.{
  Keeps, cycle_of, triggered_cycle_is_executed,
}
use portage_realtime_tools_e.Async.Synchronized.Examples.Places.{trigger_places}
use portage_realtime_tools_e.Async.Synchronized.Examples.Runs.{
  types, handler, handler-IsFresh, Run, call, run_from, begun, clients,
}

-- Thread 5 has triggered a cycle, and the worker is at the head of its loop.
set_off : Run
unfolding run_from worker_step enter client_step is_initialized ℕ_discrete wake
set_off = run_from begun (call 5 (trigger_async_callback 100 10) ∷ clients 5 8 [])

set_off_idle : (i : ℕ) → set_off.last.clients i ≡ ClientPc.idle
unfolding set_off
set_off_idle i = update-updates (λ j. ClientPc.idle) 5 i trigger_places ClientPc.idle refl

set_off_test :
    (set_off.last.worker ≡ WorkerPc.head)
    × (cycle_of set_off.last.handler ≡ (some 100, 10))
    × (set_off.last.handler.executed ≡ [])
unfolding set_off
set_off_test = (refl, refl, refl)

triggered_cycle_is_executed_example :
    let t = (run_worker (λ n. value 7) (λ n. 3) 9 set_off.last.handler set_off.last.worker).0 in
    let cycle = cycle_of set_off.last.handler in
    (t.executed ≡ cycle ∷ set_off.last.handler.executed)
    × ((past : List (Cycle types)) × (set_off.last.handler.triggered ≡ cycle ∷ past))
    × (t.trigger_in_progress ≡ false)
    × Keeps (value 7) t
unfolding set_off
triggered_cycle_is_executed_example =
    triggered_cycle_is_executed 0 0 handler set_off.last (value 7) (λ n. 3) handler-IsFresh
      set_off.reach refl refl refl (λ i. ap client_holds (set_off_idle i))
