-- ===== src/Async/Synchronized/Examples/Rethrown.antt =====
-- A stored exception by evaluation, and the theorem at it.
use portage_realtime_tools_e.Base.{ℕ, ◌≡◌, refl, some, ℕ_discrete}
use portage_realtime_tools_e.Async.Handler.{thrown, rethrown, is_initialized, trigger_checks}
use portage_realtime_tools_e.Async.Synchronized.{
  System, trigger_async_callback, started, calls, enter,
}
use portage_realtime_tools_e.Async.Synchronized.CycleEnd.{stays, goes, Undisturbed}
use portage_realtime_tools_e.Async.Synchronized.Examples.Runs.{types, handler}
use portage_realtime_tools_e.Async.Synchronized.Exceptions.{exception_is_rethrown}

-- The callback threw 4.
abbrev failed : System types
failed = started (record handler { async_exception = some 4 })

record Later : Type 0 where
  last : System types
  undisturbed : Undisturbed 0 0 failed last

-- Thread 2 triggers.
triggered_again : Later
unfolding enter is_initialized ℕ_discrete
triggered_again = record {
  last = _;
  undisturbed = goes stays (calls 2 (trigger_async_callback 100 10) refl) (λ z. z);
}

exception_is_rethrown_example :
    ((e : ℕ) × (trigger_checks triggered_again.last.handler
        ≡ thrown (rethrown e) triggered_again.last.handler))
    × (triggered_again.last.handler.triggered ≡ failed.handler.triggered)
unfolding is_initialized
exception_is_rethrown_example =
    exception_is_rethrown {k = types} 0 0 failed triggered_again.last 4 refl refl (λ i. refl)
      triggered_again.undisturbed
