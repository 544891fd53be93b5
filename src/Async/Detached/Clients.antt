-- ===== src/Async/Detached/Clients.antt =====
-- The calls of a handler with the detached policy, step by step: trigger_async_callback, stop_thread,
-- wait_for_trigger_cycle_to_finish, pause_execution and reset_variables.
use portage_realtime_tools_e.Base.{
  ℕ, ◌==◌, true, false, not, ◌&&◌, Option, none, some, ◌∷◌, if◌then◌else◌, is_some,
}
use portage_realtime_tools_e.Async.Handler.{
  Types, Handler, free, by_client, is_initialized, reset_variables,
}
use portage_realtime_tools_e.Async.Detached.Schedule.{period_of}
use portage_realtime_tools_e.Async.Detached.Places.{
  ClientPc, idle, resume_testing, resume_locking, resume_clearing, resume_setting, resume_timing,
  faulted, resume_unlocking, resume_notifying, reading, stopping, stop_locking, stop_unlocking,
  stop_notifying, joining, wait_locking, wait_testing, wait_blocking, wait_blocked, wait_woken,
  wait_unlocking, pausing, pause_locking, pause_unlocking, reset_locking, resetting,
  reset_unlocking, Call, trigger_async_callback, stop_thread, wait_for_trigger_cycle_to_finish,
  pause_execution, reset, resumes, Shared, Clocks, with_handler, hold, acquire,
}

module _ {k : Types} where
  -- Where a call begins: a call that fails its first checks ends at once.
  unfoldable pub enter : Call → Handler k → ClientPc k
  enter trigger_async_callback h =
      if is_initialized h && not (is_some h.async_exception) then resume_testing else idle
  enter stop_thread h = if h.joinable then stopping else idle
  enter wait_for_trigger_cycle_to_finish h = if h.joinable then wait_locking else idle
  enter pause_execution h = if h.joinable then pausing else idle
  enter reset h = reset_locking

  -- The store of `previous_time_`, a period before the time that the clock shows.
  abbrev resumed : k.Time → Shared k → Shared k × ClientPc k
  resumed t s = (
    record s { handler = record s.handler { previous_time = some t }; marks = resumes t ∷ s.marks },
    resume_unlocking,
  )

  module _ (clocks : Clocks k) (new_return : k.Return) (zero : k.Duration) where
    -- One step of thread `i`, for the values that are stored and what `clock` shows. The steps that
    -- wake other threads or wait for the worker's end are those of `Step`.
    unfoldable pub client_step : k.Time → ℕ → Shared k → ClientPc k → Option (Shared k × ClientPc k)
    client_step now i s idle = none
    client_step now i s resume_testing =
        some (s, if s.handler.pause_thread then resume_locking else reading)
    client_step now i s resume_locking = acquire s.handler.mutex (by_client i) s resume_clearing
    client_step now i s resume_clearing =
        some (with_handler s (record s.handler { pause_thread = false }), resume_setting)
    client_step now i s resume_setting =
        some
          (with_handler s (record s.handler { async_callback_return = new_return }), resume_timing)
    client_step now i s resume_timing = some (
        if s.handler.params.exec_rate == 0
        then (s, faulted)
        else if is_some s.handler.params.clock
        then resumed (clocks.back (period_of s.handler.params.exec_rate) now) s
        else (s, faulted))
    client_step now i s faulted = none
    client_step now i s resume_unlocking = some (hold s free, resume_notifying)
    client_step now i s resume_notifying = none
    client_step now i s reading = some (s, idle)
    client_step now i s stopping =
        some (with_handler s (record s.handler { stop_async_callback = true }), stop_locking)
    client_step now i s stop_locking = acquire s.handler.mutex (by_client i) s stop_unlocking
    client_step now i s stop_unlocking = some (hold s free, stop_notifying)
    client_step now i s stop_notifying = none
    client_step now i s joining = none
    client_step now i s wait_locking = acquire s.handler.mutex (by_client i) s wait_testing
    client_step now i s wait_testing =
        some (s, if not s.handler.trigger_in_progress then wait_unlocking else wait_blocking)
    client_step now i s wait_blocking = some (hold s free, wait_blocked)
    client_step now i s wait_blocked = none
    client_step now i s wait_woken = acquire s.handler.mutex (by_client i) s wait_testing
    client_step now i s wait_unlocking = some (hold s free, idle)
    client_step now i s pausing =
        some (with_handler s (record s.handler { pause_thread = true }), pause_locking)
    client_step now i s pause_locking = acquire s.handler.mutex (by_client i) s pause_unlocking
    client_step now i s pause_unlocking = some (hold s free, idle)
    client_step now i s reset_locking = acquire s.handler.mutex (by_client i) s resetting
    client_step now i s resetting =
        some (with_handler s (reset_variables new_return zero s.handler), reset_unlocking)
    client_step now i s reset_unlocking = some (hold s free, idle)
