-- ===== src/Async/Detached/Worker.antt =====
-- `execute_detached_callback` of async_function_handler.hpp, step by step.
use portage_realtime_tools_e.Base.{
  ℕ, ◌==◌, false, not, ◌||◌, Option, none, some, ◌∷◌, if◌then◌else◌, is_some,
}
use portage_realtime_tools_e.Async.Handler.{Types, free, by_worker}
use portage_realtime_tools_e.Async.Detached.Schedule.{Doubles, reschedule}
use portage_realtime_tools_e.Async.Detached.Places.{
  WorkerPc, starting, aborted, pause_testing, first_locking, first_testing, first_testing_stop,
  first_blocking, first_waiting, first_woken, first_releasing, beginning, first_sleeping, head,
  locking, testing, testing_stop, blocking, waiting, woken, deciding, measuring, calling, returned,
  raised, timing, scheduling, sleeping, clearing, releasing, announcing, finished, Answer, value,
  exception, begins, calls, Shared, Clocks, with_handler, hold, acquire,
}

module _ {k : Types} (d : Doubles) (clocks : Clocks k) where
  open clocks use {elapsed}

  abbrev answered : ℕ → Answer k → WorkerPc k
  answered n (value v) = returned n v
  answered n (exception e) = raised n e

  -- The three stores after the clock shows `now`; without an earlier time the subtraction throws.
  abbrev measured : ℕ → k.Time → Option k.Time → Shared k → Shared k × WorkerPc k
  measured n now none s = (s, aborted)
  measured n now (some previous) s = (
    record s {
      handler = record s.handler {
        previous_time = some now;
        current_callback_time = some now;
        current_callback_period = elapsed now previous;
      };
      marks = calls now (elapsed now previous) ∷ s.marks;
    },
    calling n now (elapsed now previous),
  )

  -- One step of the worker, for what the callback does, what `clock` and the steady clock show, and
  -- the time that the callback took; `none` while it is blocked, or has ended.
  unfoldable pub worker_step :
      Answer k → k.Time → ℕ → ℕ → Shared k → WorkerPc k → Option (Shared k × WorkerPc k)
  worker_step a now steady took s starting = some (
    s,
    if not (is_some s.handler.params.clock) || s.handler.params.exec_rate == 0
        then aborted
        else pause_testing,
  )
  worker_step a now steady took s aborted = none
  worker_step a now steady took s pause_testing =
      some (s, if s.handler.pause_thread then first_locking else beginning)
  worker_step a now steady took s first_locking = acquire s.handler.mutex by_worker s first_testing
  worker_step a now steady took s first_testing =
      some (s, if s.handler.pause_thread then first_testing_stop else first_releasing)
  worker_step a now steady took s first_testing_stop =
      some (s, if s.handler.stop_async_callback then first_releasing else first_blocking)
  worker_step a now steady took s first_blocking = some (hold s free, first_waiting)
  worker_step a now steady took s first_waiting = none
  worker_step a now steady took s first_woken = acquire s.handler.mutex by_worker s first_testing
  worker_step a now steady took s first_releasing = some (hold s free, beginning)
  worker_step a now steady took s beginning = some (
    record s {
      handler = record s.handler { previous_time = some now };
      marks = begins now ∷ s.marks;
    },
    first_sleeping,
  )
  worker_step a now steady took s first_sleeping = some (s, head steady)
  worker_step a now steady took s (head n) =
      some (s, if s.handler.stop_async_callback then finished else locking n)
  worker_step a now steady took s (locking n) = acquire s.handler.mutex by_worker s (testing n)
  worker_step a now steady took s (testing n) =
      some (s, if s.handler.pause_thread then testing_stop n else deciding n)
  worker_step a now steady took s (testing_stop n) =
      some (s, if s.handler.stop_async_callback then deciding n else blocking n)
  worker_step a now steady took s (blocking n) = some (hold s free, waiting n)
  worker_step a now steady took s (waiting n) = none
  worker_step a now steady took s (woken n) = acquire s.handler.mutex by_worker s (testing n)
  worker_step a now steady took s (deciding n) =
      some (s, if s.handler.stop_async_callback then clearing n else measuring n)
  worker_step a now steady took s (measuring n) = some (measured n now s.handler.previous_time s)
  worker_step a now steady took s (calling n t e) =
      some (record s { called = (t, e) ∷ s.called }, answered n a)
  worker_step a now steady took s (returned n v) =
      some (with_handler s (record s.handler { async_callback_return = v }), timing n)
  worker_step a now steady took s (raised n e) =
      some (with_handler s (record s.handler { async_exception = some e }), timing n)
  worker_step a now steady took s (timing n) =
      some (with_handler s (record s.handler { last_execution_time = took }), scheduling n)
  worker_step a now steady took s (scheduling n) =
      some (s, sleeping (reschedule d s.handler.params.exec_rate steady n))
  worker_step a now steady took s (sleeping n) = some (s, clearing n)
  worker_step a now steady took s (clearing n) =
      some (with_handler s (record s.handler { trigger_in_progress = false }), releasing n)
  worker_step a now steady took s (releasing n) = some (hold s free, announcing n)
  worker_step a now steady took s (announcing n) = some (s, head n)
  worker_step a now steady took s finished = none
