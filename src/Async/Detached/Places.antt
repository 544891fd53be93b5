-- ===== src/Async/Detached/Places.antt =====
-- The places of the threads under the detached policy, and what they share.
use portage_realtime_tools_e.Base.{ℕ, Option, none, some, List, not, ◌||◌, Bool}
use portage_realtime_tools_e.Async.Handler.{Types, Handler, Mutex, free}

-- Where the worker stands in `execute_detached_callback`. A number is `next_iteration_time`.
pub data WorkerPc (k : Types) : Type 0 where
  starting : WorkerPc k  -- the checks of the clock and of the rate
  aborted : WorkerPc k  -- an exception has left the thread, which ends the program
  pause_testing : WorkerPc k  -- `if (pause_thread_)`
  first_locking : WorkerPc k
  first_testing : WorkerPc k  -- the predicate of the first `wait`, with the mutex held: `!pause_thread_`
  first_testing_stop : WorkerPc k  -- its test of `stop_async_callback_`
  first_blocking : WorkerPc k  -- the predicate was false; before `wait` releases the mutex
  first_waiting : WorkerPc k
  first_woken : WorkerPc k
  first_releasing : WorkerPc k
  beginning : WorkerPc k  -- before `previous_time_` is stored
  first_sleeping : WorkerPc k  -- before the sleep and the first `next_iteration_time`
  head : ℕ → WorkerPc k  -- the test of the `while`
  locking : ℕ → WorkerPc k
  testing : ℕ → WorkerPc k  -- the predicate of `wait`, with the mutex held: `!pause_thread_`
  testing_stop : ℕ → WorkerPc k  -- its test of `stop_async_callback_`
  blocking : ℕ → WorkerPc k  -- the predicate was false; before `wait` releases the mutex
  waiting : ℕ → WorkerPc k
  woken : ℕ → WorkerPc k
  deciding : ℕ → WorkerPc k  -- `if (!stop_async_callback_)`
  measuring : ℕ → WorkerPc k  -- before the clock is read and three fields are stored
  calling : ℕ → k.Time → k.Duration → WorkerPc k
  returned : ℕ → k.Return → WorkerPc k  -- before the result is stored
  raised : ℕ → k.Exception → WorkerPc k  -- before the exception is stored
  timing : ℕ → WorkerPc k  -- before `last_execution_time_` is stored
  scheduling : ℕ → WorkerPc k  -- before the next cycle is computed
  sleeping : ℕ → WorkerPc k  -- `sleep_until`, with the mutex held
  clearing : ℕ → WorkerPc k  -- before `trigger_in_progress_ = false`
  releasing : ℕ → WorkerPc k
  announcing : ℕ → WorkerPc k  -- before `notify_all` on the cycle's end
  finished : WorkerPc k

-- What the callback does.
pub data Answer (k : Types) : Type 0 where
  value : k.Return → Answer k
  exception : k.Exception → Answer k

-- Where a calling thread stands.
pub data ClientPc (k : Types) : Type 0 where
  idle : ClientPc k
  -- `trigger_async_callback`, past its checks
  resume_testing : ClientPc k  -- `if (pause_thread_)`
  resume_locking : ClientPc k
  resume_clearing : ClientPc k  -- before `pause_thread_ = false`
  resume_setting : ClientPc k  -- before `async_callback_return_ = T()`
  resume_timing : ClientPc k  -- before the division and the store of `previous_time_`
  faulted : ClientPc k  -- a division by zero, or a null clock
  resume_unlocking : ClientPc k
  resume_notifying : ClientPc k
  reading : ClientPc k  -- before the last result is read
  -- `stop_thread`
  stopping : ClientPc k
  stop_locking : ClientPc k
  stop_unlocking : ClientPc k
  stop_notifying : ClientPc k
  joining : ClientPc k
  -- `wait_for_trigger_cycle_to_finish`
  wait_locking : ClientPc k
  wait_testing : ClientPc k
  wait_blocking : ClientPc k  -- before `wait` releases the mutex
  wait_blocked : ClientPc k
  wait_woken : ClientPc k
  wait_unlocking : ClientPc k
  -- `pause_execution`
  pausing : ClientPc k  -- before `pause_thread_` is stored
  pause_locking : ClientPc k
  pause_unlocking : ClientPc k  -- about to return true
  -- `reset_variables`
  reset_locking : ClientPc k
  resetting : ClientPc k
  reset_unlocking : ClientPc k

pub data Call : Type 0 where
  trigger_async_callback stop_thread wait_for_trigger_cycle_to_finish pause_execution reset : Call

-- What has set `previous_time_`: the begin of the loop, a trigger that resumes the thread, or a
-- cycle, with the arguments of its callback.
pub data Mark (k : Types) : Type 0 where
  begins resumes : k.Time → Mark k
  calls : k.Time → k.Duration → Mark k

-- `marks` records the newest first, `called` the arguments of the callback.
pub record Shared (k : Types) : Type 0 where
  pub handler : Handler k
  pub marks : List (Mark k)
  pub called : List (k.Time × k.Duration)

-- The arithmetic of the clock's times, `back` for `now() - Duration(nanoseconds)`.
pub record Clocks (k : Types) : Type 0 where
  pub elapsed : k.Time → k.Time → k.Duration
  pub back : ℕ → k.Time → k.Time

module _ {k : Types} where
  abbrev pub with_handler : Shared k → Handler k → Shared k
  with_handler s h = record s { handler = h }

  -- `async_mtx_` goes from one owner to another.
  abbrev pub hold : Shared k → Mutex → Shared k
  hold s m = with_handler s (record s.handler { mutex = m })

  -- A thread that asks for the mutex waits while another has it.
  abbrev pub acquire : {P : Type 0} → Mutex → Mutex → Shared k → P → Option (Shared k × P)
  acquire free owner s p = some (hold s owner, p)
  acquire _ owner s p = none

  -- `!pause_thread_ || stop_async_callback_`
  abbrev pub may_wake : Handler k → Bool
  may_wake h = not h.pause_thread || h.stop_async_callback
