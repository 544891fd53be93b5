-- ===== src/Async/Synchronized/Places.antt =====
-- The worker with the synchronized policy and the threads that call the handler: where each stands.
use portage_realtime_tools_e.Base.{Bool}
use portage_realtime_tools_e.Async.Handler.{Types}

-- Where the worker stands in `execute_synchronized_callback`.
pub data WorkerPc (k : Types) : Type 0 where
  head : WorkerPc k  -- the test of the `while`
  locking : WorkerPc k
  testing : WorkerPc k  -- the predicate of `wait`, with the mutex held: `trigger_in_progress_`
  testing_stop : WorkerPc k  -- its test of `stop_async_callback_`
  blocking : WorkerPc k  -- the predicate was false; before `wait` releases the mutex
  waiting : WorkerPc k  -- blocked in `wait`, the mutex released
  woken : WorkerPc k  -- has to take the mutex again
  deciding : WorkerPc k  -- `if (!stop_async_callback_)`
  calling : WorkerPc k
  returned : k.Return → WorkerPc k  -- before the result is stored
  raised : k.Exception → WorkerPc k  -- before the exception is stored
  timing : WorkerPc k  -- before `last_execution_time_` is stored
  clearing : WorkerPc k  -- before `trigger_in_progress_ = false`
  releasing : WorkerPc k
  announcing : WorkerPc k  -- before `notify_all` on the cycle's end
  finished : WorkerPc k

-- What the callback does, and how long it takes.
pub data Answer (k : Types) : Type 0 where
  value : k.Return → Answer k
  exception : k.Exception → Answer k

-- Where a calling thread stands.
pub data ClientPc (k : Types) : Type 0 where
  idle : ClientPc k
  -- `trigger_async_callback`, past its checks
  trying : k.Time → k.Duration → ClientPc k  -- before the `try_to_lock`
  checking : k.Time → k.Duration → ClientPc k  -- the mutex is held
  marking : k.Time → k.Duration → ClientPc k  -- before `trigger_in_progress_ = true`
  timestamping : k.Time → k.Duration → ClientPc k  -- before the time is stored
  periodizing : k.Time → k.Duration → ClientPc k  -- before the period is stored
  unlocking : ClientPc k
  notifying : ClientPc k
  reading : Bool → ClientPc k  -- before the last result is read
  reading_held : ClientPc k  -- the same, with the mutex held
  giving_back : k.Return → ClientPc k  -- before the mutex is released
  -- `stop_thread`
  stopping : ClientPc k  -- before `stop_async_callback_` is stored
  stop_locking : ClientPc k
  stop_unlocking : ClientPc k
  stop_notifying : ClientPc k
  joining : ClientPc k
  -- `wait_for_trigger_cycle_to_finish`
  wait_locking : ClientPc k
  wait_testing : ClientPc k
  wait_blocking : ClientPc k  -- before `wait` releases the mutex
  wait_blocked : ClientPc k
  wait_woken : ClientPc k
  wait_unlocking : ClientPc k
  -- `pause_execution`, before `pause_thread_` is stored
  pausing : ClientPc k
  -- `reset_variables`
  reset_locking : ClientPc k
  resetting : ClientPc k
  reset_unlocking : ClientPc k

pub data Call (k : Types) : Type 0 where
  trigger_async_callback : k.Time → k.Duration → Call k
  stop_thread : Call k
  wait_for_trigger_cycle_to_finish : Call k
  pause_execution : Call k
  reset : Call k
