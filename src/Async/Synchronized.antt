-- ===== src/Async/Synchronized.antt =====
-- async_function_handler.hpp with the synchronized policy: the worker thread, which runs
-- `execute_synchronized_callback`, and any number of threads that call the handler. Each access to
-- a shared field, each call on `async_mtx_` and on the two condition variables, is one step; the
-- resets of `reset_variables`, all under the mutex, are one, and so are the checks with which a call
-- begins. The user's callback and predicate answer as they like.
mod Places
pub mod Invariant
pub mod Cycles
pub mod CycleEnd
pub mod Stranded
pub mod Shutdown
pub mod Exceptions
pub mod Held
pub mod Progress
mod Examples
pub use Places.*
use Places.{
  WorkerPc, ClientPc, Call, Answer, head, locking, testing, testing_stop, blocking, waiting, woken,
  deciding, calling, returned, raised, timing, clearing, releasing, announcing, finished, value,
  exception, idle, trying, checking, marking, timestamping, periodizing, unlocking, notifying,
  reading, reading_held, giving_back, stopping, stop_locking, stop_unlocking, stop_notifying,
  joining, wait_locking, wait_testing, wait_blocking, wait_blocked, wait_woken, wait_unlocking,
  pausing, reset_locking, resetting, reset_unlocking, trigger_async_callback, stop_thread,
  wait_for_trigger_cycle_to_finish, pause_execution, reset,
}
use portage_realtime_tools_e.Base.{
  ℕ, ◌≡◌, ◌≢◌, Bool, true, false, not, ◌&&◌, ◌||◌, Option, none, some, ◌∷◌, update, if◌then◌else◌,
  is_some,
}
use portage_realtime_tools_e.Async.Handler.{
  Types, Handler, Mutex, free, by_worker, by_client, is_initialized, reset_variables,
}

module _ {k : Types} where
  abbrev acquire : {P : Type 0} → Mutex → Mutex → Handler k → P → Option (Handler k × P)
  acquire free owner h p = some (record h { mutex = owner }, p)
  acquire _ owner h p = none

  -- `trigger_in_progress_ || stop_async_callback_`
  abbrev pub may_wake : Handler k → Bool
  may_wake h = h.trigger_in_progress || h.stop_async_callback

  abbrev answered : Answer k → WorkerPc k
  answered (value v) = returned v
  answered (exception e) = raised e

  -- One step of the worker; `none` while it is blocked, or has ended.
  unfoldable pub worker_step :
      Answer k → ℕ → Handler k → WorkerPc k → Option (Handler k × WorkerPc k)
  worker_step a time h head = some (h, if h.stop_async_callback then finished else locking)
  worker_step a time h locking = acquire h.mutex by_worker h testing
  worker_step a time h testing = some (h, if h.trigger_in_progress then deciding else testing_stop)
  worker_step a time h testing_stop = some (h, if h.stop_async_callback then deciding else blocking)
  worker_step a time h blocking = some (record h { mutex = free }, waiting)
  worker_step a time h waiting = none
  worker_step a time h woken = acquire h.mutex by_worker h testing
  worker_step a time h deciding = some (h, if h.stop_async_callback then clearing else calling)
  worker_step a time h calling = some (
    record h { executed = (h.current_callback_time, h.current_callback_period) ∷ h.executed },
    answered a,
  )
  worker_step a time h (returned v) = some (record h { async_callback_return = v }, timing)
  worker_step a time h (raised e) = some (record h { async_exception = some e }, timing)
  worker_step a time h timing = some (record h { last_execution_time = time }, clearing)
  worker_step a time h clearing = some (record h { trigger_in_progress = false }, releasing)
  worker_step a time h releasing = some (record h { mutex = free }, announcing)
  worker_step a time h announcing = some (h, head)
  worker_step a time h finished = none

  -- Where a call begins: a call that fails its first checks ends at once.
  unfoldable pub enter : Call k → Handler k → ClientPc k
  enter (trigger_async_callback time period) h =
      if is_initialized h && not (is_some h.async_exception) && h.joinable
      then trying time period
      else idle
  enter stop_thread h = if h.joinable then stopping else idle
  enter wait_for_trigger_cycle_to_finish h = if h.joinable then wait_locking else idle
  enter pause_execution h = pausing
  enter reset h = reset_locking

  -- `try_to_lock`
  abbrev try_lock : Mutex → ℕ → Handler k → ClientPc k → Option (Handler k × ClientPc k)
  try_lock free i h p = some (record h { mutex = by_client i }, p)
  try_lock _ i h p = some (h, reading false)

  -- One step of thread `i`, for the values that `reset_variables` stores, and what the predicate
  -- answers. The steps that wake other threads or wait for the worker's end are those of `Step`.
  unfoldable pub client_step :
      k.Return → k.Duration → Bool → ℕ → Handler k → ClientPc k → Option (Handler k × ClientPc k)
  client_step new_return zero wanted i h idle = none
  client_step new_return zero wanted i h (trying time period) =
      try_lock h.mutex i h (checking time period)
  client_step new_return zero wanted i h (checking time period) =
      some (h, if not h.trigger_in_progress && wanted then marking time period else reading_held)
  client_step new_return zero wanted i h (marking time period) =
      some (record h { trigger_in_progress = true }, timestamping time period)
  client_step new_return zero wanted i h (timestamping time period) =
      some (record h { current_callback_time = some time }, periodizing time period)
  client_step new_return zero wanted i h (periodizing time period) = some (
    record h { current_callback_period = period; triggered = (some time, period) ∷ h.triggered },
    unlocking,
  )
  client_step new_return zero wanted i h unlocking = some (record h { mutex = free }, notifying)
  client_step new_return zero wanted i h notifying = none
  client_step new_return zero wanted i h (reading status) = some (h, idle)
  client_step new_return zero wanted i h reading_held =
      some (h, giving_back h.async_callback_return)
  client_step new_return zero wanted i h (giving_back v) = some (record h { mutex = free }, idle)
  client_step new_return zero wanted i h stopping =
      some (record h { stop_async_callback = true }, stop_locking)
  client_step new_return zero wanted i h stop_locking =
      acquire h.mutex (by_client i) h stop_unlocking
  client_step new_return zero wanted i h stop_unlocking =
      some (record h { mutex = free }, stop_notifying)
  client_step new_return zero wanted i h stop_notifying = none
  client_step new_return zero wanted i h joining = none
  client_step new_return zero wanted i h wait_locking = acquire h.mutex (by_client i) h wait_testing
  client_step new_return zero wanted i h wait_testing =
      some (h, if h.trigger_in_progress then wait_blocking else wait_unlocking)
  client_step new_return zero wanted i h wait_blocking =
      some (record h { mutex = free }, wait_blocked)
  client_step new_return zero wanted i h wait_blocked = none
  client_step new_return zero wanted i h wait_woken = acquire h.mutex (by_client i) h wait_testing
  client_step new_return zero wanted i h wait_unlocking = some (record h { mutex = free }, idle)
  client_step new_return zero wanted i h pausing =
      some (record h { pause_thread = true }, if h.joinable then wait_locking else idle)
  client_step new_return zero wanted i h reset_locking = acquire h.mutex (by_client i) h resetting
  client_step new_return zero wanted i h resetting =
      some (reset_variables new_return zero h, reset_unlocking)
  client_step new_return zero wanted i h reset_unlocking = some (record h { mutex = free }, idle)

  -- `notify_one` of the worker, the only one that waits for a trigger.
  unfoldable pub wake : WorkerPc k → WorkerPc k
  wake waiting = woken
  wake p = p

  -- `notify_all` of those that wait for a cycle to end.
  unfoldable pub wake_waiter : ClientPc k → ClientPc k
  wake_waiter wait_blocked = wait_woken
  wake_waiter p = p

pub record System (k : Types) : Type 0 where
  pub handler : Handler k
  pub worker : WorkerPc k
  pub clients : ℕ → ClientPc k

-- One step of some thread. A wait may also end with no notification. `start_thread` is called when
-- no worker runs, and a new one starts at the head of its loop.
pub data Step {k : Types} (new_return : k.Return) (zero : k.Duration) (s : System k)
    : System k → Type 0 where
  worker_runs :
      (a : Answer k) (time : ℕ) {h : Handler k} {p : WorkerPc k}
      → worker_step a time s.handler s.worker ≡ some (h, p)
      → s.worker ≢ announcing
      → Step new_return zero s (record s { handler = h; worker = p })
  announces :
      s.worker ≡ announcing
      → Step new_return zero s
          (record s { worker = head; clients = λ i. wake_waiter (s.clients i) })
  worker_wakes_up : s.worker ≡ waiting → Step new_return zero s (record s { worker = woken })
  calls :
      (i : ℕ) (c : Call k)
      → s.clients i ≡ idle
      → Step new_return zero s (record s { clients = update s.clients i (enter c s.handler) })
  client_runs :
      (wanted : Bool) (i : ℕ) {h : Handler k} {p : ClientPc k}
      → client_step new_return zero wanted i s.handler (s.clients i) ≡ some (h, p)
      → Step new_return zero s (record s { handler = h; clients = update s.clients i p })
  client_wakes_up :
      (i : ℕ)
      → s.clients i ≡ wait_blocked
      → Step new_return zero s (record s { clients = update s.clients i wait_woken })
  notifies :
      (i : ℕ)
      → s.clients i ≡ notifying
      → Step new_return zero s
          (record s { worker = wake s.worker; clients = update s.clients i (reading true) })
  stop_notifies :
      (i : ℕ)
      → s.clients i ≡ stop_notifying
      → Step new_return zero s
          (record s { worker = wake s.worker; clients = update s.clients i joining })
  joins :
      (i : ℕ)
      → s.clients i ≡ joining
      → s.worker ≡ finished
      → Step new_return zero s (record s {
        handler = record s.handler { joinable = false };
        clients = update s.clients i idle;
      })

-- `h` is what `start_thread` leaves, with the mutex free and no cycle recorded.
abbrev pub started : {k : Types} → Handler k → System k
started h = record { handler = h; worker = head; clients = λ i. idle }

pub data Reach {k : Types} (new_return : k.Return) (zero : k.Duration) (s : System k)
    : System k → Type 0 where
  here : Reach new_return zero s s
  next :
      {t u : System k}
      → Reach new_return zero s t
      → Step new_return zero t u
      → Reach new_return zero s u
