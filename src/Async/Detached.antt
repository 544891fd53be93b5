-- ===== src/Async/Detached.antt =====
-- async_function_handler.hpp with the detached policy: the worker thread, which runs
-- `execute_detached_callback`, and any number of threads that call the handler. Each access to a
-- shared field, each call on `async_mtx_` and on the two condition variables, is one step; the
-- three fields that the worker sets from one reading of the clock are one, and so are the resets of
-- `reset_variables`, all under the mutex, and the checks with which a call or the loop begins. What
-- the clocks show and what the callback does are inputs of the steps.
mod Places
mod Worker
mod Clients
pub mod Schedule
pub mod Exact
pub mod Invariant
pub mod Cycles
pub mod Pause
pub mod Wakeup
pub mod Shutdown
mod Examples
pub use Places.*
unfoldable pub use Worker.{worker_step}
unfoldable pub use Clients.{enter, client_step}
use Places.{
  WorkerPc, ClientPc, Call, Answer, Shared, Clocks, starting, first_waiting, first_woken, waiting,
  woken, head, announcing, finished, idle, wait_blocked, wait_woken, resume_notifying, reading,
  stop_notifying, joining, with_handler,
}
use Worker.{worker_step}
use Clients.{enter, client_step}
use portage_realtime_tools_e.Base.{ℕ, ◌≡◌, false, some, [], update}
use portage_realtime_tools_e.Async.Handler.{Types, Handler}
use portage_realtime_tools_e.Async.Detached.Schedule.{Doubles}

module _ {k : Types} where
  -- `notify_one` of the worker, the only one that waits for its condition variable.
  unfoldable pub wake : WorkerPc k → WorkerPc k
  wake first_waiting = first_woken
  wake (waiting n) = woken n
  wake p = p

  -- `notify_all` of those that wait for a cycle to end.
  unfoldable pub wake_waiter : ClientPc k → ClientPc k
  wake_waiter wait_blocked = wait_woken
  wake_waiter p = p

  -- The places from which only a notification of the other condition variable leads.
  abbrev pub Announces : WorkerPc k → Type 0
  Announces (announcing n) = Unit
  Announces _ = ⊥

pub record System (k : Types) : Type 0 where
  pub shared : Shared k
  pub worker : WorkerPc k
  pub clients : ℕ → ClientPc k

-- One step of some thread. A wait may also end with no notification.
pub data Step {k : Types} (d : Doubles) (clocks : Clocks k) (new_return : k.Return)
    (zero : k.Duration) (s : System k) : System k → Type 0 where
  worker_runs :
      (a : Answer k) (now : k.Time) (steady took : ℕ) {t : Shared k} {p : WorkerPc k}
      → worker_step d clocks a now steady took s.shared s.worker ≡ some (t, p)
      → ¬ Announces s.worker
      → Step d clocks new_return zero s (record s { shared = t; worker = p })
  announces_end :
      (n : ℕ)
      → s.worker ≡ announcing n
      → Step d clocks new_return zero s
          (record s { worker = head n; clients = λ i. wake_waiter (s.clients i) })
  worker_wakes_up : Step d clocks new_return zero s (record s { worker = wake s.worker })
  begins_call :
      (i : ℕ) (c : Call)
      → s.clients i ≡ idle
      → Step d clocks new_return zero s
          (record s { clients = update s.clients i (enter c s.shared.handler) })
  client_runs :
      (now : k.Time) (i : ℕ) {t : Shared k} {p : ClientPc k}
      → client_step clocks new_return zero now i s.shared (s.clients i) ≡ some (t, p)
      → Step d clocks new_return zero s (record s { shared = t; clients = update s.clients i p })
  client_wakes_up :
      (i : ℕ)
      → s.clients i ≡ wait_blocked
      → Step d clocks new_return zero s (record s { clients = update s.clients i wait_woken })
  resume_notifies :
      (i : ℕ)
      → s.clients i ≡ resume_notifying
      → Step d clocks new_return zero s
          (record s { worker = wake s.worker; clients = update s.clients i reading })
  stop_notifies :
      (i : ℕ)
      → s.clients i ≡ stop_notifying
      → Step d clocks new_return zero s
          (record s { worker = wake s.worker; clients = update s.clients i joining })
  joins :
      (i : ℕ)
      → s.clients i ≡ joining
      → s.worker ≡ finished
      → Step d clocks new_return zero s (record s {
        shared = with_handler s.shared (record s.shared.handler { joinable = false });
        clients = update s.clients i idle;
      })

-- `h` is what `start_thread` leaves.
abbrev pub started : {k : Types} → Handler k → System k
started h = record {
  shared = record { handler = h; marks = []; called = [] };
  worker = starting;
  clients = λ i. idle;
}

pub data Reach {k : Types} (d : Doubles) (clocks : Clocks k) (new_return : k.Return)
    (zero : k.Duration) (s : System k) : System k → Type 0 where
  here : Reach d clocks new_return zero s s
  next :
      {t u : System k}
      → Reach d clocks new_return zero s t
      → Step d clocks new_return zero t u
      → Reach d clocks new_return zero s u
