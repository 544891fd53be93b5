-- ===== src/Async/Detached/Shutdown.antt =====
-- The end of the worker under the detached policy.
use portage_realtime_tools_e.Base.{ℕ, zero, suc, ◌≡◌, true, false, Option, none, some, arith}
use portage_realtime_tools_e.Async.Handler.{Types, free}
use portage_realtime_tools_e.Async.Detached.Schedule.{Doubles}
use portage_realtime_tools_e.Async.Detached.{WorkerPc, Answer, Shared, Clocks, worker_step}
use portage_realtime_tools_e.Async.Detached.Invariant.{worker_holds, with_pending}

-- What a step of the worker meets: the callback's answer and what the clocks show.
pub record Input (k : Types) : Type 0 where
  pub answer : Answer k
  pub now : k.Time
  pub steady : ℕ
  pub took : ℕ

module _ {k : Types} (clocks : Clocks k) (d : Doubles) where
  abbrev keep_going :
      Option (Shared k × WorkerPc k)
      → (Shared k → WorkerPc k → Shared k × WorkerPc k)
      → Shared k
      → WorkerPc k
      → Shared k × WorkerPc k
  keep_going none rest s p = (s, p)
  keep_going (some (t, q)) rest s p = rest t q

  -- `n` steps of the worker in a row, with these inputs, or fewer if it is blocked or has ended.
  unfoldable pub run_worker : (ℕ → Input k) → ℕ → Shared k → WorkerPc k → Shared k × WorkerPc k
  run_worker inputs zero s p = (s, p)
  run_worker inputs (suc n) s p =
      keep_going
        (worker_step d clocks (inputs n).answer (inputs n).now (inputs n).steady (inputs n).took s
          p)
        (run_worker inputs n) s p

  -- The worker is past its checks and has not ended, and is not blocked.
  abbrev pub IsRunning : WorkerPc k → Type 0
  IsRunning WorkerPc.starting = ⊥
  IsRunning WorkerPc.aborted = ⊥
  IsRunning WorkerPc.first_waiting = ⊥
  IsRunning (WorkerPc.waiting n) = ⊥
  IsRunning WorkerPc.first_blocking = ⊥
  IsRunning (WorkerPc.blocking n) = ⊥
  IsRunning (WorkerPc.measuring n) = ⊥
  IsRunning WorkerPc.finished = ⊥
  IsRunning _ = Unit

  -- After `stop_thread` has set its flag, with the mutex not taken by a caller, a worker that is past
  -- its checks, and not blocked, about to block or about to read the clock for a cycle, ends within nine of its own
  -- steps, whatever the clocks show and the callback does. The callback is called only if that was
  -- the next step.
  detached_stops :
      (inputs : ℕ → Input k) (s : Shared k) (p : WorkerPc k)
      → s.handler.stop_async_callback ≡ true
      → IsRunning p
      → (worker_holds p ≡ false → s.handler.mutex ≡ free)
      → ((run_worker inputs 9 s p).1 ≡ WorkerPc.finished)
        × ((run_worker inputs 9 s p).0.called ≡ with_pending p s.called)
  unfolding run_worker worker_step
  detached_stops inputs s WorkerPc.pause_testing e r f = ground arith
  detached_stops inputs s p e r f = ground arith
