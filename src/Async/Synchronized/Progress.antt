-- ===== src/Async/Synchronized/Progress.antt =====
-- That a cycle which was set off is executed.
use portage_realtime_tools_e.Base.{ℕ, ◌≡◌, refl, Bool, true, false, Option, some, List, ◌∷◌, arith}
use portage_realtime_tools_e.Async.Handler.{Types, Handler, Mutex, free, by_worker, by_client}
use portage_realtime_tools_e.Async.Synchronized.{
  WorkerPc, ClientPc, Answer, value, exception, worker_step, System, started, Reach,
}
use portage_realtime_tools_e.Async.Synchronized.Invariant.{
  IsFresh, Inv, Cycle, worker_holds, client_holds, Reach-Inv,
}
use portage_realtime_tools_e.Async.Synchronized.Held.{Held, Reach-Held}
use portage_realtime_tools_e.Async.Synchronized.Shutdown.{run_worker}

-- The worker is on its way to the next call of the callback.
abbrev pub is_before_call : {k : Types} → WorkerPc k → Bool
is_before_call WorkerPc.head = true
is_before_call WorkerPc.locking = true
is_before_call WorkerPc.testing = true
is_before_call WorkerPc.woken = true
is_before_call WorkerPc.deciding = true
is_before_call WorkerPc.calling = true
is_before_call _ = false

module _ {k : Types} where
  abbrev pub cycle_of : Handler k → Cycle k
  cycle_of h = (h.current_callback_time, h.current_callback_period)

  -- The answer of the callback is kept.
  abbrev pub Keeps : Answer k → Handler k → Type 0
  Keeps (value v) h = h.async_callback_return ≡ v
  Keeps (exception e) h = h.async_exception ≡ some e

  nine_steps :
      (a : Answer k) (times : ℕ → ℕ) (h : Handler k) (p : WorkerPc k)
      → h.trigger_in_progress ≡ true
      → h.stop_async_callback ≡ false
      → is_before_call p ≡ true
      → (worker_holds p ≡ false → h.mutex ≡ free)
      → let t = (run_worker (λ n. a) times 9 h p).0 in
        (t.executed ≡ cycle_of h ∷ h.executed) × (t.trigger_in_progress ≡ false) × Keeps a t
  unfolding run_worker worker_step
  nine_steps (value v) times h WorkerPc.head e x w f = ground arith
  nine_steps (value v) times h p e x w f = ground arith
  nine_steps (exception v) times h WorkerPc.head e x w f = ground arith
  nine_steps (exception v) times h p e x w f = ground arith

  free_if_unlocked :
      (m : Mutex) (p : WorkerPc k) (cs : ℕ → ClientPc k)
      → Held m p cs
      → ((i : ℕ) → client_holds (cs i) ≡ false)
      → worker_holds p ≡ false
      → m ≡ free
  free_if_unlocked free p cs f n w = refl
  free_if_unlocked by_worker p cs f n w = ground arith
  free_if_unlocked (by_client i) p cs f n w = ground (arith, n i)

  newest_cycle :
      (h : Handler k) (p : WorkerPc k) (cs : ℕ → ClientPc k) (rest : Option (Cycle k))
      (past : List (Cycle k))
      → Inv h p cs rest past
      → h.trigger_in_progress ≡ true
      → is_before_call p ≡ true
      → (worker_holds p ≡ false → h.mutex ≡ free)
      → h.triggered ≡ cycle_of h ∷ past
  newest_cycle h WorkerPc.head cs rest past inv e w f =
      ground (arith, inv.pending, inv.worker_fact, inv.logs)
  newest_cycle h p cs rest past inv e w f = ground (arith, inv.pending, inv.worker_fact, inv.logs)

  -- When a cycle is in progress, the worker is on its way to the callback and not blocked, it is not
  -- to stop, and no calling thread has the mutex: with nine of its own steps the worker calls the
  -- callback for the cycle that was set off last, with its time and its period, keeps what the
  -- callback returns or throws, and marks the cycle as over.
  pub triggered_cycle_is_executed :
      (new_return : k.Return) (zero : k.Duration) (h : Handler k) (s : System k) (a : Answer k)
      (times : ℕ → ℕ)
      → IsFresh h
      → Reach new_return zero (started h) s
      → s.handler.trigger_in_progress ≡ true
      → s.handler.stop_async_callback ≡ false
      → is_before_call s.worker ≡ true
      → ((i : ℕ) → client_holds (s.clients i) ≡ false)
      → let t = (run_worker (λ n. a) times 9 s.handler s.worker).0 in
        let cycle = cycle_of s.handler in
        (t.executed ≡ cycle ∷ s.handler.executed)
        × ((past : List (Cycle k)) × (s.handler.triggered ≡ cycle ∷ past))
        × (t.trigger_in_progress ≡ false)
        × Keeps a t
  triggered_cycle_is_executed new_return zero h s a times f r e x w n =
      let m : worker_holds s.worker ≡ false → s.handler.mutex ≡ free =
        free_if_unlocked s.handler.mutex s.worker s.clients (Reach-Held new_return zero h s f r)
          n in
      let (rest, past, inv) = Reach-Inv new_return zero h s f r in
      let (done, over, kept) = nine_steps a times s.handler s.worker e x w m in
      (done, (past, newest_cycle s.handler s.worker s.clients rest past inv e w m), over, kept)
