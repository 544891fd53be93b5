-- ===== src/Async/Synchronized/Shutdown.antt =====
-- `stop_thread` under the synchronized policy: that its join comes to an end.
use portage_realtime_tools_e.Base.{
  ℕ, zero, suc, ◌≡◌, ◌≢◌, refl, ap, ◌∙◌, Bool, true, false, Option, none, some, List, ◌∷◌, update,
  arith,
}
use portage_realtime_tools_e.Async.Handler.{Types, Handler, free, by_worker, reset_variables}
use portage_realtime_tools_e.Async.Synchronized.{
  WorkerPc, ClientPc, Call, trigger_async_callback, Answer, worker_step, enter, client_step, wake,
  wake_waiter, System, Step, worker_runs, announces, worker_wakes_up, calls, client_runs,
  client_wakes_up, notifies, stop_notifies, joins, started,
}
use portage_realtime_tools_e.Async.Synchronized.Invariant.{IsFresh, worker_holds, Cycle}
use portage_realtime_tools_e.Async.Synchronized.CycleEnd.{
  Resets, Undisturbed, stays, goes, Invs, Undisturbed-Invs,
}

-- The thread has set `stop_async_callback_`, and the thread waits for the worker to end.
abbrev has_stopped : {k : Types} → ClientPc k → Bool
has_stopped ClientPc.stop_locking = true
has_stopped ClientPc.stop_unlocking = true
has_stopped ClientPc.stop_notifying = true
has_stopped ClientPc.joining = true
has_stopped _ = false

abbrev is_joining : {k : Types} → ClientPc k → Bool
is_joining ClientPc.joining = true
is_joining _ = false

abbrev is_waiting : {k : Types} → WorkerPc k → Bool
is_waiting WorkerPc.waiting = true
is_waiting _ = false

abbrev is_blocking : {k : Types} → WorkerPc k → Bool
is_blocking WorkerPc.blocking = true
is_blocking _ = false

-- The thread has had the mutex after it has set the flag.
abbrev is_past_lock : {k : Types} → ClientPc k → Bool
is_past_lock ClientPc.stop_unlocking = true
is_past_lock ClientPc.stop_notifying = true
is_past_lock ClientPc.joining = true
is_past_lock _ = false

module _ {k : Types} where
  abbrev keep_going :
      Option (Handler k × WorkerPc k)
      → (Handler k → WorkerPc k → Handler k × WorkerPc k)
      → Handler k
      → WorkerPc k
      → Handler k × WorkerPc k
  keep_going none rest h p = (h, p)
  keep_going (some (h', q)) rest h p = rest h' q

  -- `n` steps of the worker in a row, with these answers of the callback and times that it takes, or
  -- fewer if it is blocked or has ended.
  unfoldable pub run_worker :
      (ℕ → Answer k) → (ℕ → ℕ) → ℕ → Handler k → WorkerPc k → Handler k × WorkerPc k
  run_worker answers times zero h p = (h, p)
  run_worker answers times (suc n) h p =
      keep_going (worker_step (answers n) (times n) h p) (run_worker answers times n) h p

  -- The cycles for which the callback was called, with the one for which it is about to be.
  abbrev pub with_pending : WorkerPc k → Handler k → List (Cycle k)
  with_pending WorkerPc.calling h =
      (h.current_callback_time, h.current_callback_period) ∷ h.executed
  with_pending _ h = h.executed

  eight_steps :
      (answers : ℕ → Answer k) (times : ℕ → ℕ) (h : Handler k) (p : WorkerPc k)
      → h.stop_async_callback ≡ true
      → is_waiting p ≡ false
      → is_blocking p ≡ false
      → (worker_holds p ≡ false → h.mutex ≡ free)
      → ((run_worker answers times 8 h p).1 ≡ WorkerPc.finished)
        × ((run_worker answers times 8 h p).0.executed ≡ with_pending p h)
  unfolding run_worker worker_step
  eight_steps answers times h WorkerPc.head e w b f = ground arith
  eight_steps answers times h p e w b f = ground arith

module _ {k : Types} (new_return : k.Return) (zero_duration : k.Duration) where
  -- A thread that stops the worker has set the flag; when it waits for the join, the worker is not
  -- blocked.
  abbrev Stops : WorkerPc k → Handler k → ClientPc k → Type 0
  Stops q h c =
      (has_stopped c ≡ true → h.stop_async_callback ≡ true)
      × (is_past_lock c ≡ true → is_blocking q ≡ false)
      × (is_joining c ≡ true → is_waiting q ≡ false)

  worker-Stops :
      (q : WorkerPc k) (a : Answer k) (time : ℕ) (h : Handler k) (c : ClientPc k) {h' : Handler k}
      {p : WorkerPc k}
      → Stops q h c
      → worker_step a time h q ≡ some (h', p)
      → Stops p h' c
  unfolding worker_step
  worker-Stops WorkerPc.head a time h c z e = ground arith
  worker-Stops q a time h c z e = ground arith

  -- A step of thread `i` from `c`, for thread `j`.
  client-Stops :
      (c : ClientPc k) (wanted : Bool) (i j : ℕ) (q : WorkerPc k) (h : Handler k)
      (cs : ℕ → ClientPc k) {h' : Handler k} {p : ClientPc k}
      → (worker_holds q ≡ true → h.mutex ≡ by_worker)
      → Stops q h (cs j)
      → Stops q h c
      → c ≢ ClientPc.resetting
      → client_step new_return zero_duration wanted i h c ≡ some (h', p)
      → Stops q h' (update cs i p j)
  unfolding client_step reset_variables
  client-Stops (ClientPc.marking t d) wanted i j q h cs o z y x e = ground arith
  client-Stops c wanted i j q h cs o z y x e = ground arith

  enter-Stops : (c : Call k) (h : Handler k) (q : WorkerPc k) → Stops q h (enter c h)
  unfolding enter
  enter-Stops (trigger_async_callback t d) h q = ground arith
  enter-Stops c h q = ground arith

  wake-waiting : (q : WorkerPc k) → is_waiting (wake q) ≡ false
  unfolding wake
  wake-waiting WorkerPc.waiting = refl
  wake-waiting q = ground arith

  wake-blocking : (q : WorkerPc k) → is_blocking (wake q) ≡ is_blocking q
  unfolding wake
  wake-blocking WorkerPc.waiting = refl
  wake-blocking q = refl

  wake-Stops : (q : WorkerPc k) (h : Handler k) (c : ClientPc k) → Stops q h c → Stops (wake q) h c
  wake-Stops q h c z = (z.0, λ w. wake-blocking q ∙ z.1 w, λ w. wake-waiting q)

  wake_waiter-Stops :
      (c : ClientPc k) (h : Handler k)
      → Stops WorkerPc.announcing h c
      → Stops WorkerPc.head h (wake_waiter c)
  unfolding wake_waiter
  wake_waiter-Stops ClientPc.wait_blocked h z = ground arith
  wake_waiter-Stops c h z = ground arith

  move-Stops :
      (i j : ℕ) (p : ClientPc k) (q : WorkerPc k) (h : Handler k) (cs : ℕ → ClientPc k)
      → Stops q h (cs j)
      → Stops q h p
      → Stops q h (update cs i p j)
  move-Stops i j p q h cs z y = ground arith

  Step-Stops :
      (s t : System k)
      → Invs new_return zero_duration s
      → ((j : ℕ) → Stops s.worker s.handler (s.clients j))
      → (st : Step new_return zero_duration s t) → ¬ Resets new_return zero_duration st
      → (j : ℕ) → Stops t.worker t.handler (t.clients j)
  Step-Stops s _ v z (worker_runs a time e x) u j =
      worker-Stops s.worker a time s.handler (s.clients j) (z j) e
  Step-Stops s _ v z (announces e) u j =
      wake_waiter-Stops (s.clients j) s.handler (ground (arith, z j))
  Step-Stops s _ v z (worker_wakes_up e) u j = ((z j).0, λ w. refl, λ w. refl)
  Step-Stops s _ v z (calls i c e) u j =
      move-Stops i j (enter c s.handler) s.worker s.handler s.clients (z j)
        (enter-Stops c s.handler s.worker)
  Step-Stops s _ v z (client_runs wanted i e) u j =
      let (rest, past, inv) = v in
      client-Stops (s.clients i) wanted i j s.worker s.handler s.clients inv.worker_owns (z j) (z i)
        u e
  Step-Stops s _ v z (client_wakes_up i e) u j =
      move-Stops i j ClientPc.wait_woken s.worker s.handler s.clients (z j) (ground arith)
  Step-Stops s _ v z (notifies i e) u j =
      move-Stops i j (ClientPc.reading true) (wake s.worker) s.handler s.clients
        (wake-Stops s.worker s.handler (s.clients j) (z j)) (ground arith)
  Step-Stops s _ v z (stop_notifies i e) u j =
      move-Stops i j ClientPc.joining (wake s.worker) s.handler s.clients
        (wake-Stops s.worker s.handler (s.clients j) (z j))
        (
          λ w. (z i).0 (ap has_stopped e),
          λ w. wake-blocking s.worker ∙ (z i).1 (ap is_past_lock e),
          λ w. wake-waiting s.worker,
        )
  Step-Stops s _ v z (joins i e f) u j =
      move-Stops i j ClientPc.idle s.worker s.handler s.clients (z j) (ground arith)

  Undisturbed-Stops :
      (h : Handler k) (s : System k)
      → IsFresh h
      → Undisturbed new_return zero_duration (started h) s
      → (j : ℕ) → Stops s.worker s.handler (s.clients j)
  Undisturbed-Stops h _ f stays j = ground arith
  Undisturbed-Stops h t f (goes {t = s} r st x) j =
      Step-Stops s t (Undisturbed-Invs new_return zero_duration h s f r) (Undisturbed-Stops h s f r)
        st x j

  -- `stop_thread` ends: when it waits in `join`, and `reset_variables` has changed nothing, the worker
  -- is not blocked in its wait, and ends within eight of its own steps in a row if no calling thread
  -- has the mutex, whatever the callback does. The callback is called only if that was the next step.
  pub stop_thread_ends :
      (h : Handler k) (s : System k) (i : ℕ) (answers : ℕ → Answer k) (times : ℕ → ℕ)
      → IsFresh h
      → Undisturbed new_return zero_duration (started h) s
      → s.clients i ≡ ClientPc.joining
      → (worker_holds s.worker ≡ false → s.handler.mutex ≡ free)
      → ((run_worker answers times 8 s.handler s.worker).1 ≡ WorkerPc.finished)
        × ((run_worker answers times 8 s.handler s.worker).0.executed
            ≡ with_pending s.worker s.handler)
  stop_thread_ends h s i answers times n r e f =
      let (stopped, unblocked, woken) = Undisturbed-Stops h s n r i in
      eight_steps answers times s.handler s.worker (stopped (ap has_stopped e))
        (woken (ap is_joining e)) (unblocked (ap is_past_lock e)) f
