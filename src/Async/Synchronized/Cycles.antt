-- ===== src/Async/Synchronized/Cycles.antt =====
-- What triggered cycles come to: exclusion, order, arguments, and that no notification is lost.
use mathlib.Core.Path.{subst}
use portage_realtime_tools_e.Base.{
  ℕ, ◌≡◌, sym, refl, ap, Option, Bool, true, false, some, List, ◌∷◌, update, arith,
}
use portage_realtime_tools_e.Async.Handler.{Types, Handler, by_worker, by_client, reset_variables}
use portage_realtime_tools_e.Async.Synchronized.{
  WorkerPc, ClientPc, Answer, may_wake, worker_step, enter, client_step, wake, System, Step,
  worker_runs, announces, worker_wakes_up, calls, client_runs, client_wakes_up, notifies,
  stop_notifies, joins, started, Reach, here, next,
}
use portage_realtime_tools_e.Async.Synchronized.Invariant.{
  worker_holds, client_holds, Serves, Serves-push, Cycle, WorkerFact, Inv, IsFresh, Reach-Inv,
}

-- The thread will notify the worker.
abbrev pub will_notify : {k : Types} → ClientPc k → Bool
will_notify (ClientPc.timestamping _ _) = true
will_notify (ClientPc.periodizing _ _) = true
will_notify ClientPc.unlocking = true
will_notify ClientPc.notifying = true
will_notify ClientPc.stop_locking = true
will_notify ClientPc.stop_unlocking = true
will_notify ClientPc.stop_notifying = true
will_notify _ = false

-- The worker is blocked in its `wait`, or about to block.
abbrev is_asleep : {k : Types} → WorkerPc k → Bool
is_asleep WorkerPc.waiting = true
is_asleep WorkerPc.blocking = true
is_asleep _ = false

-- While the worker has the mutex, only a notification of a thread that has yet to take it counts.
abbrev will_notify_at : {k : Types} → WorkerPc k → ClientPc k → Bool
will_notify_at WorkerPc.blocking ClientPc.stop_locking = true
will_notify_at WorkerPc.blocking _ = false
will_notify_at _ c = will_notify c

module _ {k : Types} (new_return : k.Return) (zero_duration : k.Duration) where
  -- While the worker is in its critical section, in which it calls the callback, no calling thread
  -- is in one: no trigger is stored, no variable is reset and no wait is tested; and no two calling
  -- threads are in theirs together.
  callback_exclusion :
      (h : Handler k) (s : System k)
      → IsFresh h
      → Reach new_return zero_duration (started h) s
      → (i j : ℕ)
      → (worker_holds s.worker ≡ true → client_holds (s.clients i) ≡ false)
        × (client_holds (s.clients i) ≡ true → client_holds (s.clients j) ≡ true → i ≡ j)
  callback_exclusion h s f r i j =
      let (rest, past, inv) = Reach-Inv new_return zero_duration h s f r in
      (
        λ w. ground (arith, inv.client_owns i, inv.worker_owns),
        λ c d. ground (arith, inv.client_owns i, inv.client_owns j),
      )

  -- The cycles for which the callback was called are among those that were triggered, in the same
  -- order, with the same time and period, and none is called twice.
  pub executed_in_order :
      (h : Handler k) (s : System k)
      → IsFresh h
      → Reach new_return zero_duration (started h) s
      → Serves s.handler.executed s.handler.triggered
  executed_in_order h s f r =
      let (rest, past, inv) = Reach-Inv new_return zero_duration h s f r in
      subst (λ x. Serves s.handler.executed x) (sym inv.logs)
        (Serves-push rest s.handler.executed past inv.serves)

  -- Where the worker is about to call the callback, the newest of the triggered cycles is not
  -- executed yet, and its time and period are the arguments that the callback is given.
  callback_arguments :
      (h : Handler k) (s : System k)
      → IsFresh h
      → Reach new_return zero_duration (started h) s
      → s.worker ≡ WorkerPc.calling
      → (past : List (Cycle k)) × (s.handler.triggered
          ≡ (s.handler.current_callback_time, s.handler.current_callback_period) ∷ past)
        × Serves s.handler.executed past
  callback_arguments h s f r e =
      let (rest, past, inv) = Reach-Inv new_return zero_duration h s f r in
      (past, ground (arith, inv.logs, inv.worker_fact), inv.serves)

  -- The thread that made the predicate true has still to notify.
  abbrev Notified : WorkerPc k → Handler k → (ℕ → ClientPc k) → Type 0
  Notified q h cs =
      is_asleep q ≡ true → may_wake h ≡ true → (i : ℕ) × (will_notify_at q (cs i) ≡ true)

  worker-Notified :
      (q : WorkerPc k) (a : Answer k) (time : ℕ) (h : Handler k) (cs : ℕ → ClientPc k)
      (rest : Option (Cycle k)) {h' : Handler k} {p : WorkerPc k}
      → WorkerFact h rest q
      → Notified q h cs
      → worker_step a time h q ≡ some (h', p)
      → Notified p h' cs
  unfolding worker_step
  worker-Notified WorkerPc.blocking a time h cs rest f n e w m =
      let (j, l) = n refl (ground arith) in (j, ground arith)
  worker-Notified WorkerPc.head a time h cs rest f n e w m = absurd (ground arith)
  worker-Notified q a time h cs rest f n e w m = absurd (ground arith)

  -- Past a step of thread `i`, from `c` to `p`.
  client-Notified :
      (c : ClientPc k) (wanted : Bool) (i : ℕ) (q : WorkerPc k) (h : Handler k)
      (cs : ℕ → ClientPc k) {h' : Handler k} {p : ClientPc k}
      → (worker_holds q ≡ true → h.mutex ≡ by_worker)
      → (client_holds c ≡ true → h.mutex ≡ by_client i)
      → Notified q h cs
      → cs i ≡ c
      → client_step new_return zero_duration wanted i h c ≡ some (h', p)
      → Notified q h' (update cs i p)
  unfolding client_step reset_variables
  client-Notified (ClientPc.marking t d) wanted i q h cs o z n e s w m = (i, ground arith)
  client-Notified (ClientPc.timestamping t d) wanted i q h cs o z n e s w m = (i, ground arith)
  client-Notified (ClientPc.periodizing t d) wanted i q h cs o z n e s w m = (i, ground arith)
  client-Notified ClientPc.unlocking wanted i q h cs o z n e s w m = (i, ground arith)
  client-Notified ClientPc.stopping wanted i q h cs o z n e s w m = (i, ground arith)
  client-Notified ClientPc.stop_locking wanted i q h cs o z n e s w m = (i, ground arith)
  client-Notified ClientPc.stop_unlocking wanted i q h cs o z n e s w m = (i, ground arith)
  client-Notified c wanted i q h cs o z n e s w m =
      let (j, l) = n w (ground arith) in (j, ground arith)

  -- A thread that was not about to notify moves on.
  move-Notified :
      (i : ℕ) (p : ClientPc k) (q : WorkerPc k) (h : Handler k) (cs : ℕ → ClientPc k)
      → Notified q h cs
      → will_notify (cs i) ≡ false
      → Notified q h (update cs i p)
  move-Notified i p q h cs n z w m = let (j, l) = n w m in (j, ground arith)

  wake-Notified :
      (i : ℕ) (p : ClientPc k) (q : WorkerPc k) (h : Handler k) (cs : ℕ → ClientPc k)
      → Notified q h cs
      → will_notify_at WorkerPc.blocking (cs i) ≡ false
      → Notified (wake q) h (update cs i p)
  unfolding wake
  wake-Notified i p WorkerPc.waiting h cs n z w m = absurd (cc)
  wake-Notified i p WorkerPc.blocking h cs n z w m = let (j, l) = n w m in (j, ground arith)
  wake-Notified i p q h cs n z w m = absurd (ground arith)

  Step-Notified :
      (s t : System k)
      → (rest : Option (Cycle k)) × (past : List (Cycle k)) × Inv s.handler s.worker s.clients rest
          past
      → Notified s.worker s.handler s.clients
      → Step new_return zero_duration s t
      → Notified t.worker t.handler t.clients
  Step-Notified s _ (rest, past, inv) n (worker_runs a time e x) =
      worker-Notified s.worker a time s.handler s.clients rest inv.worker_fact n e
  Step-Notified s _ (rest, past, inv) n (announces e) = λ w m. absurd (cc)
  Step-Notified s _ (rest, past, inv) n (worker_wakes_up e) = λ w m. absurd (cc)
  Step-Notified s _ (rest, past, inv) n (calls i c e) =
      move-Notified i (enter c s.handler) s.worker s.handler s.clients n (ground arith)
  Step-Notified s _ (rest, past, inv) n (client_runs wanted i e) =
      client-Notified (s.clients i) wanted i s.worker s.handler s.clients inv.worker_owns
        (inv.client_owns i) n refl e
  Step-Notified s _ (rest, past, inv) n (client_wakes_up i e) =
      move-Notified i ClientPc.wait_woken s.worker s.handler s.clients n (ground arith)
  Step-Notified s _ (rest, past, inv) n (notifies i e) =
      wake-Notified i (ClientPc.reading true) s.worker s.handler s.clients n (ground arith)
  Step-Notified s _ (rest, past, inv) n (stop_notifies i e) =
      wake-Notified i ClientPc.joining s.worker s.handler s.clients n (ground arith)
  Step-Notified s _ (rest, past, inv) n (joins i e f) = λ w m. absurd (ground arith)

  no_lost :
      (h : Handler k) (s : System k)
      → IsFresh h
      → Reach new_return zero_duration (started h) s
      → Notified s.worker s.handler s.clients
  no_lost h _ f here = λ w m. absurd (cc)
  no_lost h t f (next {t = s} r st) =
      Step-Notified s t (Reach-Inv new_return zero_duration h s f r) (no_lost h s f r) st

  -- No wakeup of the worker is lost: while it is blocked in `wait` although a cycle is in progress
  -- or the thread is to stop, some calling thread has still to notify it.
  pub no_lost_trigger :
      (h : Handler k) (s : System k)
      → IsFresh h
      → Reach new_return zero_duration (started h) s
      → s.worker ≡ WorkerPc.waiting
      → may_wake s.handler ≡ true
      → (i : ℕ) × (will_notify (s.clients i) ≡ true)
  no_lost_trigger h s f r w m = let (i, l) = no_lost h s f r (ap is_asleep w) m in (i, ground arith)
