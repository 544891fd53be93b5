-- ===== src/Async/Synchronized/CycleEnd.antt =====
-- The calls of wait_for_trigger_cycle_to_finish: what their wakeup relies on.
use portage_realtime_tools_e.Base.{
  ℕ, ◌≡◌, ◌≢◌, ◌∙◌, ap, refl, Option, List, Bool, true, false, some, update, arith,
}
use portage_realtime_tools_e.Async.Handler.{Types, Handler, reset_variables}
use portage_realtime_tools_e.Async.Synchronized.{
  WorkerPc, ClientPc, Call, trigger_async_callback, Answer, worker_step, enter, client_step, wake,
  wake_waiter, System, Step, worker_runs, announces, worker_wakes_up, calls, client_runs,
  client_wakes_up, notifies, stop_notifies, joins, started, Reach, here, next,
}
use portage_realtime_tools_e.Async.Synchronized.Invariant.{
  IsFresh, Inv, ClientFact, Cycle, Reach-Inv,
}

-- The worker has ended a cycle and has still to notify those that wait for it.
abbrev pub will_announce : {k : Types} → WorkerPc k → Bool
will_announce WorkerPc.releasing = true
will_announce WorkerPc.announcing = true
will_announce _ = false

abbrev pub is_blocked : {k : Types} → ClientPc k → Bool
is_blocked ClientPc.wait_blocked = true
is_blocked _ = false

module _ {k : Types} (new_return : k.Return) (zero_duration : k.Duration) where
  -- The step is the one that `reset_variables` does under the mutex.
  abbrev pub Resets : {s t : System k} → Step new_return zero_duration s t → Type 0
  Resets {s = s} (client_runs wanted i e) = s.clients i ≡ ClientPc.resetting
  Resets _ = ⊥

  -- Steps of any threads other than those of `reset_variables`.
  pub data Undisturbed (s : System k) : System k → Type 0 where
    stays : Undisturbed s s
    goes :
        {t u : System k}
        → Undisturbed s t
        → (st : Step new_return zero_duration t u) → ¬ Resets st
        → Undisturbed s u

  -- A thread that waits for the end of a cycle that is not in progress.
  abbrev Awaited : WorkerPc k → Handler k → (ℕ → ClientPc k) → Type 0
  Awaited q h cs =
      (i : ℕ) → is_blocked (cs i) ≡ true → h.trigger_in_progress ≡ false → will_announce q ≡ true

  worker-Awaited :
      (q : WorkerPc k) (a : Answer k) (time : ℕ) (h : Handler k) (cs : ℕ → ClientPc k)
      {h' : Handler k} {p : WorkerPc k}
      → Awaited q h cs
      → q ≢ WorkerPc.announcing
      → worker_step a time h q ≡ some (h', p)
      → Awaited p h' cs
  unfolding worker_step
  worker-Awaited WorkerPc.head a time h cs n x e i b m = ground (arith, n i b)
  worker-Awaited q a time h cs n x e i b m = ground (arith, n i b)

  client-Awaited :
      (c : ClientPc k) (wanted : Bool) (i : ℕ) (q : WorkerPc k) (h : Handler k)
      (cs : ℕ → ClientPc k) {h' : Handler k} {p : ClientPc k}
      → (c ≡ ClientPc.wait_blocking → h.trigger_in_progress ≡ true)
      → Awaited q h cs
      → c ≢ ClientPc.resetting
      → client_step new_return zero_duration wanted i h c ≡ some (h', p)
      → Awaited q h' (update cs i p)
  unfolding client_step reset_variables
  client-Awaited ClientPc.wait_blocking wanted i q h cs y n x e j b m = ground (arith, n j, y refl)
  client-Awaited c wanted i q h cs y n x e j b m = ground (arith, n j)

  -- The invariant where a thread is about to block.
  blocking-trigger :
      (c : ClientPc k) (h : Handler k) (rest : Option (Cycle k))
      → ClientFact h rest c
      → c ≡ ClientPc.wait_blocking
      → h.trigger_in_progress ≡ true
  blocking-trigger ClientPc.wait_blocking h rest f e = f.1
  blocking-trigger c h rest f e = cc

  move-Awaited :
      (i : ℕ) (p : ClientPc k) (q : WorkerPc k) (h : Handler k) (cs : ℕ → ClientPc k)
      → Awaited q h cs
      → is_blocked p ≡ false
      → Awaited q h (update cs i p)
  move-Awaited i p q h cs n x j b m = ground (arith, n j)

  enter-blocked : (c : Call k) (h : Handler k) → is_blocked (enter c h) ≡ false
  unfolding enter
  enter-blocked (trigger_async_callback t d) h = ground arith
  enter-blocked c h = ground arith

  wake-announce : (q : WorkerPc k) → will_announce (wake q) ≡ will_announce q
  unfolding wake
  wake-announce WorkerPc.waiting = refl
  wake-announce q = ground arith

  wake_waiter-blocked : (c : ClientPc k) → is_blocked (wake_waiter c) ≡ false
  unfolding wake_waiter
  wake_waiter-blocked ClientPc.wait_blocked = refl
  wake_waiter-blocked c = ground arith

  wake-Awaited :
      (q : WorkerPc k) (h : Handler k) (cs : ℕ → ClientPc k)
      → Awaited q h cs
      → Awaited (wake q) h cs
  wake-Awaited q h cs n j b m = wake-announce q ∙ n j b m

  -- The invariant of the handler and its threads.
  abbrev pub Invs : System k → Type 0
  Invs s =
      (rest : Option (Cycle k)) × (past : List (Cycle k)) × Inv s.handler s.worker s.clients rest
        past

  Step-Awaited :
      (s t : System k)
      → Invs s
      → Awaited s.worker s.handler s.clients
      → (st : Step new_return zero_duration s t) → ¬ Resets st
      → Awaited t.worker t.handler t.clients
  Step-Awaited s _ v n (worker_runs a time e x) u =
      worker-Awaited s.worker a time s.handler s.clients n x e
  Step-Awaited s _ v n (announces e) u = λ j b m. absurd (cc (wake_waiter-blocked (s.clients j)))
  Step-Awaited s _ v n (worker_wakes_up e) u = λ j b m. absurd (cc (n j b m))
  Step-Awaited s _ v n (calls i c e) u =
      move-Awaited i (enter c s.handler) s.worker s.handler s.clients n (enter-blocked c s.handler)
  Step-Awaited s _ v n (client_runs wanted i e) u =
      let (rest, past, inv) = v in
      client-Awaited (s.clients i) wanted i s.worker s.handler s.clients
        (blocking-trigger (s.clients i) s.handler rest (inv.client_fact i)) n u e
  Step-Awaited s _ v n (client_wakes_up i e) u =
      move-Awaited i ClientPc.wait_woken s.worker s.handler s.clients n refl
  Step-Awaited s _ v n (notifies i e) u =
      wake-Awaited s.worker s.handler _
        (move-Awaited i (ClientPc.reading true) s.worker s.handler s.clients n refl)
  Step-Awaited s _ v n (stop_notifies i e) u =
      wake-Awaited s.worker s.handler _
        (move-Awaited i ClientPc.joining s.worker s.handler s.clients n refl)
  Step-Awaited s _ v n (joins i e f) u =
      move-Awaited i ClientPc.idle s.worker s.handler s.clients n refl

  Undisturbed-Reach : (s t : System k) → Undisturbed s t → Reach new_return zero_duration s t
  Undisturbed-Reach s _ stays = here
  Undisturbed-Reach s u (goes {t = t} r st x) = next (Undisturbed-Reach s t r) st

  pub Undisturbed-Invs :
      (h : Handler k) (s : System k) → IsFresh h → Undisturbed (started h) s → Invs s
  Undisturbed-Invs h s f r =
      Reach-Inv new_return zero_duration h s f (Undisturbed-Reach (started h) s r)

  Undisturbed-Awaited :
      (h : Handler k) (s : System k)
      → IsFresh h
      → Undisturbed (started h) s
      → Awaited s.worker s.handler s.clients
  Undisturbed-Awaited h _ f stays = λ j b m. absurd (cc)
  Undisturbed-Awaited h s f (goes {t = t} r st x) =
      Step-Awaited t s (Undisturbed-Invs h t f r) (Undisturbed-Awaited h t f r) st x

  -- No end of a cycle is lost on those that wait for it, as long as `reset_variables` changes
  -- nothing: while a thread is blocked in `wait_for_trigger_cycle_to_finish` although no cycle is
  -- in progress, the worker has still to notify all that wait.
  pub no_lost_cycle_end :
      (h : Handler k) (s : System k)
      → IsFresh h
      → Undisturbed (started h) s
      → (i : ℕ) → s.clients i ≡ ClientPc.wait_blocked
      → s.handler.trigger_in_progress ≡ false
      → will_announce s.worker ≡ true
  no_lost_cycle_end h s f r i b m = Undisturbed-Awaited h s f r i (ap is_blocked b) m
