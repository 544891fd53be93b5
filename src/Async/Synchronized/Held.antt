-- ===== src/Async/Synchronized/Held.antt =====
-- `async_mtx_` is held only by a thread in a critical section.
use mathlib.Core.Path.{subst}
use portage_realtime_tools_e.Base.{ℕ, ◌≡◌, refl, sym, Bool, true, false, some, update, arith}
use portage_realtime_tools_e.Async.Handler.{
  Types, Handler, Mutex, free, by_worker, by_client, reset_variables,
}
use portage_realtime_tools_e.Async.Synchronized.{
  WorkerPc, ClientPc, Answer, worker_step, enter, client_step, wake, wake_waiter, System, Step,
  worker_runs, announces, worker_wakes_up, calls, client_runs, client_wakes_up, notifies,
  stop_notifies, joins, started, Reach, here, next,
}
use portage_realtime_tools_e.Async.Synchronized.Invariant.{IsFresh, worker_holds, client_holds}

module _ {k : Types} where
  -- The holder of the mutex is in a critical section.
  abbrev pub Held : Mutex → WorkerPc k → (ℕ → ClientPc k) → Type 0
  Held free q cs = Unit
  Held by_worker q cs = worker_holds q ≡ true
  Held (by_client i) q cs = client_holds (cs i) ≡ true

  worker-Held :
      (a : Answer k) (time : ℕ) (h : Handler k) (q : WorkerPc k) (cs : ℕ → ClientPc k)
      {h' : Handler k} {p : WorkerPc k}
      → Held h.mutex q cs
      → worker_step a time h q ≡ some (h', p)
      → Held h'.mutex p cs
  unfolding worker_step
  worker-Held a time h WorkerPc.head cs f e = ground arith
  worker-Held a time h q cs f e = ground arith

  woken-Held :
      (m : Mutex) (q : WorkerPc k) (cs : ℕ → ClientPc k)
      → Held m q cs
      → q ≡ WorkerPc.waiting
      → Held m WorkerPc.woken cs
  woken-Held free q cs f e = tt
  woken-Held by_worker q cs f e = ground arith
  woken-Held (by_client i) q cs f e = f

  wake-Held : (m : Mutex) (q : WorkerPc k) (cs : ℕ → ClientPc k) → Held m q cs → Held m (wake q) cs
  unfolding wake
  wake-Held m WorkerPc.waiting cs f = woken-Held m WorkerPc.waiting cs f refl
  wake-Held m q cs f = f

  wake_waiter-holds : (c : ClientPc k) → client_holds (wake_waiter c) ≡ client_holds c
  unfolding wake_waiter
  wake_waiter-holds ClientPc.wait_blocked = refl
  wake_waiter-holds c = refl

  -- A thread that is in no critical section goes to a place outside of them.
  move-Held :
      (m : Mutex) (q : WorkerPc k) (cs : ℕ → ClientPc k) (i : ℕ) (p : ClientPc k)
      → Held m q cs
      → client_holds (cs i) ≡ false
      → Held m q (update cs i p)
  move-Held free q cs i p f n = tt
  move-Held by_worker q cs i p f n = f
  move-Held (by_client j) q cs i p f n = ground arith

  announce-Held :
      (m : Mutex) (cs : ℕ → ClientPc k)
      → Held m WorkerPc.announcing cs
      → Held m WorkerPc.head (λ i. wake_waiter (cs i))
  announce-Held free cs f = tt
  announce-Held by_worker cs f = cc
  announce-Held (by_client i) cs f = ground (arith, wake_waiter-holds (cs i))

  module _ (new_return : k.Return) (zero : k.Duration) where
    client-Held :
        (c : ClientPc k) (wanted : Bool) (i : ℕ) (h : Handler k) (q : WorkerPc k)
        (cs : ℕ → ClientPc k) {h' : Handler k} {p : ClientPc k}
        → Held h.mutex q cs
        → cs i ≡ c
        → client_step new_return zero wanted i h c ≡ some (h', p)
        → Held h'.mutex q (update cs i p)
    unfolding client_step reset_variables
    client-Held ClientPc.idle wanted i h q cs f e g = ground arith
    client-Held c wanted i h q cs f e g = ground arith

    Step-Held :
        (s t : System k)
        → Held s.handler.mutex s.worker s.clients
        → Step new_return zero s t
        → Held t.handler.mutex t.worker t.clients
    Step-Held s _ f (worker_runs a time e x) = worker-Held a time s.handler s.worker s.clients f e
    Step-Held s _ f (announces e) =
        announce-Held s.handler.mutex s.clients (subst (λ q. Held s.handler.mutex q s.clients) e f)
    Step-Held s _ f (worker_wakes_up e) = woken-Held s.handler.mutex s.worker s.clients f e
    Step-Held s _ f (calls i c e) =
        move-Held s.handler.mutex s.worker s.clients i (enter c s.handler) f (ground arith)
    Step-Held s _ f (client_runs wanted i e) =
        client-Held (s.clients i) wanted i s.handler s.worker s.clients f refl e
    Step-Held s _ f (client_wakes_up i e) =
        move-Held s.handler.mutex s.worker s.clients i ClientPc.wait_woken f (ground arith)
    Step-Held s _ f (notifies i e) =
        move-Held s.handler.mutex (wake s.worker) s.clients i (ClientPc.reading true)
          (wake-Held s.handler.mutex s.worker s.clients f) (ground arith)
    Step-Held s _ f (stop_notifies i e) =
        move-Held s.handler.mutex (wake s.worker) s.clients i ClientPc.joining
          (wake-Held s.handler.mutex s.worker s.clients f) (ground arith)
    Step-Held s _ f (joins i e g) =
        move-Held s.handler.mutex s.worker s.clients i ClientPc.idle f (ground arith)

    pub Reach-Held :
        (h : Handler k) (s : System k)
        → IsFresh h
        → Reach new_return zero (started h) s
        → Held s.handler.mutex s.worker s.clients
    Reach-Held h _ f here =
        subst (λ m. Held m WorkerPc.head (λ i. ClientPc.idle)) (sym f.unlocked) tt
    Reach-Held h t f (next {t = s} r st) = Step-Held s t (Reach-Held h s f r) st
