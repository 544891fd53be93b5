-- ===== src/Async/Detached/Wakeup.antt =====
-- That no notification of the worker is lost under the detached policy.
use portage_realtime_tools_e.Base.{ℕ, ◌≡◌, refl, Bool, true, false, some, update, arith}
use portage_realtime_tools_e.Async.Handler.{Types, Handler, reset_variables}
use portage_realtime_tools_e.Async.Detached.Schedule.{Doubles}
use portage_realtime_tools_e.Async.Detached.{
  WorkerPc, ClientPc, Answer, Shared, Clocks, may_wake, worker_step, enter, client_step, wake,
  System, Step, worker_runs, announces_end, worker_wakes_up, begins_call, client_runs,
  client_wakes_up, resume_notifies, stop_notifies, joins, started, Reach, here, next,
}
use portage_realtime_tools_e.Async.Detached.Invariant.{IsFresh, Inv, Reach-Inv}

-- The thread will notify the worker.
abbrev pub will_notify : {k : Types} → ClientPc k → Bool
will_notify ClientPc.resume_setting = true
will_notify ClientPc.resume_timing = true
will_notify ClientPc.resume_unlocking = true
will_notify ClientPc.resume_notifying = true
will_notify ClientPc.stop_locking = true
will_notify ClientPc.stop_unlocking = true
will_notify ClientPc.stop_notifying = true
will_notify _ = false

-- The worker is blocked in one of its two waits.
abbrev pub is_waiting : {k : Types} → WorkerPc k → Bool
is_waiting WorkerPc.first_waiting = true
is_waiting (WorkerPc.waiting n) = true
is_waiting _ = false

-- The worker is blocked in one of its two waits, or about to block.
abbrev is_asleep : {k : Types} → WorkerPc k → Bool
is_asleep WorkerPc.first_waiting = true
is_asleep WorkerPc.first_blocking = true
is_asleep (WorkerPc.waiting n) = true
is_asleep (WorkerPc.blocking n) = true
is_asleep _ = false

-- The worker has seen `pause_thread_` set, and has had the mutex since.
abbrev has_seen_pause : {k : Types} → WorkerPc k → Bool
has_seen_pause WorkerPc.first_testing_stop = true
has_seen_pause WorkerPc.first_blocking = true
has_seen_pause (WorkerPc.testing_stop n) = true
has_seen_pause (WorkerPc.blocking n) = true
has_seen_pause _ = false

-- The thread is to take the mutex, and then to notify the worker.
abbrev is_locking : {k : Types} → ClientPc k → Bool
is_locking ClientPc.stop_locking = true
is_locking _ = false

-- While the worker has the mutex, only a notification of a thread that has yet to take it counts.
abbrev will_notify_at : {k : Types} → WorkerPc k → ClientPc k → Bool
will_notify_at WorkerPc.first_blocking c = is_locking c
will_notify_at (WorkerPc.blocking n) c = is_locking c
will_notify_at _ c = will_notify c

module _ {k : Types} (clocks : Clocks k) (d : Doubles) (new_return : k.Return)
    (zero_duration : k.Duration) where
  abbrev Notified : WorkerPc k → Shared k → (ℕ → ClientPc k) → Type 0
  Notified q s cs =
      (has_seen_pause q ≡ true → s.handler.pause_thread ≡ true)
      × (is_asleep q ≡ true
          → may_wake s.handler ≡ true
          → (i : ℕ) × (will_notify_at q (cs i) ≡ true))

  worker-Notified :
      (q : WorkerPc k) (a : Answer k) (now : k.Time) (steady took : ℕ) (s : Shared k)
      (cs : ℕ → ClientPc k) {t : Shared k} {p : WorkerPc k}
      → Notified q s cs
      → worker_step d clocks a now steady took s q ≡ some (t, p)
      → Notified p t cs
  unfolding worker_step
  worker-Notified WorkerPc.first_blocking a now steady took s cs n e =
      (λ w. cc, λ w m. let (j, l) = n.1 refl (ground arith) in (j, ground arith))
  worker-Notified (WorkerPc.blocking x) a now steady took s cs n e =
      (λ w. cc, λ w m. let (j, l) = n.1 refl (ground arith) in (j, ground arith))
  worker-Notified WorkerPc.starting a now steady took s cs n e =
      (λ w. ground arith, λ w m. absurd (ground arith))
  worker-Notified q a now steady took s cs n e = (λ w. ground arith, λ w m. absurd (ground arith))

  client-Notified :
      (c : ClientPc k) (now : k.Time) (i : ℕ) (q : WorkerPc k) (s : Shared k) (cs : ℕ → ClientPc k)
      {t : Shared k} {p : ClientPc k}
      → Inv clocks s q cs
      → Notified q s cs
      → cs i ≡ c
      → client_step clocks new_return zero_duration now i s c ≡ some (t, p)
      → Notified q t (update cs i p)
  unfolding client_step reset_variables
  client-Notified ClientPc.resume_clearing now i q s cs inv n e h = (
    λ w. ground (arith, inv.client_owns i, inv.worker_owns),
    λ w m. (i, ground (arith, inv.client_owns i, inv.worker_owns)),
  )
  client-Notified ClientPc.resume_setting now i q s cs inv n e h = (
    λ w. ground (arith, inv.client_owns i, inv.worker_owns),
    λ w m. (i, ground (arith, inv.client_owns i, inv.worker_owns)),
  )
  client-Notified ClientPc.resume_timing now i q s cs inv n e h = (
    λ w. ground (arith, inv.client_owns i, inv.worker_owns),
    λ w m. (i, ground (arith, inv.client_owns i, inv.worker_owns)),
  )
  client-Notified ClientPc.resume_unlocking now i q s cs inv n e h = (
    λ w. ground (arith, inv.client_owns i, inv.worker_owns),
    λ w m. (i, ground (arith, inv.client_owns i, inv.worker_owns)),
  )
  client-Notified ClientPc.stopping now i q s cs inv n e h = (
    λ w. ground (arith, inv.client_owns i, inv.worker_owns),
    λ w m. (i, ground (arith, inv.client_owns i, inv.worker_owns)),
  )
  client-Notified ClientPc.stop_locking now i q s cs inv n e h = (
    λ w. ground (arith, inv.client_owns i, inv.worker_owns),
    λ w m. (i, ground (arith, inv.client_owns i, inv.worker_owns)),
  )
  client-Notified ClientPc.stop_unlocking now i q s cs inv n e h = (
    λ w. ground (arith, inv.client_owns i, inv.worker_owns),
    λ w m. (i, ground (arith, inv.client_owns i, inv.worker_owns)),
  )
  client-Notified c now i q s cs inv n e h = (
    λ w. ground (arith, inv.client_owns i, inv.worker_owns),
    λ w m.
        let (j, l) = n.1 w (ground (arith, inv.client_owns i, inv.worker_owns)) in
        (j, ground arith),
  )

  move-Notified :
      (i : ℕ) (p : ClientPc k) (q : WorkerPc k) (s : Shared k) (cs : ℕ → ClientPc k)
      → Notified q s cs
      → will_notify (cs i) ≡ false
      → Notified q s (update cs i p)
  move-Notified i p q s cs n z = (n.0, λ w m. let (j, l) = n.1 w m in (j, ground arith))

  wake-Notified :
      (i : ℕ) (p : ClientPc k) (q : WorkerPc k) (s : Shared k) (cs : ℕ → ClientPc k)
      → Notified q s cs
      → is_locking (cs i) ≡ false
      → Notified (wake q) s (update cs i p)
  unfolding wake
  wake-Notified i p WorkerPc.first_waiting s cs n z = (λ w. cc, λ w m. absurd (cc))
  wake-Notified i p (WorkerPc.waiting x) s cs n z = (λ w. cc, λ w m. absurd (cc))
  wake-Notified i p WorkerPc.first_blocking s cs n z =
      (n.0, λ w m. let (j, l) = n.1 w m in (j, ground arith))
  wake-Notified i p (WorkerPc.blocking x) s cs n z =
      (n.0, λ w m. let (j, l) = n.1 w m in (j, ground arith))
  wake-Notified i p q s cs n z = (n.0, λ w m. absurd (ground arith))

  wake_up-Notified :
      (q : WorkerPc k) (s : Shared k) (cs : ℕ → ClientPc k)
      → Notified q s cs
      → Notified (wake q) s cs
  unfolding wake
  wake_up-Notified WorkerPc.first_waiting s cs n = (λ w. cc, λ w m. absurd (cc))
  wake_up-Notified (WorkerPc.waiting x) s cs n = (λ w. cc, λ w m. absurd (cc))
  wake_up-Notified q s cs n = n

  Step-Notified :
      (s t : System k)
      → Inv clocks s.shared s.worker s.clients
      → Notified s.worker s.shared s.clients
      → Step d clocks new_return zero_duration s t
      → Notified t.worker t.shared t.clients
  Step-Notified s _ inv n (worker_runs a now steady took e x) =
      worker-Notified s.worker a now steady took s.shared s.clients n e
  Step-Notified s _ inv n (announces_end j e) = (λ w. cc, λ w m. absurd (cc))
  Step-Notified s _ inv n worker_wakes_up = wake_up-Notified s.worker s.shared s.clients n
  Step-Notified s _ inv n (begins_call i c e) =
      move-Notified i (enter c s.shared.handler) s.worker s.shared s.clients n (ground arith)
  Step-Notified s _ inv n (client_runs now i e) =
      client-Notified (s.clients i) now i s.worker s.shared s.clients inv n refl e
  Step-Notified s _ inv n (client_wakes_up i e) =
      move-Notified i ClientPc.wait_woken s.worker s.shared s.clients n (ground arith)
  Step-Notified s _ inv n (resume_notifies i e) =
      wake-Notified i ClientPc.reading s.worker s.shared s.clients n (ground arith)
  Step-Notified s _ inv n (stop_notifies i e) =
      wake-Notified i ClientPc.joining s.worker s.shared s.clients n (ground arith)
  Step-Notified s _ inv n (joins i e f) = (λ w. ground arith, λ w m. absurd (ground arith))

  no_lost :
      (h : Handler k) (s : System k)
      → IsFresh h
      → Reach d clocks new_return zero_duration (started h) s
      → Notified s.worker s.shared s.clients
  no_lost h _ f here = (λ w. cc, λ w m. absurd (cc))
  no_lost h t f (next {t = s} r st) =
      Step-Notified s t (Reach-Inv clocks d new_return zero_duration h s f r) (no_lost h s f r) st

  -- With a clock and a rate that is not 0, no wakeup of the worker is lost: while it is blocked in
  -- either `wait` although the pause was taken back or the thread is to stop, some calling thread has
  -- still to notify it.
  pub no_lost_resume :
      (h : Handler k) (s : System k)
      → IsFresh h
      → Reach d clocks new_return zero_duration (started h) s
      → is_waiting s.worker ≡ true
      → may_wake s.shared.handler ≡ true
      → (i : ℕ) × (will_notify (s.clients i) ≡ true)
  no_lost_resume h s f r w m =
      let (i, l) = (no_lost h s f r).1 (ground arith) m in (i, ground arith)
