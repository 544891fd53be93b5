-- ===== src/Async/Detached/Invariant.antt =====
-- The invariant of the detached handler, in every state that any steps lead to.
mod Defs
pub use Defs.*
use Defs.{client_holds, newest, IsFresh, Measured, Inv, started-Inv}
use mathlib.Core.Path.{subst}
use portage_realtime_tools_e.Base.{
  inl, inr, Option-cases, ℕ, ◌≡◌, refl, ◌≢◌, false, some, ◌∷◌, update, arith,
}
use portage_realtime_tools_e.Async.Handler.{Types, Handler, reset_variables}
use portage_realtime_tools_e.Async.Detached.Schedule.{Doubles, period_of}
use portage_realtime_tools_e.Async.Detached.{
  WorkerPc, ClientPc, Call, Answer, Shared, Clocks, begins, resumes, calls, worker_step, enter,
  client_step, wake, wake_waiter, System, Step, worker_runs, announces_end, worker_wakes_up,
  with_handler, begins_call, client_runs, client_wakes_up, resume_notifies, stop_notifies, joins,
  started, Reach, here, next,
}

module _ {k : Types} where
  module _ (clocks : Clocks k) (d : Doubles) (new_return : k.Return)
      (zero_duration : k.Duration) where
    worker-Measured :
        (q : WorkerPc k) (a : Answer k) (now : k.Time) (steady took : ℕ) (s : Shared k)
        (cs : ℕ → ClientPc k) {t : Shared k} {p : WorkerPc k}
        → Inv clocks s q cs
        → worker_step d clocks a now steady took s q ≡ some (t, p)
        → Measured clocks t.marks
    unfolding worker_step
    worker-Measured WorkerPc.beginning a now steady took s cs {t} inv e =
        subst (Measured clocks) {x = begins now ∷ s.marks} {y = t.marks} (ground arith) inv.measured
    worker-Measured (WorkerPc.measuring n) a now steady took s cs {t} inv e =
        elim (Option-cases (newest s.marks)) [
          | inl gone ↦ absurd (ground arith)
          | inr (p, last) ↦
              subst (Measured clocks) {x = calls now (clocks.elapsed now p) ∷ s.marks} {y = t.marks}
                (ground arith) ((p, last, refl), inv.measured)
        ]
    worker-Measured q a now steady took s cs {t} inv e =
        subst (Measured clocks) {x = s.marks} {y = t.marks} (ground arith) inv.measured

    worker-Inv :
        (q : WorkerPc k) (a : Answer k) (now : k.Time) (steady took : ℕ) (s : Shared k)
        (cs : ℕ → ClientPc k) {t : Shared k} {p : WorkerPc k}
        → Inv clocks s q cs
        → worker_step d clocks a now steady took s q ≡ some (t, p)
        → Inv clocks t p cs
    unfolding worker_step
    worker-Inv WorkerPc.aborted a now steady took s cs inv e = ground arith
    worker-Inv q a now steady took s cs inv e = record {
      rated = ground arith;
      clocked = ground arith;
      worker_owns = ground arith;
      client_owns = λ i c. ground (arith, inv.client_owns i);
      previous = ground arith;
      begun = ground arith;
      measured = worker-Measured q a now steady took s cs inv e;
      recorded = ground arith;
      alive = ground arith;
      unfaulted = inv.unfaulted;
    }

    client-Measured :
        (c : ClientPc k) (now : k.Time) (i : ℕ) (s : Shared k) (q : WorkerPc k)
        (cs : ℕ → ClientPc k) {t : Shared k} {p : ClientPc k}
        → Inv clocks s q cs
        → client_step clocks new_return zero_duration now i s c ≡ some (t, p)
        → Measured clocks t.marks
    unfolding client_step reset_variables
    client-Measured ClientPc.resume_timing now i s q cs {t} inv h =
        subst (Measured clocks)
          {x = resumes (clocks.back (period_of s.handler.params.exec_rate) now) ∷ s.marks}
          {y = t.marks} (ground arith) inv.measured
    client-Measured c now i s q cs {t} inv h =
        subst (Measured clocks) {x = s.marks} {y = t.marks} (ground arith) inv.measured

    client-Inv :
        (c : ClientPc k) (now : k.Time) (i : ℕ) (s : Shared k) (q : WorkerPc k)
        (cs : ℕ → ClientPc k) {t : Shared k} {p : ClientPc k}
        → Inv clocks s q cs
        → cs i ≡ c
        → client_step clocks new_return zero_duration now i s c ≡ some (t, p)
        → Inv clocks t q (update cs i p)
    unfolding client_step reset_variables
    client-Inv ClientPc.idle now i s q cs inv e h = ground arith
    client-Inv c now i s q cs inv e h = record {
      rated = ground arith;
      clocked = ground arith;
      worker_owns = λ w. ground (arith, inv.client_owns i);
      client_owns = λ j w. ground (arith, inv.client_owns i, inv.client_owns j);
      previous = ground arith;
      begun = λ w. ground arith;
      measured = client-Measured c now i s q cs inv h;
      recorded = ground arith;
      alive = inv.alive;
      unfaulted = λ j. ground (arith, inv.unfaulted j);
    }

    move-Inv :
        (i : ℕ) (p : ClientPc k) (s : Shared k) (q : WorkerPc k) (cs : ℕ → ClientPc k)
        → Inv clocks s q cs
        → client_holds p ≡ false
        → p ≢ ClientPc.faulted
        → Inv clocks s q (update cs i p)
    move-Inv i p s q cs inv h n = record {
      rated = inv.rated;
      clocked = inv.clocked;
      worker_owns = inv.worker_owns;
      client_owns = λ j w. ground (arith, inv.client_owns j);
      previous = inv.previous;
      begun = inv.begun;
      measured = inv.measured;
      recorded = inv.recorded;
      alive = inv.alive;
      unfaulted = λ j. ground (arith, inv.unfaulted j);
    }

    wake-Inv :
        (s : Shared k) (q : WorkerPc k) (cs : ℕ → ClientPc k)
        → Inv clocks s q cs
        → Inv clocks s (wake q) cs
    unfolding wake
    wake-Inv s WorkerPc.first_waiting cs inv = record {
      rated = inv.rated;
      clocked = inv.clocked;
      worker_owns = λ w. cc;
      client_owns = inv.client_owns;
      previous = inv.previous;
      begun = λ w. cc;
      measured = inv.measured;
      recorded = inv.recorded;
      alive = λ e. cc;
      unfaulted = inv.unfaulted;
    }
    wake-Inv s (WorkerPc.waiting n) cs inv = record {
      rated = inv.rated;
      clocked = inv.clocked;
      worker_owns = λ w. cc;
      client_owns = inv.client_owns;
      previous = inv.previous;
      begun = λ w. inv.begun refl;
      measured = inv.measured;
      recorded = inv.recorded;
      alive = λ e. cc;
      unfaulted = inv.unfaulted;
    }
    wake-Inv s q cs inv = inv

    -- `notify_all`, and the end of `join`.
    announce-Inv :
        (n : ℕ) (s : Shared k) (cs : ℕ → ClientPc k)
        → Inv clocks s (WorkerPc.announcing n) cs
        → Inv clocks s (WorkerPc.head n) (λ i. wake_waiter (cs i))
    unfolding wake_waiter
    announce-Inv n s cs inv = record {
      rated = inv.rated;
      clocked = inv.clocked;
      worker_owns = λ w. cc;
      client_owns = λ i w. ground (arith, inv.client_owns i);
      previous = inv.previous;
      begun = inv.begun;
      measured = inv.measured;
      recorded = inv.recorded;
      alive = λ e. cc;
      unfaulted = λ i. ground (arith, inv.unfaulted i);
    }

    join-Inv :
        (s : Shared k) (q : WorkerPc k) (cs : ℕ → ClientPc k)
        → Inv clocks s q cs
        → Inv clocks (with_handler s (record s.handler { joinable = false })) q cs
    join-Inv s q cs inv = record {
      rated = inv.rated;
      clocked = inv.clocked;
      worker_owns = inv.worker_owns;
      client_owns = inv.client_owns;
      previous = inv.previous;
      begun = inv.begun;
      measured = inv.measured;
      recorded = inv.recorded;
      alive = inv.alive;
      unfaulted = inv.unfaulted;
    }

    enter-holds : (c : Call) (h : Handler k) → client_holds (enter c h) ≡ false
    unfolding enter
    enter-holds Call.reset h = refl
    enter-holds c h = ground arith

    enter-faulted : (c : Call) (h : Handler k) → enter c h ≢ ClientPc.faulted
    unfolding enter
    enter-faulted Call.reset h = λ e. cc
    enter-faulted c h = ground arith

    pub Step-Inv :
        (s t : System k)
        → Inv clocks s.shared s.worker s.clients
        → Step d clocks new_return zero_duration s t
        → Inv clocks t.shared t.worker t.clients
    Step-Inv s _ inv (worker_runs a now steady took e n) =
        worker-Inv s.worker a now steady took s.shared s.clients inv e
    Step-Inv s _ inv (announces_end n e) =
        announce-Inv n s.shared s.clients (subst (λ q. Inv clocks s.shared q s.clients) e inv)
    Step-Inv s _ inv worker_wakes_up = wake-Inv s.shared s.worker s.clients inv
    Step-Inv s _ inv (begins_call i c e) =
        move-Inv i (enter c s.shared.handler) s.shared s.worker s.clients inv
          (enter-holds c s.shared.handler) (enter-faulted c s.shared.handler)
    Step-Inv s _ inv (client_runs now i e) =
        client-Inv (s.clients i) now i s.shared s.worker s.clients inv refl e
    Step-Inv s _ inv (client_wakes_up i e) =
        move-Inv i ClientPc.wait_woken s.shared s.worker s.clients inv refl (λ x. cc)
    Step-Inv s _ inv (resume_notifies i e) =
        move-Inv i ClientPc.reading s.shared (wake s.worker) s.clients
          (wake-Inv s.shared s.worker s.clients inv) refl (λ x. cc)
    Step-Inv s _ inv (stop_notifies i e) =
        move-Inv i ClientPc.joining s.shared (wake s.worker) s.clients
          (wake-Inv s.shared s.worker s.clients inv) refl (λ x. cc)
    Step-Inv s _ inv (joins i e f) =
        move-Inv i ClientPc.idle
          (with_handler s.shared (record s.shared.handler { joinable = false })) s.worker s.clients
          (join-Inv s.shared s.worker s.clients inv) refl (λ x. cc)

    pub Reach-Inv :
        (h : Handler k) (s : System k)
        → IsFresh h
        → Reach d clocks new_return zero_duration (started h) s
        → Inv clocks s.shared s.worker s.clients
    Reach-Inv h _ f here = started-Inv clocks h f
    Reach-Inv h t f (next {t = s} r st) = Step-Inv s t (Reach-Inv h s f r) st
