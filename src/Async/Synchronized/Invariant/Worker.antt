-- ===== src/Async/Synchronized/Invariant/Worker.antt =====
-- A step of the worker keeps the invariant.
use mathlib.Core.Path.{subst, subst₂}
use portage_realtime_tools_e.Base.{ℕ, ◌≡◌, Option, none, some, List, arith}
use portage_realtime_tools_e.Async.Handler.{Types, Handler}
use portage_realtime_tools_e.Async.Synchronized.{WorkerPc, ClientPc, Answer, worker_step}
use portage_realtime_tools_e.Async.Synchronized.Invariant.Defs.{
  Serves, executes, push, Serves-push, WorkerFact, Inv, Cycle,
}

module _ {k : Types} where
  -- What is still to be executed after a step of the worker, and what is not.
  abbrev pub left : WorkerPc k → Option (Cycle k) → Option (Cycle k)
  left WorkerPc.calling rest = none
  left WorkerPc.clearing rest = none
  left _ rest = rest

  abbrev pub over : WorkerPc k → Option (Cycle k) → List (Cycle k) → List (Cycle k)
  over WorkerPc.calling rest past = push rest past
  over WorkerPc.clearing rest past = push rest past
  over _ rest past = past

  worker-Serves :
      (q : WorkerPc k) (a : Answer k) (time : ℕ) (h : Handler k) (rest : Option (Cycle k))
      (past : List (Cycle k)) (h' : Handler k) (p : WorkerPc k)
      → WorkerFact h rest q
      → Serves h.executed past
      → worker_step a time h q ≡ some (h', p)
      → Serves h'.executed (over q rest past)
  unfolding worker_step
  worker-Serves WorkerPc.calling a time h rest past h' p f s e =
      subst₂ Serves (ground arith) (ground arith)
        (executes (h.current_callback_time, h.current_callback_period) s)
  worker-Serves WorkerPc.clearing a time h rest past h' p f s e =
      subst (λ x. Serves x (push rest past)) (ground arith) (Serves-push rest h.executed past s)
  worker-Serves q a time h rest past h' p f s e = subst (λ x. Serves x past) (ground arith) s

  pub worker-Inv :
      (q : WorkerPc k) (a : Answer k) (time : ℕ) (h : Handler k) (cs : ℕ → ClientPc k)
      (rest : Option (Cycle k)) (past : List (Cycle k)) {h' : Handler k} {p : WorkerPc k}
      → Inv h q cs rest past
      → worker_step a time h q ≡ some (h', p)
      → Inv h' p cs (left q rest) (over q rest past)
  unfolding worker_step
  worker-Inv WorkerPc.head a time h cs rest past inv e = record {
    worker_owns = ground arith;
    client_owns = λ i c. ground (arith, inv.client_owns i);
    logs = ground (arith, inv.logs);
    serves = worker-Serves WorkerPc.head a time h rest past _ _ inv.worker_fact inv.serves e;
    cleared = ground (arith, inv.cleared);
    pending = λ m. ground (arith, inv.pending);
    client_fact = λ i. ground (arith, inv.client_fact i, inv.client_owns i);
    worker_fact = ground (arith, inv.pending);
  }
  worker-Inv q a time h cs rest past inv e = record {
    worker_owns = ground arith;
    client_owns = λ i c. ground (arith, inv.client_owns i);
    logs = ground (arith, inv.logs);
    serves = worker-Serves q a time h rest past _ _ inv.worker_fact inv.serves e;
    cleared = ground (arith, inv.cleared);
    pending = λ m. ground (arith, inv.pending);
    client_fact = λ i. ground (arith, inv.client_fact i, inv.client_owns i);
    worker_fact = ground (arith, inv.pending);
  }
