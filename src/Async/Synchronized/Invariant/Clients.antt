-- ===== src/Async/Synchronized/Invariant/Clients.antt =====
-- A step of a calling thread keeps the invariant.
use mathlib.Core.Path.{subst}
use mathlib.Core.Logic.{if_pos, if_neg}
use portage_realtime_tools_e.Base.{
  ℕ, ◌≡◌, refl, ◌≢◌, Bool, true, false, Option, none, some, List, update, if◌then◌else◌, arith,
  ℕ_discrete,
}
use portage_realtime_tools_e.Async.Handler.{
  Types, Handler, free, by_worker, by_client, reset_variables,
}
use portage_realtime_tools_e.Async.Synchronized.{
  WorkerPc, ClientPc, Call, trigger_async_callback, stop_thread, wait_for_trigger_cycle_to_finish,
  pause_execution, reset, enter, client_step, wake, wake_waiter,
}
use portage_realtime_tools_e.Async.Synchronized.Invariant.Defs.{
  worker_holds, client_holds, Serves, push, Serves-push, Pending, WorkerFact, ClientFact, Inv,
  Cycle,
}

module _ {k : Types} (new_return : k.Return) (zero_duration : k.Duration) where
  -- What is still to be executed after a step of a calling thread, and what is not.
  abbrev pub kept : ClientPc k → Option (Cycle k) → Option (Cycle k)
  kept (ClientPc.periodizing time period) rest = some (some time, period)
  kept ClientPc.resetting rest = none
  kept _ rest = rest

  abbrev pub gone : ClientPc k → Option (Cycle k) → List (Cycle k) → List (Cycle k)
  gone ClientPc.resetting rest past = push rest past
  gone _ rest past = past

  client-Serves :
      (c : ClientPc k) (wanted : Bool) (i : ℕ) (h : Handler k) (rest : Option (Cycle k))
      (past : List (Cycle k)) (h' : Handler k) (p : ClientPc k)
      → Serves h.executed past
      → client_step new_return zero_duration wanted i h c ≡ some (h', p)
      → Serves h'.executed (gone c rest past)
  unfolding client_step reset_variables
  client-Serves ClientPc.resetting wanted i h rest past h' p s e =
      subst (λ x. Serves x (push rest past)) (ground arith) (Serves-push rest h.executed past s)
  client-Serves c wanted i h rest past h' p s e = subst (λ x. Serves x past) (ground arith) s

  -- The worker holds no mutex while a client does, and else relies on nothing that a client changes.
  client-WorkerFact :
      (q : WorkerPc k) (c : ClientPc k) (wanted : Bool) (i : ℕ) (h : Handler k)
      (rest : Option (Cycle k)) {h' : Handler k} {p : ClientPc k}
      → WorkerFact h rest q
      → (worker_holds q ≡ true → h.mutex ≡ by_worker)
      → (client_holds c ≡ true → h.mutex ≡ by_client i)
      → client_step new_return zero_duration wanted i h c ≡ some (h', p)
      → WorkerFact h' (kept c rest) q
  unfolding client_step reset_variables
  client-WorkerFact WorkerPc.head c wanted i h rest f w o e = ground arith
  client-WorkerFact q c wanted i h rest f w o e = ground arith

  -- The same for the other calling threads.
  client-ClientFact :
      (c d : ClientPc k) (wanted : Bool) (i j : ℕ) (h : Handler k) (rest : Option (Cycle k))
      {h' : Handler k} {p : ClientPc k}
      → i ≢ j
      → ClientFact h rest d
      → (client_holds c ≡ true → h.mutex ≡ by_client i)
      → (client_holds d ≡ true → h.mutex ≡ by_client j)
      → client_step new_return zero_duration wanted i h c ≡ some (h', p)
      → ClientFact h' (kept c rest) d
  unfolding client_step reset_variables
  client-ClientFact ClientPc.idle d wanted i j h rest n f o o' e = ground arith
  client-ClientFact c d wanted i j h rest n f o o' e = ground arith

  own-ClientFact :
      (c : ClientPc k) (wanted : Bool) (i : ℕ) (h : Handler k) (rest : Option (Cycle k))
      {h' : Handler k} {p : ClientPc k}
      → ClientFact h rest c
      → (h.mutex ≡ free → Pending h rest)
      → (h.trigger_in_progress ≡ false → rest ≡ none)
      → client_step new_return zero_duration wanted i h c ≡ some (h', p)
      → ClientFact h' (kept c rest) p
  unfolding client_step reset_variables
  own-ClientFact ClientPc.idle wanted i h rest f m z e = ground arith
  own-ClientFact c wanted i h rest f m z e = ground arith

  pub client-Inv :
      (c : ClientPc k) (wanted : Bool) (i : ℕ) (h : Handler k) (q : WorkerPc k)
      (cs : ℕ → ClientPc k) (rest : Option (Cycle k)) (past : List (Cycle k)) {h' : Handler k}
      {p : ClientPc k}
      → Inv h q cs rest past
      → cs i ≡ c
      → client_step new_return zero_duration wanted i h c ≡ some (h', p)
      → Inv h' q (update cs i p) (kept c rest) (gone c rest past)
  unfolding client_step reset_variables
  client-Inv ClientPc.idle wanted i h q cs rest past inv e s = cc
  client-Inv c wanted i h q cs rest past {h'} {p} inv e s = record {
    worker_owns = λ w. ground (arith, inv.client_owns i);
    client_owns = λ j d. ground (arith, inv.client_owns i, inv.client_owns j);
    logs = ground (arith, inv.client_fact i);
    serves = client-Serves c wanted i h rest past h' p inv.serves s;
    cleared = ground (arith, inv.client_fact i, inv.cleared);
    pending = λ m. ground (arith, inv.client_fact i, inv.client_owns i, inv.pending);
    client_fact = λ j. elim (ℕ_discrete i j) [
      | yes same ↦ rw (if_pos _ same) (
          own-ClientFact c wanted i h rest (subst (ClientFact h rest) e (inv.client_fact i))
            inv.pending inv.cleared s)
      | no other ↦ rw (if_neg _ other) (
          client-ClientFact c (cs j) wanted i j h rest other (inv.client_fact j)
            (λ d. ground (arith, inv.client_owns i)) (inv.client_owns j) s)
    ];
    worker_fact =
        client-WorkerFact q c wanted i h rest inv.worker_fact inv.worker_owns
          (λ d. ground (arith, inv.client_owns i)) s;
  }

  -- A thread goes from one place where it holds nothing and relies on nothing to another.
  abbrev pub Free : ClientPc k → Type 0
  Free c =
      (client_holds c ≡ false) × ((h : Handler k) (rest : Option (Cycle k)) → ClientFact h rest c)

  pub move-Inv :
      (i : ℕ) (p : ClientPc k) (h : Handler k) (q : WorkerPc k) (cs : ℕ → ClientPc k)
      (rest : Option (Cycle k)) (past : List (Cycle k))
      → Inv h q cs rest past
      → Free p
      → Inv h q (update cs i p) rest past
  move-Inv i p h q cs rest past inv f = record {
    worker_owns = inv.worker_owns;
    client_owns = λ j d. ground (arith, inv.client_owns j, f.0);
    logs = inv.logs;
    serves = inv.serves;
    cleared = inv.cleared;
    pending = inv.pending;
    client_fact = λ j. elim (ℕ_discrete i j) [
      | yes same ↦ rw (if_pos _ same) (f.1 h rest)
      | no other ↦ rw (if_neg _ other) (inv.client_fact j)
    ];
    worker_fact = inv.worker_fact;
  }

  if-Free : (b : Bool) (p : ClientPc k) → Free p → Free (if b then p else ClientPc.idle)
  if-Free true p f = f
  if-Free false p f = (refl, λ h r. tt)

  pub enter-Free : (c : Call k) (h : Handler k) → Free (enter c h)
  unfolding enter
  enter-Free (trigger_async_callback t d) h = if-Free _ (ClientPc.trying t d) (refl, λ h r. tt)
  enter-Free stop_thread h = if-Free _ ClientPc.stopping (refl, λ h r. tt)
  enter-Free wait_for_trigger_cycle_to_finish h = if-Free _ ClientPc.wait_locking (refl, λ h r. tt)
  enter-Free pause_execution h = (refl, λ h r. tt)
  enter-Free reset h = (refl, λ h r. tt)

  -- `notify_all` moves waiting threads to where they still hold nothing.
  pub announce-Inv :
      (h : Handler k) (cs : ℕ → ClientPc k) (rest : Option (Cycle k)) (past : List (Cycle k))
      → Inv h WorkerPc.announcing cs rest past
      → Inv h WorkerPc.head (λ i. wake_waiter (cs i)) rest past
  unfolding wake_waiter
  announce-Inv h cs rest past inv = record {
    worker_owns = λ w. cc;
    client_owns = λ j d. ground (arith, inv.client_owns j);
    logs = inv.logs;
    serves = inv.serves;
    cleared = inv.cleared;
    pending = inv.pending;
    client_fact = λ j. ground (arith, inv.client_fact j);
    worker_fact = tt;
  }

  -- Waking the worker, and the end of `join`, touch nothing that the invariant is about.
  pub wake-Inv :
      (h : Handler k) (q : WorkerPc k) (cs : ℕ → ClientPc k) (rest : Option (Cycle k))
      (past : List (Cycle k))
      → Inv h q cs rest past
      → Inv h (wake q) cs rest past
  unfolding wake
  wake-Inv h WorkerPc.waiting cs rest past inv = record {
    worker_owns = λ w. cc;
    client_owns = inv.client_owns;
    logs = inv.logs;
    serves = inv.serves;
    cleared = inv.cleared;
    pending = inv.pending;
    client_fact = inv.client_fact;
    worker_fact = tt;
  }
  wake-Inv h q cs rest past inv = inv

  join-WorkerFact :
      (h : Handler k) (q : WorkerPc k) (rest : Option (Cycle k))
      → WorkerFact h rest q
      → WorkerFact (record h { joinable = false }) rest q
  join-WorkerFact h WorkerPc.head rest f = f
  join-WorkerFact h q rest f = f

  pub join-Inv :
      (h : Handler k) (q : WorkerPc k) (cs : ℕ → ClientPc k) (rest : Option (Cycle k))
      (past : List (Cycle k))
      → Inv h q cs rest past
      → Inv (record h { joinable = false }) q cs rest past
  join-Inv h q cs rest past inv = record {
    worker_owns = inv.worker_owns;
    client_owns = inv.client_owns;
    logs = inv.logs;
    serves = inv.serves;
    cleared = inv.cleared;
    pending = inv.pending;
    client_fact = λ i. ground (arith, inv.client_fact i);
    worker_fact = join-WorkerFact h q rest inv.worker_fact;
  }
