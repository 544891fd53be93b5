-- ===== src/Async/Synchronized/Stranded.antt =====
-- A wait for the end of a cycle under the synchronized policy that outlives the worker.
use portage_realtime_tools_e.Base.{
  ℕ, ◌≡◌, ◌≢◌, ap, refl, Bool, true, false, some, update, update-keeps, arith,
}
use portage_realtime_tools_e.Async.Handler.{Types, Handler, reset_variables}
use portage_realtime_tools_e.Async.Synchronized.{
  WorkerPc, ClientPc, worker_step, enter, client_step, wake, System, Step, worker_runs, announces,
  worker_wakes_up, calls, client_runs, client_wakes_up, notifies, stop_notifies, joins,
}
use portage_realtime_tools_e.Async.Synchronized.CycleEnd.{Resets, Undisturbed, stays, goes}

-- The thread is inside its wait for the end of a cycle.
abbrev pub in_wait : {k : Types} → ClientPc k → Bool
in_wait ClientPc.wait_testing = true
in_wait ClientPc.wait_blocking = true
in_wait ClientPc.wait_blocked = true
in_wait ClientPc.wait_woken = true
in_wait _ = false

module _ {k : Types} (new_return : k.Return) (zero_duration : k.Duration) where
  abbrev Stranded : ℕ → System k → Type 0
  Stranded i s =
      (s.worker ≡ WorkerPc.finished)
      × (s.handler.trigger_in_progress ≡ true)
      × (in_wait (s.clients i) ≡ true)

  client-Stranded :
      (c : ClientPc k) (wanted : Bool) (i j : ℕ) (h : Handler k) (cs : ℕ → ClientPc k)
      {h' : Handler k} {p : ClientPc k}
      → h.trigger_in_progress ≡ true
      → in_wait (cs i) ≡ true
      → cs j ≡ c
      → c ≢ ClientPc.resetting
      → client_step new_return zero_duration wanted j h c ≡ some (h', p)
      → (h'.trigger_in_progress ≡ true) × (in_wait (update cs j p i) ≡ true)
  unfolding client_step reset_variables
  client-Stranded (ClientPc.marking t d) wanted i j h cs m w e x f = (ground arith, ground arith)
  client-Stranded c wanted i j h cs m w e x f = (ground arith, ground arith)

  others-in_wait :
      (i j : ℕ) (p : ClientPc k) (cs : ℕ → ClientPc k)
      → in_wait (cs i) ≡ true
      → in_wait (cs j) ≡ in_wait p
      → in_wait (update cs j p i) ≡ true
  others-in_wait i j p cs = update-keeps in_wait cs i j p

  left-in_wait :
      (i j : ℕ) (p : ClientPc k) (cs : ℕ → ClientPc k)
      → in_wait (cs i) ≡ true
      → in_wait (cs j) ≡ false
      → in_wait (update cs j p i) ≡ true
  left-in_wait i j p cs w e = ground arith

  wake-finished : (q : WorkerPc k) → q ≡ WorkerPc.finished → wake q ≡ WorkerPc.finished
  unfolding wake
  wake-finished q e = ground arith

  Step-Stranded :
      (i : ℕ) (s t : System k)
      → Stranded i s
      → (st : Step new_return zero_duration s t) → ¬ Resets new_return zero_duration st
      → Stranded i t
  unfolding worker_step
  Step-Stranded i s _ (q, m, w) (worker_runs a time e x) u = absurd (ground arith)
  Step-Stranded i s _ (q, m, w) (announces e) u = absurd (ground arith)
  Step-Stranded i s _ (q, m, w) (worker_wakes_up e) u = absurd (ground arith)
  Step-Stranded i s _ (q, m, w) (calls j c e) u =
      (q, m, left-in_wait i j (enter c s.handler) s.clients w (ap in_wait e))
  Step-Stranded i s _ (q, m, w) (client_runs wanted j e) u =
      let (m', w') = client-Stranded (s.clients j) wanted i j s.handler s.clients m w refl u e in
      (q, m', w')
  Step-Stranded i s _ (q, m, w) (client_wakes_up j e) u =
      (q, m, others-in_wait i j ClientPc.wait_woken s.clients w (ap in_wait e))
  Step-Stranded i s _ (q, m, w) (notifies j e) u = (
    wake-finished s.worker q,
    m,
    left-in_wait i j (ClientPc.reading true) s.clients w (ap in_wait e),
  )
  Step-Stranded i s _ (q, m, w) (stop_notifies j e) u =
      (wake-finished s.worker q, m, left-in_wait i j ClientPc.joining s.clients w (ap in_wait e))
  Step-Stranded i s _ (q, m, w) (joins j e f) u =
      (q, m, left-in_wait i j ClientPc.idle s.clients w (ap in_wait e))

  Undisturbed-Stranded :
      (i : ℕ) (s t : System k)
      → Stranded i s
      → Undisturbed new_return zero_duration s t
      → Stranded i t
  Undisturbed-Stranded i s _ z stays = z
  Undisturbed-Stranded i s u z (goes {t = t} r st x) =
      Step-Stranded i t u (Undisturbed-Stranded i s t z r) st x

  -- When the worker has ended while a cycle was still marked as in progress, a thread that is inside
  -- its wait for the end of that cycle stays there, whatever steps the threads do, the join of the
  -- worker included, as long as `reset_variables` does not clear the mark.
  pub stop_strands_waiter :
      (i : ℕ) (s t : System k)
      → s.worker ≡ WorkerPc.finished
      → s.handler.trigger_in_progress ≡ true
      → in_wait (s.clients i) ≡ true
      → Undisturbed new_return zero_duration s t
      → in_wait (t.clients i) ≡ true
  stop_strands_waiter i s t q m w r = (Undisturbed-Stranded i s t (q, m, w) r).2
