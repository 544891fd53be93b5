-- ===== src/Async/Synchronized/Exceptions.antt =====
-- An exception of the callback under the synchronized policy, until `reset_variables`.
use portage_realtime_tools_e.Base.{
  ℕ, ◌≡◌, ◌≢◌, refl, ap, ◌∙◌, Bool, true, false, Option, some, List, update, arith, is_some,
  Option-cases, inl, inr,
}
use portage_realtime_tools_e.Async.Handler.{
  Types, Handler, rethrown, thrown, is_initialized, trigger_checks, reset_variables,
}
use portage_realtime_tools_e.Async.Synchronized.{
  WorkerPc, ClientPc, Call, trigger_async_callback, Answer, worker_step, enter, client_step,
  wake_waiter, System, Step, worker_runs, announces, worker_wakes_up, calls, client_runs,
  client_wakes_up, notifies, stop_notifies, joins,
}
use portage_realtime_tools_e.Async.Synchronized.CycleEnd.{Resets, Undisturbed, stays, goes}

-- The thread is past the checks of a trigger that has not set off its cycle.
abbrev pub in_trigger : {k : Types} → ClientPc k → Bool
in_trigger (ClientPc.trying _ _) = true
in_trigger (ClientPc.checking _ _) = true
in_trigger (ClientPc.marking _ _) = true
in_trigger (ClientPc.timestamping _ _) = true
in_trigger (ClientPc.periodizing _ _) = true
in_trigger _ = false

module _ {k : Types} (new_return : k.Return) (zero_duration : k.Duration) where
  -- An exception is stored in an initialized handler, and the cycles that were set off are `past`.
  abbrev Failed : List (Option k.Time × k.Duration) → Handler k → Type 0
  Failed past h =
      (is_some h.async_exception ≡ true) × (is_initialized h ≡ true) × (h.triggered ≡ past)

  worker-Failed :
      (q : WorkerPc k) (a : Answer k) (time : ℕ) (past : List (Option k.Time × k.Duration))
      (h : Handler k) {h' : Handler k} {p : WorkerPc k}
      → Failed past h
      → worker_step a time h q ≡ some (h', p)
      → Failed past h'
  unfolding worker_step is_initialized
  worker-Failed WorkerPc.head a time past h f e = ground arith
  worker-Failed q a time past h f e = ground arith

  client-Failed :
      (c : ClientPc k) (wanted : Bool) (i : ℕ) (past : List (Option k.Time × k.Duration))
      (h : Handler k) {h' : Handler k} {p : ClientPc k}
      → Failed past h
      → in_trigger c ≡ false
      → c ≢ ClientPc.resetting
      → client_step new_return zero_duration wanted i h c ≡ some (h', p)
      → Failed past h' × (in_trigger p ≡ false)
  unfolding client_step is_initialized reset_variables
  client-Failed ClientPc.idle wanted i past h f n x e = ground arith
  client-Failed c wanted i past h f n x e = ground arith

  enter-Failed :
      (c : Call k) (past : List (Option k.Time × k.Duration)) (h : Handler k)
      → Failed past h
      → in_trigger (enter c h) ≡ false
  unfolding enter
  enter-Failed (trigger_async_callback t d) past h f = ground arith
  enter-Failed c past h f = ground arith

  wake_waiter-trigger : (c : ClientPc k) → in_trigger (wake_waiter c) ≡ in_trigger c
  unfolding wake_waiter
  wake_waiter-trigger ClientPc.wait_blocked = refl
  wake_waiter-trigger c = ground arith

  move-trigger :
      (i : ℕ) (p : ClientPc k) (cs : ℕ → ClientPc k)
      → ((j : ℕ) → in_trigger (cs j) ≡ false)
      → in_trigger p ≡ false
      → (j : ℕ) → in_trigger (update cs i p j) ≡ false
  move-trigger i p cs n e j = ground (arith, n j)

  abbrev AllFailed : List (Option k.Time × k.Duration) → System k → Type 0
  AllFailed past s = Failed past s.handler × ((j : ℕ) → in_trigger (s.clients j) ≡ false)

  joined-Failed :
      (past : List (Option k.Time × k.Duration)) (h : Handler k)
      → Failed past h
      → Failed past (record h { joinable = false })
  unfolding is_initialized
  joined-Failed past h f = f

  checks-thrown :
      (h : Handler k)
      → is_initialized h ≡ true
      → is_some h.async_exception ≡ true
      → (e : k.Exception) × (trigger_checks h ≡ thrown (rethrown e) h)
  unfolding trigger_checks
  checks-thrown h i x = elim (Option-cases h.async_exception) [
    | inl n ↦ absurd (ground arith)
    | inr (e, n) ↦ (e, ground arith)
  ]

  Step-Failed :
      (past : List (Option k.Time × k.Duration)) (s t : System k)
      → AllFailed past s
      → (st : Step new_return zero_duration s t) → ¬ Resets new_return zero_duration st
      → AllFailed past t
  Step-Failed past s _ (f, n) (worker_runs a time e x) u =
      (worker-Failed s.worker a time past s.handler f e, n)
  Step-Failed past s _ (f, n) (announces e) u = (f, λ j. wake_waiter-trigger (s.clients j) ∙ n j)
  Step-Failed past s _ (f, n) (worker_wakes_up e) u = (f, n)
  Step-Failed past s _ (f, n) (calls i c e) u =
      (f, move-trigger i (enter c s.handler) s.clients n (enter-Failed c past s.handler f))
  Step-Failed past s _ (f, n) (client_runs wanted i {p = p} e) u =
      let (f', n') = client-Failed (s.clients i) wanted i past s.handler f (n i) u e in
      (f', move-trigger i p s.clients n n')
  Step-Failed past s _ (f, n) (client_wakes_up i e) u =
      (f, move-trigger i ClientPc.wait_woken s.clients n refl)
  Step-Failed past s _ (f, n) (notifies i e) u =
      (f, move-trigger i (ClientPc.reading true) s.clients n refl)
  Step-Failed past s _ (f, n) (stop_notifies i e) u =
      (f, move-trigger i ClientPc.joining s.clients n refl)
  Step-Failed past s _ (f, n) (joins i e g) u =
      (joined-Failed past s.handler f, move-trigger i ClientPc.idle s.clients n refl)

  Undisturbed-Failed :
      (past : List (Option k.Time × k.Duration)) (s t : System k)
      → AllFailed past s
      → Undisturbed new_return zero_duration s t
      → AllFailed past t
  Undisturbed-Failed past s _ f stays = f
  Undisturbed-Failed past s u f (goes {t = t} r st x) =
      Step-Failed past t u (Undisturbed-Failed past s t f r) st x

  -- From a state in which an exception of the callback is stored and no thread is past the checks of
  -- a trigger: whatever the threads do, other than `reset_variables`, each trigger throws an
  -- exception of the callback, and no cycle is set off.
  pub exception_is_rethrown :
      (s t : System k) (e : k.Exception)
      → is_initialized s.handler ≡ true
      → s.handler.async_exception ≡ some e
      → ((i : ℕ) → in_trigger (s.clients i) ≡ false)
      → Undisturbed new_return zero_duration s t
      → ((e' : k.Exception) × (trigger_checks t.handler ≡ thrown (rethrown e') t.handler))
        × (t.handler.triggered ≡ s.handler.triggered)
  exception_is_rethrown s t e i x n r =
      let ((x', i', l), _) =
        Undisturbed-Failed s.handler.triggered s t ((ap is_some x, i, refl), n) r in
      (checks-thrown t.handler i' x', l)
