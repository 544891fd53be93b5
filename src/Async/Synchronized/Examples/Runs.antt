-- ===== src/Async/Synchronized/Examples/Runs.antt =====
-- Runs of a handler by evaluation, which carry that their last state can be reached.
use portage_realtime_tools_e.Base.{
  ℕ, zero, suc, ◌≡◌, refl, ◌≢◌, ◌⊎◌, inl, inr, true, false, Option, none, some, List, [], ◌∷◌, pos,
}
use portage_realtime_tools_e.Async.Params.{default_params}
use portage_realtime_tools_e.Async.Handler.{Types, Handler, free}
use portage_realtime_tools_e.Async.Synchronized.{
  WorkerPc, ClientPc, value, Call, Step, worker_step, client_step, System, worker_runs, announces,
  calls, client_runs, notifies, started, Reach, here, next,
}
use portage_realtime_tools_e.Async.Synchronized.Invariant.{IsFresh}
use portage_realtime_tools_e.Async.Synchronized.CycleEnd.{Resets, Undisturbed, stays, goes}

abbrev pub types : Types
types = record {
  Return = ℕ;
  Time = ℕ;
  Duration = ℕ;
  Callback = ℕ;
  Predicate = ℕ;
  Clock = ℕ;
  Exception = ℕ;
}

-- A handler with a started thread.
abbrev pub handler : Handler types
handler = record {
  async_function = some 0;
  trigger_predicate = some 0;
  params = default_params 0;
  thread_priority = pos 50;
  joinable = true;
  stop_async_callback = false;
  trigger_in_progress = false;
  pause_thread = false;
  async_callback_return = 0;
  async_exception = none;
  current_callback_time = none;
  current_callback_period = 0;
  previous_time = none;
  last_execution_time = 0;
  mutex = free;
  triggered = [];
  executed = [];
}

pub handler-IsFresh : IsFresh handler
handler-IsFresh = record {
  unlocked = refl;
  not_triggered = refl;
  none_triggered = refl;
  none_executed = refl;
}

-- Which thread runs next. The callback returns 7, and the predicate is true.
pub data Turns : Type 0 where
  worker : Turns
  call : ℕ → Call types → Turns
  client : ℕ → Turns

pub record Run : Type 0 where
  pub last : System types
  pub reach : Reach 0 0 (started handler) last
  pub undisturbed : Undisturbed 0 0 (started handler) last

idle? : (p : ClientPc types) → Option (p ≡ ClientPc.idle)
idle? ClientPc.idle = some refl
idle? _ = none

notifying? : (p : ClientPc types) → Option (p ≡ ClientPc.notifying)
notifying? ClientPc.notifying = some refl
notifying? _ = none

resetting? : (p : ClientPc types) → Option (p ≢ ClientPc.resetting)
resetting? ClientPc.resetting = none
resetting? ClientPc.idle = some (λ e. cc)
resetting? p = some (λ e. cc)

announcing? : (p : WorkerPc types) → (p ≡ WorkerPc.announcing) ⊎ (p ≢ WorkerPc.announcing)
announcing? WorkerPc.announcing = inl refl
announcing? WorkerPc.head = inr (λ e. cc)
announcing? p = inr (λ e. cc)

-- One more step, which is not one of `reset_variables`.
step_on : (r : Run) {t : System types} (st : Step 0 0 r.last t) → ¬ Resets 0 0 st → Run
step_on r st x = record { last = _; reach = next r.reach st; undisturbed = goes r.undisturbed st x }

run_worker :
    (r : Run) (o : Option (Handler types × WorkerPc types))
    → (r.last.worker ≡ WorkerPc.announcing) ⊎ (r.last.worker ≢ WorkerPc.announcing)
    → worker_step (value 7) 3 r.last.handler r.last.worker ≡ o
    → Run
unfolding step_on
run_worker r none n e = r
run_worker r (some (h, p)) (inl y) e = step_on r (announces y) (λ z. z)
run_worker r (some (h, p)) (inr n) e = step_on r (worker_runs (value 7) 3 e n) (λ z. z)

run_call : (r : Run) (i : ℕ) (c : Call types) → Option (r.last.clients i ≡ ClientPc.idle) → Run
unfolding step_on
run_call r i c none = r
run_call r i c (some e) = step_on r (calls i c e) (λ z. z)

run_client :
    (r : Run) (i : ℕ) (o : Option (Handler types × ClientPc types))
    → Option (r.last.clients i ≡ ClientPc.notifying)
    → Option (r.last.clients i ≢ ClientPc.resetting)
    → client_step 0 0 true i r.last.handler (r.last.clients i) ≡ o
    → Run
unfolding step_on
run_client r i (some (h, p)) f none e = r
run_client r i (some (h, p)) f (some n) e = step_on r (client_runs true i e) n
run_client r i none none n e = r
run_client r i none (some f) n e = step_on r (notifies i f) (λ z. z)

turn_of : Run → Turns → Run
unfolding idle? notifying? announcing? resetting? run_worker run_call run_client
turn_of r worker =
    run_worker r (worker_step (value 7) 3 r.last.handler r.last.worker) (announcing? r.last.worker)
      refl
turn_of r (call i c) = run_call r i c (idle? (r.last.clients i))
turn_of r (client i) =
    run_client r i (client_step 0 0 true i r.last.handler (r.last.clients i))
      (notifying? (r.last.clients i)) (resetting? (r.last.clients i)) refl

unfoldable pub run_from : Run → List Turns → Run
unfolding turn_of
run_from r [] = r
run_from r (x ∷ xs) = run_from (turn_of r x) xs

abbrev pub begun : Run
begun = record { last = started handler; reach = here; undisturbed = stays }

abbrev pub workers : ℕ → List Turns → List Turns
workers zero xs = xs
workers (suc n) xs = worker ∷ workers n xs

abbrev pub clients : ℕ → ℕ → List Turns → List Turns
clients i zero xs = xs
clients i (suc n) xs = client i ∷ clients i n xs
