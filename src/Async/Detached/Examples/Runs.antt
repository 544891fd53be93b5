-- ===== src/Async/Detached/Examples/Runs.antt =====
-- Runs of a detached handler by evaluation, which carry that their last state can be reached.
use portage_realtime_tools_e.Base.{
  ℕ, zero, suc, ◌-◌, ◌≡◌, refl, ◌⊎◌, inl, inr, true, false, Option, none, some, List, [], ◌∷◌, pos,
}
use portage_realtime_tools_e.Async.Policy.{detached}
use portage_realtime_tools_e.Async.Handler.{Types, Handler, free}
use portage_realtime_tools_e.Async.Detached.{
  WorkerPc, ClientPc, value, Call, Clocks, Shared, worker_step, client_step, Announces, System,
  worker_runs, announces_end, begins_call, client_runs, resume_notifies, started, Reach, here, next,
}
use portage_realtime_tools_e.Async.Detached.Invariant.{IsFresh}
use portage_realtime_tools_e.Async.Detached.Exact.{exact}

abbrev pub types : Types
types = record {
  Return = ℕ;
  Time = ℕ;
  Duration = ℕ;
  Callback = ℕ;
  Predicate = ℕ;
  Clock = ℕ;
  Exception = ℕ;
}

abbrev pub clocks : Clocks types
clocks = record { elapsed = λ t p. t - p; back = λ n t. t - n }

-- A handler at 100 Hz whose thread was started paused.
abbrev pub handler : Handler types
handler = record {
  async_function = some 0;
  trigger_predicate = some 0;
  params = record {
    thread_priority = pos 50;
    cpu_affinity_cores = [];
    scheduling_policy = detached;
    exec_rate = 100;
    clock = some 0;
    trigger_predicate = some 0;
    wait_until_initial_trigger = true;
    print_warnings = true;
    thread_name = "";
  };
  thread_priority = pos 50;
  joinable = true;
  stop_async_callback = false;
  trigger_in_progress = false;
  pause_thread = true;
  async_callback_return = 0;
  async_exception = none;
  current_callback_time = none;
  current_callback_period = 0;
  previous_time = none;
  last_execution_time = 0;
  mutex = free;
  triggered = [];
  executed = [];
}

pub handler-IsFresh : IsFresh handler
handler-IsFresh = record { unlocked = refl; rated = λ e. cc; clocked = refl; not_timed = refl }

-- Which thread runs next. The number is what its clocks show; the callback returns 7.
pub data Turns : Type 0 where
  worker : ℕ → Turns
  call : ℕ → Call → Turns
  client : ℕ → ℕ → Turns

pub record Run : Type 0 where
  pub last : System types
  pub reach : Reach exact clocks 0 0 (started handler) last

idle? : (p : ClientPc types) → Option (p ≡ ClientPc.idle)
idle? ClientPc.idle = some refl
idle? _ = none

notifying? : (p : ClientPc types) → Option (p ≡ ClientPc.resume_notifying)
notifying? ClientPc.resume_notifying = some refl
notifying? _ = none

announcing? : (p : WorkerPc types) → ((n : ℕ) × (p ≡ WorkerPc.announcing n)) ⊎ (¬ Announces p)
announcing? (WorkerPc.announcing n) = inl (n, refl)
announcing? WorkerPc.starting = inr (λ e. e)
announcing? p = inr (λ e. e)

run_worker_turn :
    (r : Run) (now : ℕ) (o : Option (Shared types × WorkerPc types))
    → ((n : ℕ) × (r.last.worker ≡ WorkerPc.announcing n)) ⊎ (¬ Announces r.last.worker)
    → worker_step exact clocks (value 7) now now 3 r.last.shared r.last.worker ≡ o
    → Run
run_worker_turn r now none n e = r
run_worker_turn r now (some (s, p)) (inl (n, y)) e = record {
  last = _;
  reach = next r.reach (announces_end n y);
}
run_worker_turn r now (some (s, p)) (inr n) e = record {
  last = _;
  reach = next r.reach (worker_runs (value 7) now now 3 e n);
}

run_call : (r : Run) (i : ℕ) (c : Call) → Option (r.last.clients i ≡ ClientPc.idle) → Run
run_call r i c none = r
run_call r i c (some e) = record { last = _; reach = next r.reach (begins_call i c e) }

run_client :
    (r : Run) (now i : ℕ) (o : Option (Shared types × ClientPc types))
    → Option (r.last.clients i ≡ ClientPc.resume_notifying)
    → client_step clocks 0 0 now i r.last.shared (r.last.clients i) ≡ o
    → Run
run_client r now i (some (s, p)) f e = record {
  last = _;
  reach = next r.reach (client_runs now i e);
}
run_client r now i none none e = r
run_client r now i none (some f) e = record { last = _; reach = next r.reach (resume_notifies i f) }

turn_of : Run → Turns → Run
unfolding idle? notifying? announcing? run_worker_turn run_call run_client
turn_of r (worker now) =
    run_worker_turn r now (worker_step exact clocks (value 7) now now 3 r.last.shared r.last.worker)
      (announcing? r.last.worker) refl
turn_of r (call i c) = run_call r i c (idle? (r.last.clients i))
turn_of r (client now i) =
    run_client r now i (client_step clocks 0 0 now i r.last.shared (r.last.clients i))
      (notifying? (r.last.clients i)) refl

unfoldable pub run_from : Run → List Turns → Run
unfolding turn_of
run_from r [] = r
run_from r (x ∷ xs) = run_from (turn_of r x) xs

abbrev pub workers : ℕ → ℕ → List Turns → List Turns
workers now zero xs = xs
workers now (suc n) xs = worker now ∷ workers now n xs

abbrev pub clients : ℕ → ℕ → ℕ → List Turns → List Turns
clients now i zero xs = xs
clients now i (suc n) xs = client now i ∷ clients now i n xs

abbrev pub begun : Run
begun = record { last = started handler; reach = here }
