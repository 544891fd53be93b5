-- ===== src/Async/Start/Examples.antt =====
-- A system that keeps what was set, with four cores of which the third is not permitted.
use Prim.Native.String.{String}
use portage_realtime_tools_e.Base.{
  ℕ, ◌-◌, ◌≡◌, refl, ◌≤◌, ◌⊎◌, ◌↔◌, Bool, true, false, not, ◌||◌, ◌&&◌, none, some, List, [], ◌∷◌,
  ltb, ◌==◌, arith, if◌then◌else◌, ℤ, pos, codes,
}
use portage_realtime_tools_e.Helpers.{
  Os, set_cores, requested, set_thread_affinity, set_current_thread_affinity,
}
use portage_realtime_tools_e.Helpers.Affinity.{CpuSets}
use portage_realtime_tools_e.Helpers.Kernel.{configure_sched_fifo, sched_fifo}
use portage_realtime_tools_e.Helpers.Naming.{set_current_thread_name}
use portage_realtime_tools_e.Async.Policy.{detached, unknown}
use portage_realtime_tools_e.Async.Params.{Params, default_params, returns, validate, cores_valid}
use portage_realtime_tools_e.Async.Handler.{
  Types, Handler, free, done, init_params, start_thread, is_initialized, reset_variables,
}
use portage_realtime_tools_e.Async.Detached.{WorkerPc, Clocks}
use portage_realtime_tools_e.Async.Detached.Exact.{exact}
use portage_realtime_tools_e.Async.Start.{
  Threads, execute_detached_callback, loop_of, pin, rename, set_up,
}
use portage_realtime_tools_e.Async.Start.Setup.{Documented}
use portage_realtime_tools_e.Async.Start.Abort.{MayAbort, aborts_iff}

record Kept : Type 0 where
  scheduler : ℕ × ℤ
  cores : List ℕ
  name : List ℕ

abbrev has : List ℕ → ℕ → Bool
has [] i = false
has (j ∷ s) i = i == j || has s i

abbrev four_cores : Os
four_cores = record {
  State = Kept;
  CpuSet = List ℕ;
  cpu_zero = [];
  cpu_set = λ j s. if ltb j 1024 then j ∷ s else s;
  number_of_available_processors = λ s. pos 4;
  pthread_setaffinity_np = λ t s. (record s { cores = t }, 0);
  errno = λ s. 0;
}

abbrev threads : Threads
threads = record {
  os = four_cores;
  sched_setscheduler = λ policy priority s. (record s { scheduler = (policy, priority) }, pos 0);
  pthread_setname_np = λ xs s. (record s { name = xs }, 0);
  bytes = codes;
}

has-set :
    (i j : ℕ) (s : List ℕ)
    → has (if ltb j 1024 then j ∷ s else s) i ≡ ltb j 1024 && i == j || has s i
has-set i j s = ground arith

abbrev four_sets : CpuSets four_cores
four_sets = record {
  cpu_isset = λ i s. has s i;
  cpu_setsize = 1024;
  zero_has_none = λ i. refl;
  set_adds = has-set;
}

four-room : 4 ≤ 1024
four-room = ground arith

abbrev threads_documented : Documented threads four_sets
threads_documented = record {
  scheduler = λ s. s.scheduler;
  bound = λ i s. has s.cores i && not (i == 2);
  permitted = λ i. not (i == 2);
  name = λ s. s.name;
  room = λ s. four-room;
  sets_scheduler = λ policy priority s. (refl, λ i. refl, refl);
  sets_affinity = λ c s. (λ i. refl, refl, refl);
  sets_name = λ xs s. (refl, refl, λ i. refl);
}

abbrev types : Types
types = record {
  Return = ℕ;
  Time = ℕ;
  Duration = ℕ;
  Callback = String;
  Predicate = ℕ;
  Clock = ℕ;
  Exception = String;
}

-- The rate is missing.
abbrev params : Params ℕ ℕ
params = record (default_params 1) {
  scheduling_policy = detached;
  clock = some 7;
  cpu_affinity_cores = pos 1 ∷ pos 2 ∷ [];
  thread_name = "gripper_controller";
}

abbrev new_handler : Handler types
new_handler = record {
  async_function = none;
  trigger_predicate = some 0;
  params = default_params 0;
  thread_priority = pos 0;
  joinable = false;
  stop_async_callback = false;
  trigger_in_progress = false;
  pause_thread = false;
  async_callback_return = 0;
  async_exception = none;
  current_callback_time = none;
  current_callback_period = 0;
  previous_time = none;
  last_execution_time = 0;
  mutex = free;
  triggered = [];
  executed = [];
}

abbrev given : Handler types
given = record new_handler {
  async_function = some "update";
  trigger_predicate = some 1;
  params = params;
  thread_priority = pos 50;
  pause_thread = true;
}

abbrev running : Handler types
running = record given { joinable = true }

abbrev before : Kept
before = record { scheduler = (0, pos 0); cores = 0 ∷ 1 ∷ 2 ∷ 3 ∷ []; name = [] }

set_up_test : (set_up threads running before).0 ≡ record {
  scheduler = (sched_fifo, pos 50);
  cores = 2 ∷ 1 ∷ [];
  name = codes "gripper_control";
}
unfolding set_up pin rename configure_sched_fifo set_current_thread_affinity set_thread_affinity
    requested set_cores set_current_thread_name
set_up_test = refl

-- The policy is unknown and the priority too high.
abbrev odd_params : Params ℕ ℕ
odd_params = record params { scheduling_policy = unknown; thread_priority = pos 100 }

odd_params_test :
    (validate odd_params ≡ returns false)
    × (init_params (some "update") odd_params new_handler
        ≡ done tt (record given { params = odd_params; thread_priority = pos 100 }))
unfolding init_params validate
odd_params_test = (refl, refl)

abbrev clocks : Clocks types
clocks = record { elapsed = λ a b. a - b; back = λ n t. t - n }

params_accepted : init_params (some "update") params new_handler ≡ done tt given
unfolding init_params validate cores_valid
params_accepted = refl

given_started : start_thread 0 0 given ≡ done tt running
unfolding start_thread is_initialized reset_variables
given_started = refl

aborts_iff_example :
    (loop_of {k = types} detached ≡ execute_detached_callback WorkerPc.starting)
    × (MayAbort clocks exact 0 0 running ↔ ((params.clock ≡ none) ⊎ (params.exec_rate ≡ 0)))
aborts_iff_example =
    aborts_iff clocks exact 0 0 (some "update") params new_handler given running 9
      (record { unlocked = refl; not_timed = refl }) refl params_accepted given_started
