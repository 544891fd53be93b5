-- ===== src/Async/Examples.antt =====
-- The handler at concrete types: reachable states by evaluation, and the theorems at them.
use Prim.Native.String.{String}
use portage_realtime_tools_e.Base.{
  ℕ, ◌-◌, ◌≡◌, refl, true, false, none, some, [], ◌∷◌, arith, pos, ◌%◌, ◌^◌, cast_int, ◌<◌, ◌+◌,
}
use portage_realtime_tools_e.Async.Policy.{detached, unknown, to_string, of_string}
use portage_realtime_tools_e.Async.Params.{
  Params, default_params, returns, throws, validate, cores_valid, unknown_policy, Node, read,
  initialize, read_priority, read_cores, read_policy, read_rate, read_wait, read_warnings,
  read_name,
}
use portage_realtime_tools_e.Async.Params.Validity.{IsValid, validate_iff}
use portage_realtime_tools_e.Async.Params.Initialize.{
  Declares, initialize-exec_rate, initialize-Declares,
}
use portage_realtime_tools_e.Async.Handler.{
  trigger_when_detached, fault, Types, Handler, free, done, thrown, init_params,
}

-- Two parameter sets: the rate of the second is missing.
abbrev good_params : Params ℕ ℕ
good_params = record (default_params 1) {
  scheduling_policy = detached;
  exec_rate = 100;
  clock = some 5_000_000_000;
  cpu_affinity_cores = pos 0 ∷ pos 3 ∷ [];
}

abbrev no_rate : Params ℕ ℕ
no_rate = record good_params { exec_rate = 0 }

abbrev no_policy : Params ℕ ℕ
no_policy = record good_params { scheduling_policy = unknown }

validate_test :
    (validate good_params ≡ returns true)
    × (validate no_rate ≡ returns false)
    × (validate no_policy ≡ throws unknown_policy)
unfolding validate cores_valid
validate_test = (refl, refl, refl)

good_params-IsValid : IsValid good_params
unfolding validate cores_valid
good_params-IsValid = (validate_iff good_params).0 refl

validate_iff_example : validate good_params ≡ returns true
validate_iff_example = (validate_iff good_params).1 good_params-IsValid

-- A node with every parameter, none under a prefix; the rate is 2 ^ 32 + 7.
abbrev node_of : ℕ → Node
node_of rate = record {
  has_parameter = λ name. true;
  as_int = λ name. some (pos rate);
  as_integer_array = λ name. some (pos 0 ∷ pos 3 ∷ []);
  as_string = λ name. some "detached";
  as_bool = λ name. some true;
}

abbrev read_back : ℕ → Params ℕ ℕ
read_back rate = record (default_params 1) {
  thread_priority = cast_int (pos rate);
  cpu_affinity_cores = pos 0 ∷ pos 3 ∷ [];
  scheduling_policy = detached;
  exec_rate = rate % 2 ^ 32;
  thread_name = "detached";
}

initialize-exec_rate_example : ((read_back (2 ^ 32 + 7)).exec_rate ≡ 7) × (0 < 7) × (7 < 2 ^ 31)
unfolding initialize read_priority read_cores read_policy read_rate read_wait read_warnings
    read_name of_string cast_int
initialize-exec_rate_example =
    initialize-exec_rate (node_of (2 ^ 32 + 7)) "" (default_params 1) (read_back (2 ^ 32 + 7))
      (2 ^ 32 + 7) refl refl refl refl

abbrev declared : Params ℕ ℕ
declared = record (read_back 60) { exec_rate = 60; thread_priority = pos 60 }

node-Declares : Declares (node_of 60) "" declared
unfolding to_string
node-Declares = record {
  has = λ name. refl;
  priority = refl;
  cores = refl;
  policy = refl;
  rate = refl;
  wait = refl;
  warnings = refl;
  name = refl;
}

initialize-Declares_example : initialize (node_of 60) "" (default_params 1) ≡ read declared
initialize-Declares_example =
    initialize-Declares (node_of 60) "" declared node-Declares (default_params 1) (omega arith)
      (omega arith) (omega arith) (omega arith)

abbrev types : Types
types = record {
  Return = ℕ;
  Time = ℕ;
  Duration = ℕ;
  Callback = String;
  Predicate = ℕ;
  Clock = ℕ;
  Exception = String;
}

-- A handler as the default constructor leaves it.
abbrev new_handler : Handler types
new_handler = record {
  async_function = none;
  trigger_predicate = some 0;
  params = default_params 0;
  thread_priority = pos 0;
  joinable = false;
  stop_async_callback = false;
  trigger_in_progress = false;
  pause_thread = false;
  async_callback_return = 0;
  async_exception = none;
  current_callback_time = none;
  current_callback_period = 0;
  previous_time = none;
  last_execution_time = 0;
  mutex = free;
  triggered = [];
  executed = [];
}

abbrev with_params : Params ℕ ℕ → Handler types
with_params p = record new_handler {
  async_function = some "update";
  trigger_predicate = some 1;
  params = p;
  thread_priority = pos 50;
  pause_thread = true;
}

abbrev back_by : ℕ → ℕ → ℕ
back_by n clock = clock - n

no_rate_init : init_params (some "update") no_rate new_handler ≡ done tt (with_params no_rate)
unfolding init_params validate cores_valid
no_rate_init = refl

-- The first trigger divides by zero.
no_rate_test :
    trigger_when_detached 0 back_by (with_params no_rate)
    ≡ thrown fault (record (with_params no_rate) { pause_thread = false })
unfolding trigger_when_detached
no_rate_test = refl

good_init : init_params (some "update") good_params new_handler ≡ done tt (with_params good_params)
unfolding init_params validate cores_valid
good_init = refl
