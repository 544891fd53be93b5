-- ===== src/Async/Params.antt =====
-- `AsyncFunctionHandlerParams` of async_function_handler.hpp: `validate` and `initialize`. The node
-- whose parameters are read is the parameter `Node`; what is logged is left out.
pub mod Validity
pub mod Initialize
use Prim.Native.String.{String, ◌++◌}
use portage_realtime_tools_e.Base.{
  ℕ, Bool, true, false, not, ◌&&◌, ◌||◌, Option, none, some, List, [], ◌∷◌, ◌==◌, if◌then◌else◌, ℤ,
  pos, ltb_ℤ, cast_int, pos_part, map,
}
use portage_realtime_tools_e.Base
use portage_realtime_tools_e.Async.Policy.{Policy, unknown, synchronized, detached, of_string, eq}

-- The errors that are thrown, one for each text, and that of the node's library.
pub data Error : Type 0 where
  unknown_policy nonpositive_rate wrong_parameter_type : Error

-- `Clock` and `Predicate` stand for what the two pointers lead to; a null pointer is `none`.
pub record Params (Clock Predicate : Type 0) : Type 0 where
  pub thread_priority : ℤ
  pub cpu_affinity_cores : List ℤ
  pub scheduling_policy : Policy
  pub exec_rate : ℕ
  pub clock : Option Clock
  pub trigger_predicate : Option Predicate
  pub wait_until_initial_trigger : Bool
  pub print_warnings : Bool
  pub thread_name : String

-- The default member values; `always` is the predicate that returns true.
abbrev pub default_params : {C P : Type 0} → P → Params C P
default_params always = record {
  thread_priority = pos 50;
  cpu_affinity_cores = [];
  scheduling_policy = synchronized;
  exec_rate = 0;
  clock = none;
  trigger_predicate = some always;
  wait_until_initial_trigger = true;
  print_warnings = true;
  thread_name = "";
}

-- What a function returns, or what it throws.
pub data Outcome (A : Type 0) : Type 0 where
  returns : A → Outcome A
  throws : Error → Outcome A

-- The loop over the cores: the first negative one ends it.
unfoldable pub cores_valid : List ℤ → Bool
cores_valid [] = true
cores_valid (core ∷ cores) = if ltb_ℤ core (pos 0) then false else cores_valid cores

module _ {C P : Type 0} where
  unfoldable pub validate : Params C P → Outcome Bool
  validate p =
      if ltb_ℤ p.thread_priority (pos 0) || ltb_ℤ (pos 99) p.thread_priority
      then returns false
      else if eq p.scheduling_policy detached && not (Base.is_some p.clock)
      then returns false
      else if eq p.scheduling_policy detached && p.exec_rate == 0
      then returns false
      else if eq p.scheduling_policy unknown
      then throws unknown_policy
      else if not (Base.is_some p.trigger_predicate)
      then returns false
      else returns (cores_valid p.cpu_affinity_cores)

-- The node: which parameters it has, and each as the type asked for, `none` if that throws.
pub record Node : Type 0 where
  pub has_parameter : String → Bool
  pub as_int : String → Option ℤ
  pub as_integer_array : String → Option (List ℤ)
  pub as_string : String → Option String
  pub as_bool : String → Option Bool

-- The parameters so far, and the exception if one was thrown.
pub data Reading (A : Type 0) : Type 0 where
  read : A → Reading A
  failed : Error → A → Reading A

infixl 5 ◌>>=◌
abbrev pub ◌>>=◌ : {A : Type 0} → Reading A → (A → Reading A) → Reading A
read a >>= f = f a
failed e a >>= f = failed e a

-- A parameter that the node has is read and stored; one that it does not have is passed over.
abbrev pub store_as : {A V : Type 0} → Option V → (V → A → Reading A) → A → Reading A
store_as none f a = failed wrong_parameter_type a
store_as (some v) f a = f v a

abbrev pub when : {A : Type 0} → Bool → (A → Reading A) → A → Reading A
when test f a = if test then f a else read a

-- The test of `execution_rate` is made on the converted `int`.
abbrev pub store_rate : {C P : Type 0} → ℤ → Params C P → Reading (Params C P)
store_rate rate p =
    if ltb_ℤ (pos 0) (cast_int rate)
    then read (record p { exec_rate = pos_part (cast_int rate) })
    else failed nonpositive_rate p

module _ {C P : Type 0} (node : Node) (prefix : String) where
  unfoldable pub read_priority : Params C P → Reading (Params C P)
  read_priority = when (node.has_parameter (prefix ++ "thread_priority")) (
      store_as (node.as_int (prefix ++ "thread_priority"))
        λ v p. read (record p { thread_priority = cast_int v }))

  unfoldable pub read_cores : Params C P → Reading (Params C P)
  read_cores = when (node.has_parameter (prefix ++ "cpu_affinity")) (
      store_as (node.as_integer_array (prefix ++ "cpu_affinity")) λ v p.
        read (record p { cpu_affinity_cores = Base.◌++◌ p.cpu_affinity_cores (map cast_int v) }))

  unfoldable pub read_policy : Params C P → Reading (Params C P)
  read_policy = when (node.has_parameter (prefix ++ "scheduling_policy")) (
      store_as (node.as_string (prefix ++ "scheduling_policy"))
        λ v p. read (record p { scheduling_policy = of_string v }))

  unfoldable pub read_rate : Params C P → Reading (Params C P)
  read_rate p =
      when (eq p.scheduling_policy detached && node.has_parameter (prefix ++ "execution_rate"))
        (store_as (node.as_int (prefix ++ "execution_rate")) store_rate) p

  unfoldable pub read_wait : Params C P → Reading (Params C P)
  read_wait = when (node.has_parameter (prefix ++ "wait_until_initial_trigger")) (
      store_as (node.as_bool (prefix ++ "wait_until_initial_trigger"))
        λ v p. read (record p { wait_until_initial_trigger = v }))

  unfoldable pub read_warnings : Params C P → Reading (Params C P)
  read_warnings = when (node.has_parameter (prefix ++ "print_warnings")) (
      store_as (node.as_bool (prefix ++ "print_warnings"))
        λ v p. read (record p { print_warnings = v }))

  unfoldable pub read_name : Params C P → Reading (Params C P)
  read_name = when (node.has_parameter (prefix ++ "thread_name")) (
      store_as (node.as_string (prefix ++ "thread_name"))
        λ v p. read (record p { thread_name = v }))

  -- `AsyncFunctionHandlerParams::initialize`
  unfoldable pub initialize : Params C P → Reading (Params C P)
  initialize p =
      read_priority p
      >>= read_cores
      >>= read_policy
      >>= read_rate
      >>= read_wait
      >>= read_warnings
      >>= read_name
