-- ===== src/Async/Handler.antt =====
-- `AsyncFunctionHandler` of async_function_handler.hpp: its fields, and the methods that run to
-- their end with no other thread in between. What is logged is left out.
pub mod Setup
use portage_realtime_tools_e.Base.{
  ℕ, ◌/◌, ◌==◌, Bool, true, false, not, ◌&&◌, Option, none, some, List, if◌then◌else◌, is_some, ℤ,
}
use portage_realtime_tools_e.Async.Params.{Params, Outcome, returns, throws, validate, Error}

-- The types that the class is over: `T`, and those of other libraries. `Callback` and `Predicate`
-- are the two kinds of `std::function`.
pub record Types : Type 1 where
  pub Return : Type 0
  pub Time : Type 0
  pub Duration : Type 0
  pub Callback : Type 0
  pub Predicate : Type 0
  pub Clock : Type 0
  pub Exception : Type 0

-- Who holds `async_mtx_`.
pub data Mutex : Type 0 where
  free : Mutex
  by_worker : Mutex
  by_client : ℕ → Mutex

-- The fields. An unset function, exception or time is `none`; `thread_` is the mark of whether it
-- is joinable. `triggered` and `executed` record, newest first, the cycles that
-- `trigger_async_callback` has set off and those for which the callback was called.
pub record Handler (k : Types) : Type 0 where
  pub async_function : Option k.Callback
  pub trigger_predicate : Option k.Predicate
  pub params : Params k.Clock k.Predicate
  pub thread_priority : ℤ
  pub joinable : Bool
  pub stop_async_callback : Bool
  pub trigger_in_progress : Bool
  pub pause_thread : Bool
  pub async_callback_return : k.Return
  pub async_exception : Option k.Exception
  pub current_callback_time : Option k.Time
  pub current_callback_period : k.Duration
  pub previous_time : Option k.Time
  pub last_execution_time : ℕ
  pub mutex : Mutex
  pub triggered : List (Option k.Time × k.Duration)
  pub executed : List (Option k.Time × k.Duration)

-- What a method throws, by its text; `fault` is a division by zero or a null dereference.
pub data Failure (Exception : Type 0) : Type 0 where
  invalid_function invalid_predicate already_running not_initialized not_running : Failure Exception
  invalid_params : Error → Failure Exception
  rethrown : Exception → Failure Exception
  fault : Failure Exception

-- The handler that a method leaves, with its result or with what it throws.
pub data Done (k : Types) (A : Type 0) : Type 0 where
  done : A → Handler k → Done k A
  thrown : Failure k.Exception → Handler k → Done k A

infixl 5 ◌>>=◌
abbrev pub ◌>>=◌ : {k : Types} {A B : Type 0} → Done k A → (A → Handler k → Done k B) → Done k B
done a h >>= f = f a h
thrown e h >>= f = thrown e h

module _ {k : Types} where
  -- `init` with a callback and a priority
  unfoldable pub init : Option k.Callback → ℤ → Handler k → Done k (Unit {0})
  init callback priority h =
      if not (is_some callback)
      then thrown invalid_function h
      else if h.joinable
      then thrown already_running h
      else done tt (record h { async_function = callback; thread_priority = priority })

  -- `init` with a trigger predicate
  unfoldable pub init_predicate :
      Option k.Callback → Option k.Predicate → ℤ → Handler k → Done k (Unit {0})
  unfolding init
  init_predicate callback predicate priority h =
      if not (is_some predicate)
      then thrown invalid_predicate h
      else (init callback priority h >>= λ _ h'.
          done tt (record h' { trigger_predicate = predicate }))

  -- The value that `validate` returns is not used; only what it throws ends the call.
  abbrev validated : Outcome Bool → Handler k → Done k (Unit {0})
  validated (returns valid) h = done tt h
  validated (throws e) h = thrown (invalid_params e) h

  -- `init` with all the parameters
  unfoldable pub init_params :
      Option k.Callback → Params k.Clock k.Predicate → Handler k → Done k (Unit {0})
  unfolding init_predicate
  init_params callback p h =
      validated (validate p) h
      >>= (λ _ h'. init_predicate callback p.trigger_predicate p.thread_priority h')
      >>= λ _ h'. done tt (record h' { params = p; pause_thread = p.wait_until_initial_trigger })

  unfoldable pub is_initialized : Handler k → Bool
  is_initialized h = is_some h.async_function && is_some h.trigger_predicate

  -- `new_return` is `T()`, and `zero` the duration `(0, 0)`.
  unfoldable pub reset_variables : k.Return → k.Duration → Handler k → Handler k
  reset_variables new_return zero h = record h {
    stop_async_callback = false;
    trigger_in_progress = false;
    current_callback_time = none;
    current_callback_period = zero;
    last_execution_time = 0;
    async_callback_return = new_return;
    async_exception = none;
  }

  -- What the worker thread does is modelled in `Start`, `Synchronized` and `Detached`.
  unfoldable pub start_thread : k.Return → k.Duration → Handler k → Done k (Unit {0})
  unfolding is_initialized reset_variables
  start_thread new_return zero h =
      if not (is_initialized h)
      then thrown not_initialized h
      else if h.joinable
      then done tt h
      else done tt (record (reset_variables new_return zero h) { joinable = true })

  -- The checks at the start of `trigger_async_callback`.
  abbrev pub check_exception : Option k.Exception → Handler k → Done k (Unit {0})
  check_exception none h = done tt h
  check_exception (some e) h = thrown (rethrown e) h

  unfoldable pub trigger_checks : Handler k → Done k (Unit {0})
  unfolding is_initialized
  trigger_checks h =
      if not (is_initialized h)
      then thrown not_initialized h
      else check_exception h.async_exception h

  abbrev resume_at : Option k.Clock → (k.Clock → k.Time) → Handler k → Done k (Unit {0})
  resume_at none start h = thrown fault h
  resume_at (some c) start h = done tt (record h { previous_time = some (start c) })

  -- The part for the detached policy. `back_by n c` is the time of the clock `c`, less `n`
  -- nanoseconds. The division comes before the clock is read.
  unfoldable pub trigger_detached :
      k.Return → (ℕ → k.Clock → k.Time) → Handler k → Done k (Bool × k.Return)
  trigger_detached new_return back_by h =
      (if h.pause_thread
        then (if h.params.exec_rate == 0
            then thrown fault
                (record h { pause_thread = false; async_callback_return = new_return })
            else resume_at h.params.clock (back_by (1_000_000_000 / h.params.exec_rate))
                (record h { pause_thread = false; async_callback_return = new_return }))
        else done tt h)
      >>= λ _ h'. done (true, h'.async_callback_return) h'

  -- `trigger_async_callback` with the detached policy
  unfoldable pub trigger_when_detached :
      k.Return → (ℕ → k.Clock → k.Time) → Handler k → Done k (Bool × k.Return)
  unfolding trigger_checks trigger_detached
  trigger_when_detached new_return back_by h =
      trigger_checks h >>= λ _ h'. trigger_detached new_return back_by h'
