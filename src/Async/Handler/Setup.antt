-- ===== src/Async/Handler/Setup.antt =====
-- What `init` accepts, and what the accepted parameters lead to.
use portage_realtime_tools_e.Base.{
  ℕ, ◌/◌, ◌≡◌, refl, ◌≢◌, ◌⊎◌, Bool, true, false, Option, none, some, arith, inl, inr, Bool-cases,
  Option-cases,
}
use portage_realtime_tools_e.Async.Policy.{detached}
use portage_realtime_tools_e.Async.Params.{Params, Outcome, Error, returns, throws, validate}
use portage_realtime_tools_e.Async.Params.Validity.{IsValid}
use portage_realtime_tools_e.Async.Handler.{
  Types, Handler, done, thrown, Failure, fault, already_running, invalid_function,
  invalid_predicate, invalid_params, init_params, trigger_when_detached,
}

Outcome-cases : (o : Outcome Bool) → ((e : Error) × (o ≡ throws e)) ⊎ ((b : Bool) × (o ≡ returns b))
Outcome-cases (returns b) = inr (b, refl)
Outcome-cases (throws e) = inl (e, refl)

module _ {k : Types} where
  -- `init` with parameters either throws and leaves the handler as it was, or the callback and the
  -- predicate are set, no thread ran, `validate` did not throw, and exactly the five members that
  -- it assigns are changed: then the handler is initialized.
  pub init_params_cases :
      (callback : Option k.Callback) (p : Params k.Clock k.Predicate) (h : Handler k)
      → ((e : Failure k.Exception) × (init_params callback p h ≡ thrown e h))
        ⊎ ((init_params callback p h
              ≡ done tt (record h {
                async_function = callback;
                trigger_predicate = p.trigger_predicate;
                params = p;
                thread_priority = p.thread_priority;
                pause_thread = p.wait_until_initial_trigger;
              }))
            × (callback ≢ none)
            × (p.trigger_predicate ≢ none)
            × (h.joinable ≡ false)
            × ((valid : Bool) × (validate p ≡ returns valid)))
  unfolding init_params
  init_params_cases callback p h = elim (Outcome-cases (validate p)) [
    | inl (e, v) ↦ inl (invalid_params e, ground arith)
    | inr (valid, v) ↦ elim (Option-cases p.trigger_predicate) [
      | inl q ↦ inl (invalid_predicate, ground arith)
      | inr (q, eq) ↦ elim (Option-cases callback) [
        | inl f ↦ inl (invalid_function, ground arith)
        | inr (f, ef) ↦ elim (Bool-cases h.joinable) [
          | inl j ↦ inl (already_running, ground arith)
          | inr j ↦ inr (ground arith, ground arith, ground arith, j, (valid, v))
        ]
      ]
    ]
  ]

  -- The value that `validate` returns makes no difference to `init`: parameters that it reports as invalid are taken,
  -- as long as there is a predicate.
  init_params-invalid :
      (f : k.Callback) (q : k.Predicate) (p : Params k.Clock k.Predicate) (h : Handler k)
      → validate p ≡ returns false
      → p.trigger_predicate ≡ some q
      → h.joinable ≡ false
      → init_params (some f) p h
        ≡ done tt (record h {
          async_function = some f;
          trigger_predicate = some q;
          params = p;
          thread_priority = p.thread_priority;
          pause_thread = p.wait_until_initial_trigger;
        })
  unfolding init_params
  init_params-invalid f q p h v e j = ground arith

  module _ (new_return : k.Return) (back_by : ℕ → k.Clock → k.Time) where
    -- A detached handler with the rate 0 divides by zero on its first trigger, although `init`
    -- accepted its parameters.
    rate_zero_faults :
        (f : k.Callback) (p : Params k.Clock k.Predicate) (h h' : Handler k)
        → h.async_exception ≡ none
        → p.scheduling_policy ≡ detached
        → p.exec_rate ≡ 0
        → p.wait_until_initial_trigger ≡ true
        → init_params (some f) p h ≡ done tt h'
        → trigger_when_detached new_return back_by h'
          ≡ thrown fault (record h' { pause_thread = false; async_callback_return = new_return })
    unfolding init_params trigger_when_detached
    rate_zero_faults f p h h' ne d z w i = ground arith

    -- With parameters that meet the documented conditions the first trigger of a detached handler
    -- that waits for it resumes the thread: it returns true with a new value, and the last cycle is
    -- taken to lie one period back.
    first_trigger_resumes :
        (f : k.Callback) (p : Params k.Clock k.Predicate) (h h' : Handler k) (c : k.Clock)
        → IsValid p
        → h.async_exception ≡ none
        → p.scheduling_policy ≡ detached
        → p.clock ≡ some c
        → p.wait_until_initial_trigger ≡ true
        → init_params (some f) p h ≡ done tt h'
        → trigger_when_detached new_return back_by h'
          ≡ done
              (true, new_return)
              (record h' {
                pause_thread = false;
                async_callback_return = new_return;
                previous_time = some (back_by (1_000_000_000 / p.exec_rate) c);
              })
    unfolding init_params trigger_when_detached
    first_trigger_resumes f p h h' c v ne d cl w i = ground arith
