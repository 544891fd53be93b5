-- ===== src/Async/Start/Abort.antt =====
-- Which accepted parameters end the program: an exception that leaves the worker's function.
use portage_realtime_tools_e.Base.{
  ◌≡◌, refl, ◌⊎◌, inl, inr, ◌↔◌, true, not, ◌||◌, Option, none, ◌==◌, arith, is_some, Bool-cases,
  Option-cases,
}
use portage_realtime_tools_e.Async.Policy.{detached}
use portage_realtime_tools_e.Async.Params.{Params}
use portage_realtime_tools_e.Async.Handler.{
  Types, Handler, free, done, init_params, start_thread, is_initialized, reset_variables,
}
use portage_realtime_tools_e.Async.Handler.Setup.{init_params_cases}
use portage_realtime_tools_e.Async.Detached.{
  WorkerPc, value, Clocks, worker_step, System, worker_runs, started, Reach, here, next,
}
use portage_realtime_tools_e.Async.Detached.Schedule.{Doubles}
use portage_realtime_tools_e.Async.Detached.Cycles.{measured_periods}
use portage_realtime_tools_e.Async.Start.{execute_detached_callback, loop_of}

module _ {k : Types} (clocks : Clocks k) (d : Doubles) (new_return : k.Return)
    (zero_duration : k.Duration) where
  -- A handler that was never started before.
  pub record IsNew (h : Handler k) : Type 0 where
    pub unlocked : h.mutex ≡ free
    pub not_timed : h.previous_time ≡ none

  -- Some state in which the worker has let an exception out of its function.
  abbrev pub MayAbort : Handler k → Type 0
  MayAbort h =
      (s : System k) × Reach d clocks new_return zero_duration (started h) s
      × (s.worker ≡ WorkerPc.aborted)

  faulty-MayAbort :
      (h : Handler k) (now : k.Time)
      → not (is_some h.params.clock) || h.params.exec_rate == 0 ≡ true
      → MayAbort h
  unfolding worker_step
  faulty-MayAbort h now e = (
    _,
    next here (
        worker_runs (value new_return) now 0 0 {t = (started h).shared} {p = WorkerPc.aborted}
          (ground arith) (λ x. x)),
    refl,
  )

  -- The parameters and the members on which the worker relies are there when it is started.
  started-members :
      (callback : Option k.Callback) (p : Params k.Clock k.Predicate) (h h1 h2 : Handler k)
      → IsNew h
      → init_params callback p h ≡ done tt h1
      → start_thread new_return zero_duration h1 ≡ done tt h2
      → (h2.params ≡ p) × (h2.mutex ≡ free) × (h2.previous_time ≡ none)
  unfolding start_thread reset_variables is_initialized
  started-members callback p h h1 h2 n i st = elim (init_params_cases callback p h) [
    | inl (e, f) ↦ absurd (ground arith)
    | inr (f, _, _, j, _) ↦ (ground arith, ground arith, ground arith)
  ]

  aborted-faulty :
      (h : Handler k)
      → h.mutex ≡ free
      → h.previous_time ≡ none
      → MayAbort h
      → (h.params.clock ≡ none) ⊎ (h.params.exec_rate ≡ 0)
  aborted-faulty h m t (s, r, a) = elim (Option-cases h.params.clock) [
    | inl e ↦ inl e
    | inr (c, e) ↦ elim (Bool-cases (h.params.exec_rate == 0)) [
      | inl z ↦ inr (ground arith)
      | inr z ↦ absurd (
          (measured_periods clocks d new_return zero_duration h s
              (record { unlocked = m; rated = ground arith; clocked = ground arith; not_timed = t })
              r 0).2
            a)
    ]
  ]

  -- With parameters that `init` has accepted, and that name the detached policy, the thread that
  -- `start_thread` starts enters the detached loop, and it can end the program by an exception
  -- exactly if there is no clock or the rate is 0.
  pub aborts_iff :
      (callback : Option k.Callback) (p : Params k.Clock k.Predicate) (h h1 h2 : Handler k)
      (now : k.Time)
      → IsNew h
      → p.scheduling_policy ≡ detached
      → init_params callback p h ≡ done tt h1
      → start_thread new_return zero_duration h1 ≡ done tt h2
      → (loop_of {k = k} h2.params.scheduling_policy ≡ execute_detached_callback WorkerPc.starting)
        × (MayAbort h2 ↔ ((p.clock ≡ none) ⊎ (p.exec_rate ≡ 0)))
  unfolding loop_of
  aborts_iff callback p h h1 h2 now n s i st =
      let (e, m, t) = started-members callback p h h1 h2 n i st in
      (
        ground arith,
        (λ a. ground (arith, aborted-faulty h2 m t a), λ c. faulty-MayAbort h2 now (ground arith)),
      )
