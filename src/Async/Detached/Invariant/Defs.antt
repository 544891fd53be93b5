-- ===== src/Async/Detached/Invariant/Defs.antt =====
-- Who holds `async_mtx_`, and what the recorded marks have to do with `previous_time_`.
use portage_realtime_tools_e.Base.{
  ℕ, ◌≡◌, refl, ◌≢◌, Bool, true, false, Option, none, some, List, [], ◌∷◌, is_some,
}
use portage_realtime_tools_e.Async.Handler.{Types, Handler, free, by_worker, by_client}
use portage_realtime_tools_e.Async.Detached.{
  WorkerPc, ClientPc, Shared, Clocks, Mark, begins, resumes, calls, started,
}

-- The threads that are in a critical section of `async_mtx_`.
abbrev pub worker_holds : {k : Types} → WorkerPc k → Bool
worker_holds WorkerPc.first_testing = true
worker_holds WorkerPc.first_testing_stop = true
worker_holds WorkerPc.first_blocking = true
worker_holds WorkerPc.first_releasing = true
worker_holds (WorkerPc.testing _) = true
worker_holds (WorkerPc.testing_stop _) = true
worker_holds (WorkerPc.blocking _) = true
worker_holds (WorkerPc.deciding _) = true
worker_holds (WorkerPc.measuring _) = true
worker_holds (WorkerPc.calling _ _ _) = true
worker_holds (WorkerPc.returned _ _) = true
worker_holds (WorkerPc.raised _ _) = true
worker_holds (WorkerPc.timing _) = true
worker_holds (WorkerPc.scheduling _) = true
worker_holds (WorkerPc.sleeping _) = true
worker_holds (WorkerPc.clearing _) = true
worker_holds (WorkerPc.releasing _) = true
worker_holds _ = false

abbrev pub client_holds : {k : Types} → ClientPc k → Bool
client_holds ClientPc.resume_clearing = true
client_holds ClientPc.resume_setting = true
client_holds ClientPc.resume_timing = true
client_holds ClientPc.resume_unlocking = true
client_holds ClientPc.stop_unlocking = true
client_holds ClientPc.wait_testing = true
client_holds ClientPc.wait_blocking = true
client_holds ClientPc.wait_unlocking = true
client_holds ClientPc.pause_unlocking = true
client_holds ClientPc.resetting = true
client_holds ClientPc.reset_unlocking = true
client_holds _ = false

-- The loop has begun, so that there is an earlier time.
abbrev pub has_begun : {k : Types} → WorkerPc k → Bool
has_begun WorkerPc.starting = false
has_begun WorkerPc.aborted = false
has_begun WorkerPc.pause_testing = false
has_begun WorkerPc.first_locking = false
has_begun WorkerPc.first_testing = false
has_begun WorkerPc.first_testing_stop = false
has_begun WorkerPc.first_blocking = false
has_begun WorkerPc.first_waiting = false
has_begun WorkerPc.first_woken = false
has_begun WorkerPc.first_releasing = false
has_begun WorkerPc.beginning = false
has_begun _ = true

module _ {k : Types} where
  -- The time of the newest mark.
  abbrev pub newest : List (Mark k) → Option k.Time
  newest [] = none
  newest (begins t ∷ ms) = some t
  newest (resumes t ∷ ms) = some t
  newest (calls t e ∷ ms) = some t

  abbrev pub calls_of : List (Mark k) → List (k.Time × k.Duration)
  calls_of [] = []
  calls_of (begins t ∷ ms) = calls_of ms
  calls_of (resumes t ∷ ms) = calls_of ms
  calls_of (calls t e ∷ ms) = (t, e) ∷ calls_of ms

  -- The cycle that is measured, and whose callback is about to be called, with the earlier ones.
  abbrev pub with_pending : WorkerPc k → List (k.Time × k.Duration) → List (k.Time × k.Duration)
  with_pending (WorkerPc.calling n t e) cs = (t, e) ∷ cs
  with_pending _ cs = cs

  -- A handler that `start_thread` has started, with valid parameters.
  pub record IsFresh (h : Handler k) : Type 0 where
    pub unlocked : h.mutex ≡ free
    pub rated : h.params.exec_rate ≢ 0
    pub clocked : is_some h.params.clock ≡ true
    pub not_timed : h.previous_time ≡ none

  module _ (clocks : Clocks k) where
    -- The period of each call is what elapsed since the mark before it.
    abbrev pub Measured : List (Mark k) → Type 0
    Measured [] = Unit
    Measured (begins t ∷ ms) = Measured ms
    Measured (resumes t ∷ ms) = Measured ms
    Measured (calls t e ∷ ms) =
        ((p : k.Time) × (newest ms ≡ some p) × (e ≡ clocks.elapsed t p)) × Measured ms

    pub record Inv (s : Shared k) (p : WorkerPc k) (cs : ℕ → ClientPc k) : Type 0 where
      pub rated : s.handler.params.exec_rate ≢ 0
      pub clocked : is_some s.handler.params.clock ≡ true
      pub worker_owns : worker_holds p ≡ true → s.handler.mutex ≡ by_worker
      pub client_owns : (i : ℕ) → client_holds (cs i) ≡ true → s.handler.mutex ≡ by_client i
      pub previous : s.handler.previous_time ≡ newest s.marks
      pub begun : has_begun p ≡ true → is_some (newest s.marks) ≡ true
      pub measured : Measured s.marks
      pub recorded : calls_of s.marks ≡ with_pending p s.called
      pub alive : p ≢ WorkerPc.aborted
      pub unfaulted : (i : ℕ) → cs i ≢ ClientPc.faulted

    pub started-Inv :
        (h : Handler k) → IsFresh h → let s = started h in Inv s.shared s.worker s.clients
    started-Inv h f = record {
      rated = f.rated;
      clocked = f.clocked;
      worker_owns = λ w. cc;
      client_owns = λ i w. cc;
      previous = f.not_timed;
      begun = λ w. cc;
      measured = tt;
      recorded = refl;
      alive = λ e. cc;
      unfaulted = λ i e. cc;
    }
