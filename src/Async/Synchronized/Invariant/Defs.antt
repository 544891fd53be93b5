-- ===== src/Async/Synchronized/Invariant/Defs.antt =====
-- Who holds `async_mtx_`, which triggered cycle is not yet executed, and what the threads rely on.
use portage_realtime_tools_e.Base.{ℕ, ◌≡◌, Bool, true, false, Option, none, some, List, [], ◌∷◌}
use portage_realtime_tools_e.Async.Handler.{Types, Handler, free, by_worker, by_client}
use portage_realtime_tools_e.Async.Synchronized.{WorkerPc, ClientPc}

-- The threads that are in a critical section of `async_mtx_`.
abbrev pub worker_holds : {k : Types} → WorkerPc k → Bool
worker_holds WorkerPc.testing = true
worker_holds WorkerPc.testing_stop = true
worker_holds WorkerPc.blocking = true
worker_holds WorkerPc.deciding = true
worker_holds WorkerPc.calling = true
worker_holds (WorkerPc.returned _) = true
worker_holds (WorkerPc.raised _) = true
worker_holds WorkerPc.timing = true
worker_holds WorkerPc.clearing = true
worker_holds WorkerPc.releasing = true
worker_holds _ = false

abbrev pub client_holds : {k : Types} → ClientPc k → Bool
client_holds (ClientPc.checking _ _) = true
client_holds (ClientPc.marking _ _) = true
client_holds (ClientPc.timestamping _ _) = true
client_holds (ClientPc.periodizing _ _) = true
client_holds ClientPc.unlocking = true
client_holds ClientPc.reading_held = true
client_holds (ClientPc.giving_back _) = true
client_holds ClientPc.stop_unlocking = true
client_holds ClientPc.wait_testing = true
client_holds ClientPc.wait_blocking = true
client_holds ClientPc.wait_unlocking = true
client_holds ClientPc.resetting = true
client_holds ClientPc.reset_unlocking = true
client_holds _ = false

-- The newest cycles first: those that were executed are some of those that were triggered, in the
-- same order and each once.
pub data Serves {A : Type 0} : List A → List A → Type 0 where
  none_yet : Serves [] []
  executes : {es ts : List A} (a : A) → Serves es ts → Serves (a ∷ es) (a ∷ ts)
  drops : {es ts : List A} (a : A) → Serves es ts → Serves es (a ∷ ts)

abbrev pub push : {A : Type 0} → Option A → List A → List A
push none ts = ts
push (some a) ts = a ∷ ts

pub Serves-push :
    {A : Type 0} (rest : Option A) (es ts : List A) → Serves es ts → Serves es (push rest ts)
Serves-push none es ts s = s
Serves-push (some a) es ts s = drops a s

-- The time and the period of a cycle.
abbrev pub Cycle : Types → Type 0
Cycle k = Option k.Time × k.Duration

module _ {k : Types} where
  -- A cycle that is in progress, and not being set off or executed, is the one to execute next.
  abbrev pub Pending : Handler k → Option (Cycle k) → Type 0
  Pending h rest =
      h.trigger_in_progress ≡ true
      → rest ≡ some (h.current_callback_time, h.current_callback_period)

  abbrev pub WorkerFact : Handler k → Option (Cycle k) → WorkerPc k → Type 0
  WorkerFact h rest WorkerPc.testing = Pending h rest
  WorkerFact h rest WorkerPc.testing_stop = Pending h rest × (h.trigger_in_progress ≡ false)
  WorkerFact h rest WorkerPc.blocking = Pending h rest × (h.trigger_in_progress ≡ false)
  WorkerFact h rest WorkerPc.deciding =
      Pending h rest × (h.stop_async_callback ≡ false → h.trigger_in_progress ≡ true)
  WorkerFact h rest WorkerPc.calling =
      rest ≡ some (h.current_callback_time, h.current_callback_period)
  WorkerFact h rest (WorkerPc.returned _) = rest ≡ none
  WorkerFact h rest (WorkerPc.raised _) = rest ≡ none
  WorkerFact h rest WorkerPc.timing = rest ≡ none
  WorkerFact h rest WorkerPc.releasing = h.trigger_in_progress ≡ false
  WorkerFact h rest _ = Unit

  abbrev pub ClientFact : Handler k → Option (Cycle k) → ClientPc k → Type 0
  ClientFact h rest (ClientPc.checking _ _) = Pending h rest
  ClientFact h rest (ClientPc.marking _ _) = h.trigger_in_progress ≡ false
  ClientFact h rest (ClientPc.timestamping _ _) = (h.trigger_in_progress ≡ true) × (rest ≡ none)
  ClientFact h rest (ClientPc.periodizing t _) =
      (h.trigger_in_progress ≡ true) × (rest ≡ none) × (h.current_callback_time ≡ some t)
  ClientFact h rest ClientPc.unlocking = Pending h rest
  ClientFact h rest ClientPc.reading_held = Pending h rest
  ClientFact h rest (ClientPc.giving_back _) = Pending h rest
  ClientFact h rest ClientPc.stop_unlocking = Pending h rest
  ClientFact h rest ClientPc.wait_testing = Pending h rest
  ClientFact h rest ClientPc.wait_blocking = Pending h rest × (h.trigger_in_progress ≡ true)
  ClientFact h rest ClientPc.wait_unlocking = Pending h rest
  ClientFact h rest ClientPc.reset_unlocking = Pending h rest
  ClientFact h rest _ = Unit

  -- `rest` is the triggered cycle that is still to be executed, `past` are the others.
  pub record Inv (h : Handler k) (p : WorkerPc k) (cs : ℕ → ClientPc k) (rest : Option (Cycle k))
      (past : List (Cycle k)) : Type 0 where
    pub worker_owns : worker_holds p ≡ true → h.mutex ≡ by_worker
    pub client_owns : (i : ℕ) → client_holds (cs i) ≡ true → h.mutex ≡ by_client i
    pub logs : h.triggered ≡ push rest past
    pub serves : Serves h.executed past
    pub cleared : h.trigger_in_progress ≡ false → rest ≡ none
    pub pending : h.mutex ≡ free → Pending h rest
    pub client_fact : (i : ℕ) → ClientFact h rest (cs i)
    pub worker_fact : WorkerFact h rest p
