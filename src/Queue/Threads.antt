-- ===== src/Queue/Threads.antt =====
-- lock_free_queue.hpp with boost::lockfree::queue, the container for many producers and consumers:
-- push, bounded_push, pop and get_latest of any threads. boost documents its methods as safe for any
-- number of threads; that a call of one takes effect at once is assumed here, a call being a step.
-- boost::lockfree::spsc_queue is left out, since it is not for such threads. `consume_all` pops until
-- there is nothing more. `added` and `removed` record the elements, the oldest first.
pub mod Conserved
mod Examples
use portage_realtime_tools_e.Base.{
  ℕ, ◌≡◌, Bool, true, false, Option, none, some, List, [], ◌∷◌, ◌++◌, update,
}
use portage_realtime_tools_e.Queue.{Container, LockFreeQueue, push}
use portage_realtime_tools_e.Queue.Traits.{is_spsc_queue}

-- What a call has given.
pub data Result (T : Type 0) : Type 0 where
  pushed : Bool → Result T
  got : Option T → Result T

pub data Pc (T : Type 0) : Type 0 where
  idle : Pc T
  pushing : T → Pc T
  -- `bounded_push`
  first_pushing : T → Pc T
  making_room : T → Pc T  -- before the `pop` into a `dummy`
  second_pushing : T → Pc T
  popping : Pc T
  consuming : Option T → Pc T  -- `get_latest`, with the last element so far
  returning : Result T → Pc T

pub data Call (T : Type 0) : Type 0 where
  calls_push calls_bounded_push : T → Call T
  calls_pop calls_get_latest : Call T

pub record Shared (T : Type 0) (Q : Type 0) : Type 0 where
  pub queue : LockFreeQueue Q
  pub added : List T
  pub removed : List T

module _ {T : Type 0} where
  unfoldable pub enter : Call T → Pc T
  enter (calls_push x) = pushing x
  enter (calls_bounded_push x) = first_pushing x
  enter calls_pop = popping
  enter calls_get_latest = consuming none

  module _ (c : Container T) where
    abbrev added_if : Bool → T → LockFreeQueue c.Queue → Shared T c.Queue → Shared T c.Queue
    added_if true x q s = record s { queue = q; added = s.added ++ x ∷ [] }
    added_if false x q s = record s { queue = q }

    abbrev removed_if : Option T → c.Queue → Shared T c.Queue → Shared T c.Queue
    removed_if none d s = record s { queue = record s.queue { data_queue = d } }
    removed_if (some x) d s = record s {
      queue = record s.queue { data_queue = d };
      removed = s.removed ++ x ∷ [];
    }

    abbrev pub push_step : T → Shared T c.Queue → Shared T c.Queue × Bool
    push_step x s = let (q, b) = push c x s.queue in (added_if b x q s, b)

    abbrev pub pop_step : Shared T c.Queue → Shared T c.Queue × Option T
    pop_step s = let (d, o) = c.pop s.queue.data_queue in (removed_if o d s, o)

    abbrev after_first : T → Bool → Pc T
    after_first x true = returning (pushed true)
    after_first x false = making_room x

    abbrev after_consumed : Option T → Option T → Pc T
    after_consumed last none = returning (got last)
    after_consumed last (some x) = consuming (some x)

    -- One step of a thread in a call, and where it stands then.
    unfoldable pub thread_step : Pc T → Shared T c.Queue → Shared T c.Queue × Pc T
    thread_step idle s = (s, idle)
    thread_step (pushing x) s = let (t, b) = push_step x s in (t, returning (pushed b))
    thread_step (first_pushing x) s = let (t, b) = push_step x s in (t, after_first x b)
    thread_step (making_room x) s = ((pop_step s).0, second_pushing x)
    thread_step (second_pushing x) s = let (t, b) = push_step x s in (t, returning (pushed b))
    thread_step popping s = let (t, o) = pop_step s in (t, returning (got o))
    thread_step (consuming last) s = let (t, o) = pop_step s in (t, after_consumed last o)
    thread_step (returning r) s = (s, idle)

pub record System (T : Type 0) (Q : Type 0) : Type 0 where
  pub shared : Shared T Q
  pub threads : ℕ → Pc T

-- One step of some thread. Threads only call a queue whose container is for many of them.
pub data Step {T : Type 0} (c : Container T) (s : System T c.Queue)
    : System T c.Queue → Type 0 where
  begins :
      (i : ℕ) (k : Call T)
      → s.threads i ≡ idle
      → is_spsc_queue c.kind ≡ false
      → Step c s (record s { threads = update s.threads i (enter k) })
  runs :
      (i : ℕ)
      → Step c s (record {
        shared = (thread_step c (s.threads i) s.shared).0;
        threads = update s.threads i (thread_step c (s.threads i) s.shared).1;
      })

-- No thread in a call.
abbrev pub initial : {T Q : Type 0} → LockFreeQueue Q → System T Q
initial q = record { shared = record { queue = q; added = []; removed = [] }; threads = λ i. idle }

pub data Reach {T : Type 0} (c : Container T) (s : System T c.Queue)
    : System T c.Queue → Type 0 where
  here : Reach c s s
  next : {t u : System T c.Queue} → Reach c s t → Step c t u → Reach c s u
