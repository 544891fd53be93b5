-- ===== src/Box/Examples.antt =====
-- Runs of two boxes by evaluation, and the theorems at them.
use portage_realtime_tools_e.Base.{
  false, ℕ, ◌+◌, ◌≡◌, refl, Option, none, some, List, [], ◌∷◌, ℕ_discrete,
}
use portage_realtime_tools_e.Box.{
  Pc, Call, calls_set, calls_set_with, calls_try_set, calls_get, assigns, Boxes, System, enter,
  thread_step, initial, begins, runs, Reach, here, next,
}
use portage_realtime_tools_e.Box.Invariant.{change_all}
use portage_realtime_tools_e.Box.Changes.{no_lost_change}
use portage_realtime_tools_e.Box.Locking.{Follows, box_locks_by_mutex}
use portage_realtime_tools_e.Mutex.{lock}
use portage_realtime_tools_e.Mutex.Documented.{errorcheck, free, held}
use portage_realtime_tools_e.Mutex.Lock.{locks, done, waits, performed}
use portage_realtime_tools_e.Mutex.States.{states, states_documented}
use portage_realtime_tools_e.Box.Deadlock.{Deadlocked, assignments_deadlock}

-- Which thread runs next.
data Turns : Type 0 where
  begin : ℕ → Call ℕ → Turns
  run : ℕ → Turns

abbrev first : ℕ → ℕ
first b = b

record Run : Type 0 where
  last : System ℕ
  reach : Reach (initial first) last

idle? : (p : Pc ℕ) → Option (p ≡ Pc.idle)
idle? Pc.idle = some refl
idle? _ = none

run_begin : (r : Run) (i : ℕ) → Call ℕ → Option (r.last.threads i ≡ Pc.idle) → Run
run_begin r i c none = r
run_begin r i c (some e) = record { last = _; reach = next r.reach (begins i c e) }

run_thread :
    (r : Run) (i : ℕ) (o : Option (Boxes ℕ × Pc ℕ))
    → thread_step i (r.last.threads i) r.last.boxes ≡ o
    → Run
run_thread r i none e = r
run_thread r i (some (t, p)) e = record { last = _; reach = next r.reach (runs i e) }

turn_of : Run → Turns → Run
unfolding idle? run_begin run_thread
turn_of r (begin i c) = run_begin r i c (idle? (r.last.threads i))
turn_of r (run i) = run_thread r i (thread_step i (r.last.threads i) r.last.boxes) refl

run_from : Run → List Turns → Run
unfolding turn_of
run_from r [] = r
run_from r (t ∷ ts) = run_from (turn_of r t) ts

-- Thread 4 has doubled box 2 after thread 3 has set it to 5; then thread 3 assigns it to box 1 and
-- is about to store.
assigning : Run
unfolding run_from enter thread_step ℕ_discrete
assigning =
    run_from (record { last = initial first; reach = here })
      (begin 3 (calls_set 2 5)
        ∷ run 3
        ∷ run 3
        ∷ run 3
        ∷ run 3
        ∷ begin 4 (calls_set_with 2 (λ v. v + v))
        ∷ run 4
        ∷ run 4
        ∷ run 4
        ∷ run 4
        ∷ begin 3 (assigns 1 2)
        ∷ run 3
        ∷ run 3
        ∷ run 3
        ∷ begin 5 (calls_try_set 2 8)
        ∷ run 5
        ∷ begin 5 (calls_get 7)
        ∷ run 5
        ∷ run 5
        ∷ [])

assigning_test : assigning.last.threads 3 ≡ Pc.assign_storing 1 2 10
unfolding assigning
assigning_test = refl

no_lost_change_example : assigning.last.boxes.value 2 ≡ change_all (assigning.last.boxes.log 2) 2
no_lost_change_example = no_lost_change first assigning.last assigning.reach 2

assignments_deadlock_example :
    (t : System ℕ) × Reach (initial first) t × ((u : System ℕ) → Reach t u → Deadlocked 3 4 1 2 u)
assignments_deadlock_example =
    assignments_deadlock first (initial first) here 3 4 1 2 (λ e. cc) (λ e. cc) refl refl refl refl

-- Thread 3 has the mutex of box 2 and is about to take that of box 1, to assign box 2 to it.
locking_self : Run
unfolding run_from enter thread_step ℕ_discrete
locking_self =
    run_from (record { last = initial first; reach = here })
      (begin 3 (assigns 1 2) ∷ run 3 ∷ begin 4 (calls_get 2) ∷ [])

box_locks_by_mutex_example :
    Follows
      (states errorcheck)
      errorcheck
      (states_documented errorcheck)
      1
      locking_self.last.boxes
      (held 3 1 false, done)
      (thread_step 3 (Pc.assign_locking_self 1 2) locking_self.last.boxes)
unfolding locking_self lock
box_locks_by_mutex_example =
    box_locks_by_mutex (states errorcheck) errorcheck (states_documented errorcheck) first
      locking_self.last locking_self.reach 3 1 (locks 3) free refl (λ e. cc) refl

-- Thread 4 waits for box 2, as its mutex does.
get_waits_test :
    (thread_step 4 (locking_self.last.threads 4) locking_self.last.boxes ≡ none)
    × ((performed
          (states errorcheck)
          errorcheck
          (states_documented errorcheck)
          (locks 4)
          (held 3 1 false)).1
        ≡ waits)
unfolding locking_self thread_step lock
get_waits_test = (refl, refl)
