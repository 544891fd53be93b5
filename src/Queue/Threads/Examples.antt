-- ===== src/Queue/Threads/Examples.antt =====
-- Runs of threads on a queue with two places by evaluation, and the theorems at them.
use portage_realtime_tools_e.Base.{
  ℕ, ◌≡◌, refl, ◌==◌, true, false, Option, none, some, List, [], ◌∷◌, ◌++◌, length, ℕ_discrete,
}
use portage_realtime_tools_e.Queue.{Container, LockFreeQueue, push}
use portage_realtime_tools_e.Queue.Traits.{queue, is_spsc_queue}
use portage_realtime_tools_e.Queue.Documented.{Contents, add, take_first, Documented}
use portage_realtime_tools_e.Queue.Threads.{
  Pc, Call, calls_bounded_push, calls_push, pushed, enter, thread_step, System, begins, runs,
  initial, Reach, here, next,
}

abbrev list_queue : Container ℕ
list_queue = record {
  Queue = Contents ℕ;
  kind = queue none (some true);
  create = λ n. record { items = []; limit = n };
  create_fixed = record { items = []; limit = 0 };
  push = add;
  bounded_push = add;
  pop = take_first;
  consume_all = λ s. (record s { items = [] }, s.items);
  read_available = λ s. length s.items;
  empty = λ s. length s.items == 0;
  is_lock_free = λ s. true;
}

abbrev list_queue_documented : Documented list_queue
list_queue_documented = record {
  contents = λ s. s;
  push_adds = λ e x q. refl;
  bounded_push_adds = λ e x q. refl;
  pop_takes = λ q. refl;
  consume_all_takes = λ q. refl;
  read_available_counts = λ e q. refl;
  empty_tests = λ e q. refl;
}

abbrev two_places : LockFreeQueue (Contents ℕ)
two_places = record { data_queue = record { items = []; limit = 2 }; capacity = 2 }

data Turns : Type 0 where
  begin : ℕ → Call ℕ → Turns
  run : ℕ → Turns

record Run : Type 0 where
  last : System ℕ (Contents ℕ)
  reach : Reach list_queue (initial two_places) last

idle? : (p : Pc ℕ) → Option (p ≡ Pc.idle)
idle? Pc.idle = some refl
idle? _ = none

run_begin : (r : Run) (i : ℕ) (k : Call ℕ) → Option (r.last.threads i ≡ Pc.idle) → Run
unfolding is_spsc_queue
run_begin r i k none = r
run_begin r i k (some e) = record { last = _; reach = next r.reach (begins i k e refl) }

turn_of : Run → Turns → Run
unfolding idle? run_begin
turn_of r (begin i k) = run_begin r i k (idle? (r.last.threads i))
turn_of r (run i) = record { last = _; reach = next r.reach (runs i) }

run_from : Run → List Turns → Run
unfolding turn_of
run_from r [] = r
run_from r (t ∷ ts) = run_from (turn_of r t) ts

abbrev begun : Run
begun = record { last = initial two_places; reach = here }

-- Thread 1 fills the queue, and makes room in it to push 7.
abbrev room_made : List Turns
room_made =
    begin 1 (calls_push 5)
    ∷ run 1
    ∷ run 1
    ∷ begin 1 (calls_push 6)
    ∷ run 1
    ∷ run 1
    ∷ begin 1 (calls_bounded_push 7)
    ∷ run 1
    ∷ run 1
    ∷ []

-- Thread 2 takes the place, and then thread 1 pushes.
two_producers : Run
unfolding run_from enter thread_step push is_spsc_queue ℕ_discrete
two_producers = run_from begun (room_made ++ begin 2 (calls_push 8) ∷ run 2 ∷ run 1 ∷ [])

-- `bounded_push` fails.
two_producers_test :
    (two_producers.last.threads 1 ≡ Pc.returning (pushed false))
    × (two_producers.last.shared.queue.data_queue.items ≡ 6 ∷ 8 ∷ [])
unfolding two_producers
two_producers_test = (refl, refl)
