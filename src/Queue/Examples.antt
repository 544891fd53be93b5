-- ===== src/Queue/Examples.antt =====
-- A container that keeps a list, and the theorems at it.
use portage_realtime_tools_e.Base.{
  length, ℕ, ◌≡◌, refl, Bool, true, false, List, [], ◌∷◌, none, some, arith, ◌==◌,
}
use portage_realtime_tools_e.Queue.{
  Container, LockFreeQueue, push, pop, bounded_push, get_latest, empty,
}
use portage_realtime_tools_e.Queue.Traits.{
  Kind, spsc_queue, queue, has_capacity, is_spsc_queue, get_boost_lockfree_queue_capacity,
}
use portage_realtime_tools_e.Queue.Documented.{Contents, add, take_first, Documented}
use portage_realtime_tools_e.Queue.Fifo.{
  Call, calls_push, calls_pop, calls_bounded_push, calls_get_latest, calls_empty, Answer, Fits,
  fifo, all_done, all_promised, queue_is_fifo,
}
use portage_realtime_tools_e.Queue.Window.{Window, bounded_push_all, bounded_pushes_keep_newest}
use portage_realtime_tools_e.Queue.Capacity.{
  take, construct, push_all, Constructed, capacity_is_room,
}

abbrev list_container : Kind → Container ℕ
list_container kind = record {
  Queue = Contents ℕ;
  kind = kind;
  create = λ n. record { items = []; limit = n };
  create_fixed = record { items = []; limit = get_boost_lockfree_queue_capacity kind };
  push = add;
  bounded_push = add;
  pop = take_first;
  consume_all = λ s. (record s { items = [] }, s.items);
  read_available = λ s. length s.items;
  empty = λ s. length s.items == 0;
  is_lock_free = λ s. true;
}

abbrev list_container-Documented : (kind : Kind) → Documented (list_container kind)
list_container-Documented kind = record {
  contents = λ s. s;
  push_adds = λ e x q. refl;
  bounded_push_adds = λ e x q. refl;
  pop_takes = λ q. refl;
  consume_all_takes = λ q. refl;
  read_available_counts = λ e q. refl;
  empty_tests = λ e q. refl;
}

abbrev mpmc : Container ℕ
mpmc = list_container (queue none (some true))

abbrev two_places : LockFreeQueue (Contents ℕ)
two_places = record { data_queue = record { items = []; limit = 2 }; capacity = 2 }

abbrev calls : List (Call ℕ)
calls =
    calls_push 1
    ∷ calls_push 2
    ∷ calls_push 3
    ∷ calls_bounded_push 4
    ∷ calls_pop 0
    ∷ calls_get_latest 0
    ∷ calls_empty
    ∷ []

abbrev answer : Bool → Answer ℕ
answer b = record { status = b; data_ = none }

calls_test :
    all_done mpmc (list_container-Documented (queue none (some true))) calls two_places
    ≡ answer true
      ∷ answer true
      ∷ answer false
      ∷ answer true
      ∷ record { status = true; data_ = some 2 }
      ∷ record { status = true; data_ = some 4 }
      ∷ answer true
      ∷ []
unfolding push pop bounded_push get_latest empty is_spsc_queue
calls_test = refl

queue_is_fifo_example :
    all_done mpmc (list_container-Documented (queue none (some true))) calls two_places
    ≡ all_promised calls (record { items = []; limit = 2 })
queue_is_fifo_example =
    queue_is_fifo mpmc (list_container-Documented (queue none (some true))) calls two_places
      (ground arith)

abbrev spsc : Container ℕ
spsc = list_container (spsc_queue (some 2))

abbrev spsc_of_two : Container ℕ
spsc_of_two = list_container (spsc_queue (some 2))

spsc_of_two-Constructed : Constructed spsc_of_two (list_container-Documented (spsc_queue (some 2)))
unfolding get_boost_lockfree_queue_capacity
spsc_of_two-Constructed = record {
  create_empty = λ n. refl;
  create_fixed_empty = λ n e. ground arith;
}

abbrev three : List ℕ
three = 5 ∷ 6 ∷ 7 ∷ []

push_all_test : (push_all spsc_of_two three (construct spsc_of_two 9)).1 ≡ 5 ∷ 6 ∷ []
unfolding construct push is_spsc_queue has_capacity get_boost_lockfree_queue_capacity
push_all_test = refl

capacity_is_room_example :
    let q = construct spsc_of_two 9 in
    let (r, taken) = push_all spsc_of_two three q in
    (taken ≡ take q.capacity three)
    × ((fifo spsc_of_two (list_container-Documented (spsc_queue (some 2))) r).items ≡ taken)
    × (empty spsc_of_two r ≡ (length taken == 0))
capacity_is_room_example =
    capacity_is_room spsc_of_two (list_container-Documented (spsc_queue (some 2))) 9 three
      spsc_of_two-Constructed

-- Five, six and seven into two places.
bounded_pushes_keep_newest_example :
    Window [] (5 ∷ 6 ∷ 7 ∷ []) (
      fifo spsc_of_two (list_container-Documented (spsc_queue (some 2))) (
        bounded_push_all spsc_of_two
          (list_container-Documented (spsc_queue (some 2)))
          (5 ∷ 6 ∷ 7 ∷ [])
          two_places))
    × Fits (
        fifo spsc_of_two (list_container-Documented (spsc_queue (some 2))) (
          bounded_push_all spsc_of_two
            (list_container-Documented (spsc_queue (some 2)))
            (5 ∷ 6 ∷ 7 ∷ [])
            two_places))
    × ((fifo spsc_of_two (list_container-Documented (spsc_queue (some 2))) (
          bounded_push_all spsc_of_two
            (list_container-Documented (spsc_queue (some 2)))
            (5 ∷ 6 ∷ 7 ∷ [])
            two_places)).limit
        ≡ 2)
bounded_pushes_keep_newest_example =
    bounded_pushes_keep_newest spsc_of_two (list_container-Documented (spsc_queue (some 2)))
      (5 ∷ 6 ∷ 7 ∷ []) two_places (ground arith) (λ e. ground arith)
