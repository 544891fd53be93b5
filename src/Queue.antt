-- ===== src/Queue.antt =====
-- realtime_tools/include/realtime_tools/lock_free_queue.hpp: `LockFreeQueueBase` over a container of
-- boost::lockfree, which is the parameter `Container`. The conversions between `T` and `U` are left
-- out. A `T & data` that a method may fill is an argument and a part of the result.
pub mod Traits
pub mod Documented
pub mod Fifo
pub mod Capacity
pub mod Window
pub mod Threads
mod Examples
use portage_realtime_tools_e.Base.{
  ℕ, Bool, true, false, ◌||◌, Option, none, some, List, [], ◌∷◌, ◌==◌, if◌then◌else◌,
}
use portage_realtime_tools_e.Queue.Traits.{Kind, is_spsc_queue, get_boost_lockfree_queue_capacity}

-- A container type and its methods. `consume_all` gives the elements that it calls the functor on,
-- in order; `create` is the constructor with a size, `create_fixed` the one without.
pub record Container (T : Type 0) : Type 1 where
  pub Queue : Type 0
  pub kind : Kind
  pub create : ℕ → Queue
  pub create_fixed : Queue
  pub push : T → Queue → Queue × Bool
  pub bounded_push : T → Queue → Queue × Bool
  pub pop : Queue → Queue × Option T
  pub consume_all : Queue → Queue × List T
  pub read_available : Queue → ℕ
  pub empty : Queue → Bool
  pub is_lock_free : Queue → Bool

pub record LockFreeQueue (Q : Type 0) : Type 0 where
  pub data_queue : Q
  pub capacity : ℕ

-- The assignments of the functor that `consume_all` calls.
abbrev pub last_of : {T : Type 0} → T → List T → T
last_of data_ [] = data_
last_of data_ (x ∷ xs) = last_of x xs

module _ {T : Type 0} (c : Container T) where
  open c use {Queue}

  -- The constructor with a capacity, for containers without one of their own.
  unfoldable pub make : ℕ → LockFreeQueue Queue
  make capacity = record { data_queue = c.create capacity; capacity = capacity }

  -- The default constructor, for containers with a capacity.
  unfoldable pub make_fixed : LockFreeQueue Queue
  make_fixed = record {
    data_queue = c.create_fixed;
    capacity = get_boost_lockfree_queue_capacity c.kind;
  }

  abbrev with_queue : {B : Type 0} → LockFreeQueue Queue → Queue × B → LockFreeQueue Queue × B
  with_queue q (d, b) = (record q { data_queue = d }, b)

  abbrev filled : Option T → T → T × Bool
  filled none data_ = (data_, false)
  filled (some x) data_ = (x, true)

  unfoldable pub pop : T → LockFreeQueue Queue → LockFreeQueue Queue × T × Bool
  pop data_ q =
      let (d, o) = c.pop q.data_queue in
      let (x, popped) = filled o data_ in (record q { data_queue = d }, x, popped)

  unfoldable pub push : T → LockFreeQueue Queue → LockFreeQueue Queue × Bool
  push data_ q =
      if is_spsc_queue c.kind
      then with_queue q (c.push data_ q.data_queue)
      else with_queue q (c.bounded_push data_ q.data_queue)

  -- The element that makes room is popped into a `dummy`.
  unfoldable pub bounded_push : T → LockFreeQueue Queue → LockFreeQueue Queue × Bool
  unfolding push
  bounded_push data_ q =
      let (r, pushed) = push data_ q in
      if pushed then (r, true) else push data_ (record r { data_queue = (c.pop r.data_queue).0 })

  abbrev some_consumed : List T → Bool
  some_consumed [] = false
  some_consumed (_ ∷ _) = true

  unfoldable pub get_latest : T → LockFreeQueue Queue → LockFreeQueue Queue × T × Bool
  get_latest data_ q =
      let (d, xs) = c.consume_all q.data_queue in
      (record q { data_queue = d }, last_of data_ xs, some_consumed xs)

  unfoldable pub empty : LockFreeQueue Queue → Bool
  empty q =
      if is_spsc_queue c.kind then c.read_available q.data_queue == 0 else c.empty q.data_queue

  unfoldable pub size : LockFreeQueue Queue → ℕ
  size q = c.read_available q.data_queue

  unfoldable pub is_lock_free : LockFreeQueue Queue → Bool
  is_lock_free q = is_spsc_queue c.kind || c.is_lock_free q.data_queue
