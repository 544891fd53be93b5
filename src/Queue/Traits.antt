-- ===== src/Queue/Traits.antt =====
-- The traits at the top of lock_free_queue.hpp and the two aliases at its end: which container type
-- is meant, and the capacity that its template parameters fix.
use portage_realtime_tools_e.Base.{
  ℕ, ◌≡◌, Bool, true, false, not, Option, none, some, ◌==◌, arith, if◌then◌else◌,
}

-- `spsc_queue<T, capacity<...>>` and `queue<T, capacity<...>, fixed_sized<...>>`, the options that
-- are not given being `none`.
pub data Kind : Type 0 where
  spsc_queue : Option ℕ → Kind
  queue : Option ℕ → Option Bool → Kind

unfoldable pub has_capacity : Kind → Bool
has_capacity (spsc_queue (some capacity)) = true
has_capacity (queue (some capacity) fixed_sized) = true
has_capacity _ = false

unfoldable pub is_spsc_queue : Kind → Bool
is_spsc_queue (spsc_queue capacity) = true
is_spsc_queue _ = false

unfoldable pub get_boost_lockfree_queue_capacity : Kind → ℕ
get_boost_lockfree_queue_capacity (spsc_queue (some capacity)) = capacity
get_boost_lockfree_queue_capacity (queue (some capacity) fixed_sized) = capacity
get_boost_lockfree_queue_capacity _ = 0

-- `LockFreeSPSCQueue<DataType, Capacity>`
unfoldable pub lock_free_spsc_queue : ℕ → Kind
lock_free_spsc_queue capacity =
    if capacity == 0 then spsc_queue none else spsc_queue (some capacity)

-- `LockFreeMPMCQueue<DataType, Capacity, FixedSize>`
unfoldable pub lock_free_mpmc_queue : ℕ → Bool → Kind
lock_free_mpmc_queue capacity fixed_size =
    if capacity == 0 then queue none (some fixed_size) else queue (some capacity) (some fixed_size)

-- For both aliases the traits agree with the template parameters: the capacity that is found is the
-- one that was given, the default constructor is the one that is enabled exactly if it is not 0, and
-- the single-producer container is told from the other.
aliases-traits :
    (capacity : ℕ) (fixed_size : Bool)
    → (get_boost_lockfree_queue_capacity (lock_free_spsc_queue capacity) ≡ capacity)
      × (get_boost_lockfree_queue_capacity (lock_free_mpmc_queue capacity fixed_size) ≡ capacity)
      × (has_capacity (lock_free_spsc_queue capacity) ≡ not (capacity == 0))
      × (has_capacity (lock_free_mpmc_queue capacity fixed_size) ≡ not (capacity == 0))
      × (is_spsc_queue (lock_free_spsc_queue capacity) ≡ true)
      × (is_spsc_queue (lock_free_mpmc_queue capacity fixed_size) ≡ false)
unfolding get_boost_lockfree_queue_capacity lock_free_spsc_queue lock_free_mpmc_queue has_capacity
    is_spsc_queue
aliases-traits capacity fixed_size = ground arith
