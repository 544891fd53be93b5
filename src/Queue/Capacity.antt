-- ===== src/Queue/Capacity.antt =====
-- lock_free_queue.hpp: the constructors of `LockFreeQueueBase`, of which the container type enables
-- one, and `capacity`.
use portage_realtime_tools_e.Base.{
  ℕ, ◌+◌, zero, suc, ◌≡◌, refl, sym, Bool, true, false, Option, none, some, List, [], ◌∷◌, ◌++◌,
  length, ◌==◌, arith, if◌then◌else◌,
}
use mathlib.Core.List.{append-nil, append_assoc}
use portage_realtime_tools_e.Queue.{Container, LockFreeQueue, make, make_fixed, push, empty}
use portage_realtime_tools_e.Queue.Traits.{
  Kind, spsc_queue, queue, has_capacity, get_boost_lockfree_queue_capacity,
}
use portage_realtime_tools_e.Queue.Documented.{Documented}
use portage_realtime_tools_e.Queue.Fifo.{fifo, push-adds, length-add, empty-length}

-- The option `capacity<...>` of a container type.
abbrev capacity_option : Kind → Option ℕ
capacity_option (spsc_queue capacity) = capacity
capacity_option (queue capacity fixed_sized) = capacity

abbrev pub take {ℓ} : {A : Type ℓ} → ℕ → List A → List A
take n [] = []
take zero (x ∷ xs) = []
take (suc n) (x ∷ xs) = x ∷ take n xs

option-capacity :
    (k : Kind)
    → has_capacity k ≡ true
    → capacity_option k ≡ some (get_boost_lockfree_queue_capacity k)
unfolding has_capacity get_boost_lockfree_queue_capacity
option-capacity (spsc_queue (some n)) h = refl
option-capacity (queue (some n) f) h = refl
option-capacity (spsc_queue none) h = cc
option-capacity (queue none f) h = cc

take_none {ℓ} : {A : Type ℓ} (xs : List A) → take 0 xs ≡ []
take_none [] = refl
take_none (x ∷ xs) = refl

module _ {T : Type 0} (c : Container T) where
  -- The constructor that is enabled; the one without an argument leaves `n` unused.
  unfoldable pub construct : ℕ → LockFreeQueue c.Queue
  unfolding make make_fixed
  construct n = if has_capacity c.kind then make_fixed c else make c n

  -- The elements that `push` takes out of those that are offered in a row, and the queue after them.
  abbrev pub push_all : List T → LockFreeQueue c.Queue → LockFreeQueue c.Queue × List T
  push_all [] q = (q, [])
  push_all (x ∷ xs) q =
      let (r, pushed) = push c x q in
      let (last, taken) = push_all xs r in (last, if pushed then x ∷ taken else taken)

  module _ (doc : Documented c) where
    -- What boost::lockfree documents of its constructors: no element, and room for as many as the
    -- argument says, or as the option does.
    pub record Constructed : Type 0 where
      pub create_empty : (n : ℕ) → doc.contents (c.create n) ≡ record { items = []; limit = n }
      pub create_fixed_empty :
          (n : ℕ)
          → capacity_option c.kind ≡ some n
          → doc.contents c.create_fixed ≡ record { items = []; limit = n }

    push_all-take :
        (xs : List T) (q : LockFreeQueue c.Queue) (n : ℕ)
        → n + length (fifo c doc q).items ≡ (fifo c doc q).limit
        → ((push_all xs q).1 ≡ take n xs)
          × ((fifo c doc (push_all xs q).0).items ≡ (fifo c doc q).items ++ take n xs)
    push_all-take [] q n f = (refl, sym (append-nil (fifo c doc q).items))
    push_all-take (x ∷ xs) q zero f =
        let r = (push c x q).0 in
        let (e, p) = push-adds c doc x q in
        let (t, i) = push_all-take xs r zero (ground arith) in
        (ground (arith, take_none xs), ground (arith, take_none xs))
    push_all-take (x ∷ xs) q (suc n) f =
        let r = (push c x q).0 in
        let (e, p) = push-adds c doc x q in
        let (t, i) = push_all-take xs r n (ground (arith, length-add (fifo c doc q).items x)) in
        (ground arith, ground (arith, append_assoc (fifo c doc q).items (x ∷ []) (take n xs)))

    new_contents_if :
        (b : Bool) (n : ℕ)
        → Constructed
        → has_capacity c.kind ≡ b
        → fifo c doc (construct n) ≡ record { items = []; limit = (construct n).capacity }
    unfolding construct
    new_contents_if true n con e = ground (
      arith,
      con.create_fixed_empty (get_boost_lockfree_queue_capacity c.kind) (option-capacity c.kind e),
    )
    new_contents_if false n con e = ground (arith, con.create_empty n)

    -- A queue from either constructor takes exactly as many elements as `capacity` says: of any row
    -- of elements offered to `push`, the first `capacity` are taken and no other; they are then the
    -- contents; and `empty` is true only if none was taken.
    pub capacity_is_room :
        (n : ℕ) (xs : List T)
        → Constructed
        → let q = construct n in
          let (r, taken) = push_all xs q in
          (taken ≡ take q.capacity xs)
          × ((fifo c doc r).items ≡ taken)
          × (empty c r ≡ (length taken == 0))
    capacity_is_room n xs con =
        let q = construct n in
        let e = new_contents_if (has_capacity c.kind) n con refl in
        let (t, i) = push_all-take xs q q.capacity (ground arith) in
        (t, ground arith, ground (arith, empty-length c doc (push_all xs q).0))
