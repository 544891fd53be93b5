-- ===== src/Buffer/Memory.antt =====
-- realtime_tools/include/realtime_tools/realtime_buffer.hpp: `RealtimeBuffer` with its memory. The
-- two objects are cells of a heap, at the addresses in the two pointers; `new` takes a fresh
-- address. A use of an address where no object lives, and a `delete` of one, have no outcome.
mod Owned
mod Methods
pub mod Freed
mod Examples
use portage_realtime_tools_e.Base.{
  ℕ, ◌+◌, Bool, true, false, Option, none, some, List, [], ◌∷◌, ◌==◌, update, if◌then◌else◌, ◌>>=◌,
}
use portage_realtime_tools_e.Buffer.{content, read_from_non_rt}
use portage_realtime_tools_e.Buffer.Register.{
  Call, read_rt, read_non_rt, write, init, reset_to, assign_from,
}

pub record Heap (A : Type 0) : Type 0 where
  pub cells : ℕ → Option A
  pub next_address : ℕ

pub record HeapBuffer (A : Type 0) : Type 0 where
  pub heap : Heap A
  pub realtime_data : ℕ
  pub non_realtime_data : ℕ
  pub new_data_available : Bool

module _ {A : Type 0} where
  -- The heap before the first `new`; no object has the address 0 of the null pointer.
  abbrev pub empty_heap : Heap A
  empty_heap = record { cells = λ p. none; next_address = 1 }

  -- `new T(a)`
  unfoldable pub allocate : A → Heap A → Heap A × ℕ
  allocate a h = (
    record { cells = update h.cells h.next_address (some a); next_address = h.next_address + 1 },
    h.next_address,
  )

  -- `*p`
  unfoldable pub load : ℕ → Heap A → Option A
  load p h = h.cells p

  -- `*p = a`
  unfoldable pub store : ℕ → A → Heap A → Option (Heap A)
  store p a h = do _ ← h.cells p; some (record h { cells = update h.cells p (some a) })

  -- `if (p) { delete p; }`
  unfoldable pub delete_if : ℕ → Heap A → Option (Heap A)
  delete_if p h =
      if p == 0 then some h else do _ ← h.cells p; some (record h { cells = update h.cells p none })

  -- The constructors: two objects with the value of `T()`, or with `data`.
  unfoldable pub construct : A → Heap A → HeapBuffer A
  unfolding allocate
  construct a h =
      let (h1, n) = allocate a h in
      let (h2, r) = allocate a h1 in
      record { heap = h2; realtime_data = r; non_realtime_data = n; new_data_available = false }

  unfoldable pub destroy : HeapBuffer A → Option (Heap A)
  unfolding delete_if
  destroy b = do h ← delete_if b.non_realtime_data b.heap; delete_if b.realtime_data h

  unfoldable pub reset : A → HeapBuffer A → Option (HeapBuffer A)
  unfolding destroy allocate
  reset fresh b = do
    h ← destroy b
    let (h1, n) = allocate fresh h
    let (h2, r) = allocate fresh h1
    some (record b { heap = h2; realtime_data = r; non_realtime_data = n })

  unfoldable pub read_from_rt : Bool → HeapBuffer A → HeapBuffer A × ℕ
  read_from_rt owns_lock b =
      let swapped : HeapBuffer A = record b {
        realtime_data = b.non_realtime_data;
        non_realtime_data = b.realtime_data;
        new_data_available = false;
      } in
      let c : HeapBuffer A = if owns_lock then if b.new_data_available then swapped else b else b in
      (c, c.realtime_data)

  unfoldable pub read_pointer : HeapBuffer A → ℕ
  read_pointer b = if b.new_data_available then b.non_realtime_data else b.realtime_data

  unfoldable pub write_from_non_rt : A → HeapBuffer A → Option (HeapBuffer A)
  unfolding store
  write_from_non_rt a b = do
    h ← store b.non_realtime_data a b.heap
    some (record b { heap = h; new_data_available = true })

  unfoldable pub init_rt : A → HeapBuffer A → Option (HeapBuffer A)
  unfolding store
  init_rt a b = do
    h ← store b.non_realtime_data a b.heap
    g ← store b.realtime_data a h
    some (record b { heap = g })

  -- The copy constructor, and `operator=` from another buffer, with the value that
  -- `*source.readFromNonRT()` has.
  unfoldable pub copy_construct : A → Bool → A → Heap A → Option (HeapBuffer A)
  unfolding construct write_from_non_rt
  copy_construct fresh garbage newest h =
      write_from_non_rt newest (record (construct fresh h) { new_data_available = garbage })

  abbrev unanswered : Option (HeapBuffer A) → Option (HeapBuffer A × Option A)
  unanswered o = do b ← o; some (b, none)

  -- What a method does, and the value behind the pointer that it returns.
  abbrev pub done_on_heap : Call A → HeapBuffer A → Option (HeapBuffer A × Option A)
  done_on_heap (read_rt owns_lock) b = do
    let (c, p) = read_from_rt owns_lock b
    v ← load p c.heap
    some (c, some v)
  done_on_heap read_non_rt b = do v ← load (read_pointer b) b.heap; some (b, some v)
  done_on_heap (write a) b = unanswered (write_from_non_rt a b)
  done_on_heap (init a) b = unanswered (init_rt a b)
  done_on_heap (reset_to a) b = unanswered (reset a b)
  done_on_heap (assign_from none) b = some (b, none)
  done_on_heap (assign_from (some source)) b =
      unanswered (write_from_non_rt (content source (read_from_non_rt source)) b)

  -- The calls, and then the destructor: the values returned, and the heap that is left.
  abbrev pub life_of : List (Call A) → HeapBuffer A → Option (List (Option A) × Heap A)
  life_of [] b = do h ← destroy b; some ([], h)
  life_of (c ∷ cs) b = do (b', o) ← done_on_heap c b; (os, h) ← life_of cs b'; some (o ∷ os, h)
