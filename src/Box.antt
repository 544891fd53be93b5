-- ===== src/Box.antt =====
-- realtime_tools/include/realtime_tools/realtime_thread_safe_box.hpp: `RealtimeThreadSafeBox`. Any
-- number of threads call the methods of any number of boxes, both by their numbers. Taking a mutex,
-- reading a value, storing one and releasing a mutex are one step each. `operator=` from another box
-- takes the other's mutex and then its own. A callable that takes `T &` is a function from the old
-- value to the new one; `get` with a reference or with a callable is the same row of steps as `get`;
-- the copy constructor ends with the value of the new box, which no other thread can call yet. What
-- a move makes of the value that it is from is an argument, any function; the move constructor takes
-- the steps of `set` with it, and the new box gets the value that was read.
-- `log` records the changes of each box, the newest first.
pub mod Invariant
pub mod Changes
pub mod Deadlock
pub mod Locking
mod Examples
use portage_realtime_tools_e.Base.{
  ℕ, ◌≡◌, Option, none, some, List, [], ◌∷◌, ◌==◌, update, if◌then◌else◌,
}

-- Where a thread stands. The first number is that of the box.
pub data Pc (A : Type 0) : Type 0 where
  idle : Pc A
  locking : ℕ → (A → A) → Pc A  -- `set`, before the mutex is taken
  trying : ℕ → (A → A) → Pc A  -- `try_set`
  changing : ℕ → (A → A) → Pc A  -- before the value is read
  storing : ℕ → (A → A) → A → Pc A
  get_locking : ℕ → Pc A
  get_trying : ℕ → Pc A
  getting : ℕ → Pc A
  got : ℕ → A → Pc A  -- with the value to return
  assign_locking_other : ℕ → ℕ → Pc A  -- the second number is that of the other box
  assign_locking_self : ℕ → ℕ → Pc A
  assign_reading : ℕ → ℕ → Pc A
  assign_storing : ℕ → ℕ → A → Pc A
  assign_unlocking : ℕ → ℕ → Pc A
  -- the same for a move, with what the move makes of the value of the other box
  move_locking_other : ℕ → ℕ → (A → A) → Pc A
  move_locking_self : ℕ → ℕ → (A → A) → Pc A
  move_reading : ℕ → ℕ → (A → A) → Pc A
  move_storing : ℕ → ℕ → (A → A) → A → Pc A
  move_leaving : ℕ → ℕ → (A → A) → Pc A  -- before the value of the other box changes
  unlocking : ℕ → Pc A

-- The operators that call `set`, `get` and `try_get`.
pub data Operator (A : Type 0) : Type 0 where
  assigns_value : ℕ → A → Operator A  -- `operator=(const T &)`
  converts : ℕ → Operator A  -- `operator T()`
  converts_to_optional : ℕ → Operator A  -- `operator std::optional<T>()`

pub data Call (A : Type 0) : Type 0 where
  calls_set : ℕ → A → Call A
  calls_set_with : ℕ → (A → A) → Call A
  calls_try_set : ℕ → A → Call A
  calls_try_set_with : ℕ → (A → A) → Call A
  calls_get : ℕ → Call A
  calls_try_get : ℕ → Call A
  assigns : ℕ → ℕ → Call A
  copies_from : ℕ → Call A  -- the copy constructor of a new box
  moves_from : ℕ → (A → A) → Call A  -- the move constructor of a new box
  assigns_by_move : ℕ → ℕ → (A → A) → Call A
  by_operator : Operator A → Call A

pub record Boxes (A : Type 0) : Type 0 where
  pub value : ℕ → A
  pub lock : ℕ → Option ℕ
  pub log : ℕ → List (A → A)

pub record System (A : Type 0) : Type 0 where
  pub boxes : Boxes A
  pub threads : ℕ → Pc A

module _ {A : Type 0} where
  abbrev enter_operator : Operator A → Pc A
  enter_operator (assigns_value b v) = locking b (λ _. v)
  enter_operator (converts b) = get_locking b
  enter_operator (converts_to_optional b) = get_trying b

  -- Where a call begins. An assignment of a box to itself does nothing.
  unfoldable pub enter : Call A → Pc A
  enter (calls_set b v) = locking b (λ _. v)
  enter (calls_set_with b f) = locking b f
  enter (calls_try_set b v) = trying b (λ _. v)
  enter (calls_try_set_with b f) = trying b f
  enter (calls_get b) = get_locking b
  enter (calls_try_get b) = get_trying b
  enter (assigns b other) = if b == other then idle else assign_locking_other b other
  enter (copies_from b) = get_locking b
  enter (moves_from b left) = locking b left
  enter (assigns_by_move b other left) =
      if b == other then idle else move_locking_other b other left
  enter (by_operator o) = enter_operator o

  abbrev pub owned : Boxes A → ℕ → ℕ → Boxes A
  owned s b i = record s { lock = update s.lock b (some i) }

  abbrev pub released : Boxes A → ℕ → Boxes A
  released s b = record s { lock = update s.lock b none }

  -- A thread that asks for a mutex waits while it is taken.
  abbrev pub acquire : Option ℕ → Boxes A → ℕ → ℕ → Pc A → Option (Boxes A × Pc A)
  acquire none s b i p = some (owned s b i, p)
  acquire (some _) s b i p = none

  abbrev pub try_acquire : Option ℕ → Boxes A → ℕ → ℕ → Pc A → Option (Boxes A × Pc A)
  try_acquire none s b i p = some (owned s b i, p)
  try_acquire (some _) s b i p = some (s, idle)

  abbrev changed : Boxes A → ℕ → (A → A) → A → Boxes A
  changed s b f v = record s { value = update s.value b v; log = update s.log b (f ∷ s.log b) }

  -- One step of thread `i` in a call; `none` while it is blocked, or outside of a call.
  unfoldable pub thread_step : ℕ → Pc A → Boxes A → Option (Boxes A × Pc A)
  thread_step i idle s = none
  thread_step i (locking b f) s = acquire (s.lock b) s b i (changing b f)
  thread_step i (trying b f) s = try_acquire (s.lock b) s b i (changing b f)
  thread_step i (changing b f) s = some (s, storing b f (s.value b))
  thread_step i (storing b f v) s = some (changed s b f (f v), unlocking b)
  thread_step i (get_locking b) s = acquire (s.lock b) s b i (getting b)
  thread_step i (get_trying b) s = try_acquire (s.lock b) s b i (getting b)
  thread_step i (getting b) s = some (s, got b (s.value b))
  thread_step i (got b v) s = some (released s b, idle)
  thread_step i (assign_locking_other b o) s = acquire (s.lock o) s o i (assign_locking_self b o)
  thread_step i (assign_locking_self b o) s = acquire (s.lock b) s b i (assign_reading b o)
  thread_step i (assign_reading b o) s = some (s, assign_storing b o (s.value o))
  thread_step i (assign_storing b o v) s = some (changed s b (λ _. v) v, assign_unlocking b o)
  thread_step i (assign_unlocking b o) s = some (released s b, unlocking o)
  thread_step i (move_locking_other b o left) s =
      acquire (s.lock o) s o i (move_locking_self b o left)
  thread_step i (move_locking_self b o left) s = acquire (s.lock b) s b i (move_reading b o left)
  thread_step i (move_reading b o left) s = some (s, move_storing b o left (s.value o))
  thread_step i (move_storing b o left v) s = some (changed s b (λ _. v) v, move_leaving b o left)
  thread_step i (move_leaving b o left) s =
      some (changed s o left (left (s.value o)), assign_unlocking b o)
  thread_step i (unlocking b) s = some (released s b, idle)

  -- Boxes with their first values, and no thread in a call.
  abbrev pub initial : (ℕ → A) → System A
  initial first = record {
    boxes = record { value = first; lock = λ b. none; log = λ b. [] };
    threads = λ i. idle;
  }

-- One step of some thread.
pub data Step {A : Type 0} (s : System A) : System A → Type 0 where
  begins :
      (i : ℕ) (c : Call A)
      → s.threads i ≡ idle
      → Step s (record s { threads = update s.threads i (enter c) })
  runs :
      (i : ℕ) {t : Boxes A} {p : Pc A}
      → thread_step i (s.threads i) s.boxes ≡ some (t, p)
      → Step s (record { boxes = t; threads = update s.threads i p })

pub data Reach {A : Type 0} (s : System A) : System A → Type 0 where
  here : Reach s s
  next : {t u : System A} → Reach s t → Step t u → Reach s u
