-- ===== src/Mutex/Documented.antt =====
-- What is relied on of a robust mutex of pthread, of the error-checking and of the recursive type.
-- That `pthread_mutex_trylock` tells a thread of an error-checking mutex which it holds already by
-- EDEADLK is what realtime_tools/test/realtime_mutex_tests.cpp asserts (lines 225, 290 and 317).
use portage_realtime_tools_e.Base.{
  ℕ, ◌+◌, ◌-◌, ◌≡◌, Bool, true, false, Option, none, some, ◌==◌, if◌then◌else◌,
}
use portage_realtime_tools_e.Mutex.{Pthread, Code, ok, ebusy, eownerdead, edeadlk, other}

-- `error_mutex_type_t` and `recursive_mutex_type_t`
pub data MutexType : Type 0 where
  errorcheck recursive : MutexType

-- A mutex that is held tells by whom, how often it was locked, and if it is inconsistent, since its
-- last owner died with it. One that is released inconsistent cannot be recovered.
pub data State : Type 0 where
  free abandoned unrecoverable : State
  held : ℕ → ℕ → Bool → State

-- By a thread that holds it already.
abbrev relock : MutexType → ℕ → ℕ → Bool → State × Code
relock errorcheck t n bad = (held t n bad, edeadlk)
relock recursive t n bad = (held t (n + 1) bad, ok)

-- ENOTRECOVERABLE, EPERM and EINVAL
abbrev enotrecoverable : Code
enotrecoverable = other 131

abbrev eperm : Code
eperm = other 1

abbrev einval : Code
einval = other 22

abbrev pub locked : MutexType → ℕ → State → Option (State × Code)
locked k t free = some (held t 1 false, ok)
locked k t abandoned = some (held t 1 true, eownerdead)
locked k t unrecoverable = some (unrecoverable, enotrecoverable)
locked k t (held u n bad) = if t == u then some (relock k u n bad) else none

abbrev pub tried : MutexType → ℕ → State → State × Code
tried k t free = (held t 1 false, ok)
tried k t abandoned = (held t 1 true, eownerdead)
tried k t unrecoverable = (unrecoverable, enotrecoverable)
tried k t (held u n bad) = if t == u then relock k u n bad else (held u n bad, ebusy)

abbrev released : ℕ → ℕ → Bool → State
released t n bad = if n == 1 then if bad then unrecoverable else free else held t (n - 1) bad

abbrev pub unlocked : ℕ → State → State × Code
unlocked t (held u n bad) = if t == u then (released u n bad, ok) else (held u n bad, eperm)
unlocked t s = (s, eperm)

abbrev pub made_consistent : State → State × Code
made_consistent (held u n true) = (held u n false, ok)
made_consistent s = (s, einval)

-- The thread ends, perhaps with the mutex.
abbrev pub orphaned : ℕ → State → State
orphaned t (held u n bad) = if t == u then abandoned else held u n bad
orphaned t s = s

-- The result of a function, with the state in place of the mutex.
abbrev pub seen : {M : Type 0} → (M → State) → M × Code → State × Code
seen state (m, code) = (state m, code)

abbrev pub seen_if : {M : Type 0} → (M → State) → Option (M × Code) → Option (State × Code)
seen_if state none = none
seen_if state (some r) = some (seen state r)

-- `dies` is what the end of a thread does to the mutex.
pub record Documented (p : Pthread) (k : MutexType) : Type 0 where
  pub state : p.Native → State
  pub dies : ℕ → p.Native → p.Native
  pub lock_locks :
      (t : ℕ) (m : p.Native) → seen_if state (p.pthread_mutex_lock t m) ≡ locked k t (state m)
  pub trylock_tries :
      (t : ℕ) (m : p.Native) → seen state (p.pthread_mutex_trylock t m) ≡ tried k t (state m)
  pub unlock_unlocks :
      (t : ℕ) (m : p.Native) → seen state (p.pthread_mutex_unlock t m) ≡ unlocked t (state m)
  pub consistent_repairs :
      (m : p.Native) → seen state (p.pthread_mutex_consistent m) ≡ made_consistent (state m)
  pub dies_orphans : (t : ℕ) (m : p.Native) → state (dies t m) ≡ orphaned t (state m)
