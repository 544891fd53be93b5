-- ===== src/Mutex.antt =====
-- realtime_tools/include/realtime_tools/mutex.hpp: `detail::mutex`, on Linux, over the mutexes of
-- pthread, which are the parameter `Pthread`. Output to std::cerr is left out.
pub mod Documented
pub mod Lock
pub mod States
pub mod Setup
mod Examples
use portage_realtime_tools_e.Base.{ℕ, Bool, true, false, Option, none, some}

-- The values that the functions of pthread return; any other one is `other`.
pub data Code : Type 0 where
  ok ebusy eownerdead edeadlk : Code
  other : ℕ → Code

-- The functions that the class calls, for the thread that calls them. `pthread_mutex_lock` is `none`
-- while the thread has to wait.
pub record Pthread : Type 1 where
  pub Native : Type 0
  pub pthread_mutex_lock : ℕ → Native → Option (Native × Code)
  pub pthread_mutex_trylock : ℕ → Native → Native × Code
  pub pthread_mutex_unlock : ℕ → Native → Native × Code
  pub pthread_mutex_consistent : Native → Native × Code

-- What is thrown, with the code that it tells.
pub data Error : Type 0 where
  not_consistent deadlock_detected not_locked : Code → Error

pub data Outcome (A : Type 0) : Type 0 where
  returns : A → Outcome A
  throws : Error → Outcome A

module _ (p : Pthread) where
  open p use {Native}

  abbrev after_consistent : {A : Type 0} → A → Native × Code → Native × Outcome A
  after_consistent a (m, ok) = (m, returns a)
  after_consistent a (m, code) = (m, throws (not_consistent code))

  -- The tests of `lock` on the value of `pthread_mutex_lock`.
  unfoldable pub after_lock : Native × Code → Native × Outcome Unit
  after_lock (m, ok) = (m, returns tt)
  after_lock (m, eownerdead) = after_consistent tt (p.pthread_mutex_consistent m)
  after_lock (m, edeadlk) = (m, throws (deadlock_detected edeadlk))
  after_lock (m, code) = (m, throws (not_locked code))

  abbrev pub when_done : Option (Native × Code) → Option (Native × Outcome Unit)
  unfolding after_lock
  when_done none = none
  when_done (some r) = some (after_lock r)

  -- `lock`; `none` while the thread has to wait.
  unfoldable pub lock : ℕ → Native → Option (Native × Outcome Unit)
  unfolding after_lock
  lock thread m = when_done (p.pthread_mutex_lock thread m)

  -- The tests of `try_lock` on the value of `pthread_mutex_trylock`.
  unfoldable pub after_trylock : Native × Code → Native × Outcome Bool
  after_trylock (m, ok) = (m, returns true)
  after_trylock (m, ebusy) = (m, returns false)
  after_trylock (m, eownerdead) = after_consistent true (p.pthread_mutex_consistent m)
  after_trylock (m, edeadlk) = (m, throws (deadlock_detected edeadlk))
  after_trylock (m, code) = (m, throws (not_locked code))

  unfoldable pub try_lock : ℕ → Native → Native × Outcome Bool
  unfolding after_trylock
  try_lock thread m = after_trylock (p.pthread_mutex_trylock thread m)

  -- An error is only told on std::cerr.
  unfoldable pub unlock : ℕ → Native → Native
  unlock thread m = (p.pthread_mutex_unlock thread m).0
