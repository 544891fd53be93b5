-- ===== src/Mutex/States.antt =====
-- The documented states themselves as mutexes: a pthread that does what is documented.
use portage_realtime_tools_e.Base.{◌≡◌, refl, Option, none, some}
use portage_realtime_tools_e.Mutex.{Pthread, Code}
use portage_realtime_tools_e.Mutex.Documented.{
  MutexType, State, locked, unlocked, made_consistent, orphaned, seen_if, Documented,
}
use portage_realtime_tools_e.Mutex.Documented

abbrev pub states : MutexType → Pthread
states k = record {
  Native = State;
  pthread_mutex_lock = locked k;
  pthread_mutex_trylock = Documented.tried k;
  pthread_mutex_unlock = unlocked;
  pthread_mutex_consistent = made_consistent;
}

pub seen_if-id : (r : Option (State × Code)) → seen_if (λ s. s) r ≡ r
seen_if-id none = refl
seen_if-id (some r) = refl

abbrev pub states_documented : (k : MutexType) → Documented (states k) k
states_documented k = record {
  state = λ s. s;
  dies = orphaned;
  lock_locks = λ t s. seen_if-id (locked k t s);
  trylock_tries = λ t s. refl;
  unlock_unlocks = λ t s. refl;
  consistent_repairs = λ s. refl;
  dies_orphans = λ t s. refl;
}
