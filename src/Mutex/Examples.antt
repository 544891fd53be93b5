-- ===== src/Mutex/Examples.antt =====
-- The documented states themselves as mutexes, and the theorems at them.
use portage_realtime_tools_e.Base.{◌≡◌, refl, true, false, List, [], ◌∷◌}
use portage_realtime_tools_e.Mutex.{edeadlk, deadlock_detected, lock, try_lock, unlock}
use portage_realtime_tools_e.Mutex.Documented.{errorcheck, recursive, free}
use portage_realtime_tools_e.Mutex.Lock.{
  nobody, Call, locks, tries, unlocks, dies, waits, done, tried, failed, all_performed,
  all_promised, mutex_is_lock,
}
use portage_realtime_tools_e.Mutex.States.{states, states_documented}

-- Thread 1 locks and ends; thread 2 gets the lock, and thread 3 waits and is refused. Thread 2 is told of the deadlock
-- when it locks or tries again.
abbrev calls : List Call
calls =
    locks 1
    ∷ tries 2
    ∷ dies 1
    ∷ locks 2
    ∷ locks 3
    ∷ tries 3
    ∷ locks 2
    ∷ tries 2
    ∷ unlocks 2
    ∷ tries 3
    ∷ []

calls_test :
    all_performed (states errorcheck) errorcheck (states_documented errorcheck) calls free
    ≡ done
      ∷ tried false
      ∷ done
      ∷ done
      ∷ waits
      ∷ tried false
      ∷ failed (deadlock_detected edeadlk)
      ∷ failed (deadlock_detected edeadlk)
      ∷ done
      ∷ tried true
      ∷ []
unfolding lock try_lock unlock
calls_test = refl

mutex_is_lock_example :
    all_performed (states recursive) recursive (states_documented recursive) calls free
    ≡ all_promised recursive calls nobody
mutex_is_lock_example =
    mutex_is_lock (states recursive) recursive (states_documented recursive) calls free (λ e. cc)
