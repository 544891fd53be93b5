-- ===== src/Mutex/Lock.antt =====
-- What the class promises: a lock that at most one thread holds, and that the death of its holder
-- sets free.
use portage_realtime_tools_e.Base.{
  ℕ, ◌+◌, ◌-◌, ◌≡◌, refl, ◌≢◌, Bool, true, false, Option, none, some, List, [], ◌∷◌, ◌==◌, arith,
  if◌then◌else◌,
}
use portage_realtime_tools_e.Mutex.{
  Pthread, Code, edeadlk, Error, deadlock_detected, Outcome, returns, throws, lock, try_lock,
  unlock, when_done, after_lock, after_trylock,
}
use portage_realtime_tools_e.Mutex.Documented.{
  MutexType, errorcheck, recursive, State, unrecoverable, held, locked, seen, seen_if, Documented,
}
use portage_realtime_tools_e.Mutex.Documented

pub data Holder : Type 0 where
  nobody : Holder
  holds : ℕ → ℕ → Holder  -- which thread, and how often it has locked

pub data Call : Type 0 where
  locks tries unlocks dies : ℕ → Call

-- What a call gives; `waits` if it does not come back, and changes nothing.
pub data Answer : Type 0 where
  waits done : Answer
  tried : Bool → Answer
  failed : Error → Answer

abbrev again : MutexType → ℕ → ℕ → Answer → Holder × Answer
again errorcheck t n granted = (holds t n, failed (deadlock_detected edeadlk))
again recursive t n granted = (holds t (n + 1), granted)

abbrev pub promised : MutexType → Call → Holder → Holder × Answer
promised k (locks t) nobody = (holds t 1, done)
promised k (locks t) (holds u n) = if t == u then again k u n done else (holds u n, waits)
promised k (tries t) nobody = (holds t 1, tried true)
promised k (tries t) (holds u n) =
    if t == u then again k u n (tried true) else (holds u n, tried false)
promised k (unlocks t) nobody = (nobody, done)
promised k (unlocks t) (holds u n) =
    if t == u then if n == 1 then (nobody, done) else (holds u (n - 1), done) else (holds u n, done)
promised k (dies t) nobody = (nobody, done)
promised k (dies t) (holds u n) = if t == u then (nobody, done) else (holds u n, done)

abbrev pub holder : State → Holder
holder (held t n bad) = holds t n
holder _ = nobody

-- Between calls the mutex is not held inconsistent, and never lost.
abbrev pub IsSound : State → Type 0
IsSound (held t n bad) = bad ≡ false
IsSound s = s ≢ unrecoverable

abbrev pub all_promised : MutexType → List Call → Holder → List Answer
all_promised k [] h = []
all_promised k (c ∷ cs) h = let (h', a) = promised k c h in a ∷ all_promised k cs h'

-- The call locks, or tries to lock, an error-checking mutex which its thread holds already.
abbrev pub Relocks : MutexType → Call → Holder → Type 0
Relocks errorcheck (locks t) (holds u n) = t ≡ u
Relocks errorcheck (tries t) (holds u n) = t ≡ u
Relocks _ _ _ = ⊥

promised-failed :
    (k : MutexType) (c : Call) (h : Holder) (e : Error)
    → (promised k c h).1 ≡ failed e
    → Relocks k c h × (e ≡ deadlock_detected edeadlk)
promised-failed errorcheck (locks t) (holds u n) e f = ground arith
promised-failed errorcheck (tries t) (holds u n) e f = ground arith
promised-failed k c h e f = ground arith

module _ (p : Pthread) (k : MutexType) (doc : Documented p k) where
  open doc use {state}

  abbrev answer_lock : p.Native → Option (p.Native × Outcome Unit) → p.Native × Answer
  answer_lock m none = (m, waits)
  answer_lock m (some (m', returns _)) = (m', done)
  answer_lock m (some (m', throws e)) = (m', failed e)

  abbrev answer_try : p.Native × Outcome Bool → p.Native × Answer
  answer_try (m, returns b) = (m, tried b)
  answer_try (m, throws e) = (m, failed e)

  -- What the class does, the end of a thread being that of pthread.
  abbrev pub performed : Call → p.Native → p.Native × Answer
  performed (locks t) m = answer_lock m (lock p t m)
  performed (tries t) m = answer_try (try_lock p t m)
  performed (unlocks t) m = (unlock p t m, done)
  performed (dies t) m = (doc.dies t m, done)

  -- What is to be shown of a call that was made in state `s` and gave `r`.
  abbrev pub Keeps : Call → State → p.Native × Answer → Type 0
  Keeps c s (m, a) =
      IsSound (state m)
      × (holder (state m) ≡ (promised k c (holder s)).0)
      × (a ≡ (promised k c (holder s)).1)

  lock-Keeps :
      (t : ℕ) (m : p.Native) (r : Option (p.Native × Code))
      → IsSound (state m)
      → seen_if state r ≡ locked k t (state m)
      → Keeps (locks t) (state m) (answer_lock m (when_done p r))
  unfolding after_lock
  lock-Keeps t m none s e = ground arith
  lock-Keeps t m (some (m', code)) s e = ground (arith, doc.consistent_repairs m')

  try-Keeps :
      (t : ℕ) (m m' : p.Native) (code : Code)
      → IsSound (state m)
      → seen state (m', code) ≡ Documented.tried k t (state m)
      → Keeps (tries t) (state m) (answer_try (after_trylock p (m', code)))
  unfolding after_trylock
  try-Keeps t m m' code s e = ground (arith, doc.consistent_repairs m')

  pub performed-Keeps :
      (c : Call) (m : p.Native) → IsSound (state m) → Keeps c (state m) (performed c m)
  unfolding lock try_lock unlock
  performed-Keeps (locks t) m s = lock-Keeps t m (p.pthread_mutex_lock t m) s (doc.lock_locks t m)
  performed-Keeps (tries t) m s =
      try-Keeps t m (p.pthread_mutex_trylock t m).0 (p.pthread_mutex_trylock t m).1 s
        (doc.trylock_tries t m)
  performed-Keeps (unlocks t) m s = ground (arith, doc.unlock_unlocks t m)
  performed-Keeps (dies t) m s = ground (arith, doc.dies_orphans t m)

  abbrev pub all_performed : List Call → p.Native → List Answer
  all_performed [] m = []
  all_performed (c ∷ cs) m = let (m', a) = performed c m in a ∷ all_performed cs m'

  -- Over a robust mutex that does what is relied on of pthread, any row of calls by any threads, with
  -- threads that end in between, gives what the lock promises: one holder at most; a thread that
  -- calls `lock` or `try_lock` again is told of the deadlock by an exception, or counted, by the type
  -- of the mutex; a lock that another thread has lets `lock` wait and `try_lock` return false; and when the holder ends, the lock is
  -- free again and the next `lock` or `try_lock` gets it, without an error.
  pub mutex_is_lock :
      (cs : List Call) (m : p.Native)
      → IsSound (state m)
      → all_performed cs m ≡ all_promised k cs (holder (state m))
  mutex_is_lock [] m s = refl
  mutex_is_lock (c ∷ cs) m s =
      let q = performed-Keeps c m s in ground (arith, q, mutex_is_lock cs (performed c m).0 q.0)

  -- Nothing is ever thrown but the deadlock of a thread that calls `lock` or `try_lock` on an
  -- error-checking mutex which it holds already; not when a holder has ended.
  throws_deadlock_only :
      (c : Call) (m : p.Native) (e : Error)
      → IsSound (state m)
      → (performed c m).1 ≡ failed e
      → Relocks k c (holder (state m)) × (e ≡ deadlock_detected edeadlk)
  throws_deadlock_only c m e s h =
      promised-failed k c (holder (state m)) e (ground (arith, performed-Keeps c m s))
