-- ===== src/Mutex/Setup.antt =====
-- The constructor and the destructor of `detail::mutex`, over the functions of pthread.
use portage_realtime_tools_e.Base.{◌≡◌, Option, none, some, arith}
use portage_realtime_tools_e.Mutex.{Code, ok}
use portage_realtime_tools_e.Mutex.Documented.{MutexType}

-- `stalled_robustness_t` and `robust_robustness_t`, on Linux.
pub data Robustness : Type 0 where
  stalled robust : Robustness

-- The functions that the constructor calls; the protocol that it sets is PTHREAD_PRIO_INHERIT.
pub record Attributes : Type 1 where
  pub Attr : Type 0
  pub Native : Type 0
  pub pthread_mutexattr_init : Attr × Code
  pub pthread_mutexattr_settype : MutexType → Attr → Attr × Code
  pub pthread_mutexattr_setprotocol_inherit : Attr → Attr × Code
  pub pthread_mutexattr_setrobust : Robustness → Attr → Attr × Code
  pub pthread_mutex_init : Attr → Native × Code
  pub pthread_mutexattr_destroy : Attr → Code
  pub pthread_mutex_destroy : Native → Code

-- Which of the calls failed, by the text of the exception.
pub data Stage : Type 0 where
  attribute_init mutex_type mutex_protocol mutex_robustness mutex_init : Stage

-- The mutex, an exception, or the end of the program: the deleter of the attributes throws while a
-- `unique_ptr` is destroyed, which is not allowed to throw.
pub data Made (N : Type 0) : Type 0 where
  makes : N → Made N
  fails : Stage → Code → Made N
  terminates : Made N

module _ (a : Attributes) where
  open a use {Attr, Native}

  abbrev attempt : Stage → (Attr → Attr × Made Native) → Attr × Code → Attr × Made Native
  attempt stage rest (attr, ok) = rest attr
  attempt stage rest (attr, code) = (attr, fails stage code)

  abbrev initialized : Attr → Native × Code → Attr × Made Native
  initialized attr (m, ok) = (attr, makes m)
  initialized attr (m, code) = (attr, fails mutex_init code)

  abbrev destroyed : Code → Made Native → Made Native
  destroyed ok made = made
  destroyed code made = terminates

  -- The attributes are destroyed on every way out.
  abbrev cleaned_up : Attr × Made Native → Made Native
  cleaned_up (attr, made) = destroyed (a.pthread_mutexattr_destroy attr) made

  -- `mutex()`
  unfoldable pub make : MutexType → Robustness → Made Native
  make type robustness = cleaned_up (
      attempt attribute_init
        (λ attr.
          attempt mutex_type
            (λ typed.
              attempt mutex_protocol
                (λ inheriting.
                  attempt mutex_robustness (λ ready. initialized ready (a.pthread_mutex_init ready))
                    (a.pthread_mutexattr_setrobust robustness inheriting))
                (a.pthread_mutexattr_setprotocol_inherit typed))
            (a.pthread_mutexattr_settype type attr))
        a.pthread_mutexattr_init)

  abbrev reported : Code → Option Code
  reported ok = none
  reported code = some code

  -- `~mutex()`, with the failure that it reports on std::cerr.
  unfoldable pub destroy : Native → Option Code
  destroy m = reported (a.pthread_mutex_destroy m)

  -- A mutex that is constructed has been given its type, the priority inheritance protocol and its
  -- robustness, and every call has succeeded.
  make-installs :
      (type : MutexType) (robustness : Robustness) (m : Native)
      → make type robustness ≡ makes m
      → let attr = a.pthread_mutexattr_init in
        let typed = a.pthread_mutexattr_settype type attr.0 in
        let inheriting = a.pthread_mutexattr_setprotocol_inherit typed.0 in
        let ready = a.pthread_mutexattr_setrobust robustness inheriting.0 in
        (a.pthread_mutex_init ready.0 ≡ (m, ok))
        × (attr.1 ≡ ok)
        × (typed.1 ≡ ok)
        × (inheriting.1 ≡ ok)
        × (ready.1 ≡ ok)
        × (a.pthread_mutexattr_destroy ready.0 ≡ ok)
  unfolding make
  make-installs type robustness m h = ground arith
