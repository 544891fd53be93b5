-- ===== src/Publisher.antt =====
-- realtime_tools/include/realtime_tools/realtime_publisher.hpp: the publishing thread of
-- `RealtimePublisher`, and any number of threads that call `try_publish`, `can_publish` and `stop`.
-- Each access to a shared field, each call on the mutex and on the condition variable, is one step.
-- `accepted` records the messages for which `try_publish` returns true, and `published` those given
-- to `publisher_->publish`, both newest first.
pub mod Invariant
pub mod Delivery
pub mod Shutdown
pub mod Held
pub mod Progress
pub mod Owner
mod Examples
use portage_realtime_tools_e.Base.{
  ℕ, ◌≡◌, Bool, true, false, not, ◌||◌, Option, none, some, List, [], ◌∷◌, update, if◌then◌else◌,
}

-- `enum class State`
pub data Turn : Type 0 where
  realtime non_realtime loop_not_started : Turn

abbrev pub is_realtime : Turn → Bool
is_realtime realtime = true
is_realtime _ = false

abbrev pub is_non_realtime : Turn → Bool
is_non_realtime non_realtime = true
is_non_realtime _ = false

-- Who holds `msg_mutex_`.
pub data Mutex : Type 0 where
  free : Mutex
  by_loop : Mutex
  by_client : ℕ → Mutex

pub record Shared (M : Type 0) : Type 0 where
  pub turn : Turn
  pub keep_running : Bool
  pub is_running : Bool
  pub msg : M
  pub mutex : Mutex
  pub accepted : List M
  pub published : List M

-- Where the publishing thread stands in `publishingLoop`.
pub data LoopPc (M : Type 0) : Type 0 where
  starting : LoopPc M  -- before `is_running_ = true`
  head : LoopPc M  -- the test of the `while`
  ready : LoopPc M  -- before the store of `REALTIME`
  locking : LoopPc M
  testing : LoopPc M  -- the predicate of `wait`, with the mutex held: the test of `turn_`
  testing_stop : LoopPc M  -- its test of `keep_running_`
  blocking : LoopPc M  -- the predicate was false; before `wait` releases the mutex
  waiting : LoopPc M  -- blocked in `wait`, the mutex released
  woken : LoopPc M  -- has to take the mutex again
  copying : LoopPc M
  copied : M → LoopPc M  -- before the mutex is released
  sending : M → LoopPc M  -- the test before `publish`
  publishing : M → LoopPc M
  ending : LoopPc M  -- before `is_running_ = false`
  done : LoopPc M

-- Where a calling thread stands.
pub data ClientPc (M : Type 0) : Type 0 where
  idle : ClientPc M
  probing : ClientPc M  -- `can_publish`, with the mutex held
  offering : M → ClientPc M  -- `try_publish`, with the mutex held, before the test of `turn_`
  writing : M → ClientPc M  -- before `msg_ = msg`
  written : M → ClientPc M  -- before the store of `NON_REALTIME`
  stopping : ClientPc M  -- `stop`, before `keep_running_ = false`
  leaving : ClientPc M  -- before the mutex is released
  notifying : ClientPc M  -- before `notify_one`

pub data Call (M : Type 0) : Type 0 where
  can_publish : Call M
  try_publish : M → Call M
  stop : Call M

module _ {M : Type 0} where
  -- What `initialize` stores before it starts the thread; `msg_` is default-constructed.
  unfoldable pub initialize : M → Shared M
  initialize m = record {
    turn = loop_not_started;
    keep_running = true;
    is_running = false;
    msg = m;
    mutex = free;
    accepted = [];
    published = [];
  }

  -- `turn_ == State::NON_REALTIME || !keep_running_`
  abbrev pub may_wake : Shared M → Bool
  may_wake s = is_non_realtime s.turn || not s.keep_running

  -- A thread that asks for the mutex waits while another has it.
  abbrev acquire : {P : Type 0} → Mutex → Mutex → Shared M → P → Option (Shared M × P)
  acquire free owner s p = some (record s { mutex = owner }, p)
  acquire _ owner s p = none

  -- One step of `publishingLoop`; `none` while the thread is blocked, or has ended.
  unfoldable pub loop_step : Shared M → LoopPc M → Option (Shared M × LoopPc M)
  loop_step s starting = some (record s { is_running = true }, head)
  loop_step s head = some (s, if s.keep_running then ready else ending)
  loop_step s ready = some (record s { turn = realtime }, locking)
  loop_step s locking = acquire s.mutex by_loop s testing
  loop_step s testing = some (s, if is_non_realtime s.turn then copying else testing_stop)
  loop_step s testing_stop = some (s, if s.keep_running then blocking else copying)
  loop_step s blocking = some (record s { mutex = free }, waiting)
  loop_step s waiting = none
  loop_step s woken = acquire s.mutex by_loop s testing
  loop_step s copying = some (s, copied s.msg)
  loop_step s (copied m) = some (record s { mutex = free }, sending m)
  loop_step s (sending m) = some (s, if s.keep_running then publishing m else head)
  loop_step s (publishing m) = some (record s { published = m ∷ s.published }, head)
  loop_step s ending = some (record s { is_running = false }, done)
  loop_step s done = none

  -- `try_to_lock`: the call returns false at once if the mutex is taken.
  abbrev try_lock : Mutex → ℕ → Shared M → ClientPc M → Option (Shared M × ClientPc M)
  try_lock free i s p = some (record s { mutex = by_client i }, p)
  try_lock _ i s p = some (s, idle)

  -- The first step of a call of thread `i`: it takes the mutex.
  unfoldable pub enter : ℕ → Call M → Shared M → Option (Shared M × ClientPc M)
  enter i can_publish s = try_lock s.mutex i s probing
  enter i (try_publish m) s = try_lock s.mutex i s (offering m)
  enter i stop s = acquire s.mutex (by_client i) s stopping

  -- The later steps but the last, of `try_publish`, `can_publish` and `stop`.
  unfoldable pub client_step : Shared M → ClientPc M → Option (Shared M × ClientPc M)
  client_step s idle = none
  client_step s probing = some (record s { mutex = free }, idle)
  client_step s (offering m) =
      some (if is_realtime s.turn then (s, writing m) else (record s { mutex = free }, idle))
  client_step s (writing m) = some (record s { msg = m }, written m)
  client_step s (written m) =
      some (record s { turn = non_realtime; accepted = m ∷ s.accepted }, leaving)
  client_step s stopping = some (record s { keep_running = false }, leaving)
  client_step s leaving = some (record s { mutex = free }, notifying)
  client_step s notifying = none

  -- `notify_one`: the publishing thread is the only one that ever waits.
  unfoldable pub wake : LoopPc M → LoopPc M
  wake waiting = woken
  wake p = p

pub record System (M : Type 0) : Type 0 where
  pub shared : Shared M
  pub loop : LoopPc M
  pub clients : ℕ → ClientPc M

-- The state in which `initialize` starts the thread.
abbrev pub initial : {M : Type 0} → M → System M
initial m = record { shared = initialize m; loop = starting; clients = λ i. idle }

-- One step of some thread. A wait may also end with no notification.
pub data Step {M : Type 0} (s : System M) : System M → Type 0 where
  loop_runs :
      {t : Shared M} {p : LoopPc M}
      → loop_step s.shared s.loop ≡ some (t, p)
      → Step s (record s { shared = t; loop = p })
  wakes_up : s.loop ≡ waiting → Step s (record s { loop = woken })
  calls :
      (i : ℕ) (c : Call M) {t : Shared M} {p : ClientPc M}
      → s.clients i ≡ idle
      → enter i c s.shared ≡ some (t, p)
      → Step s (record s { shared = t; clients = update s.clients i p })
  client_runs :
      (i : ℕ) {t : Shared M} {p : ClientPc M}
      → client_step s.shared (s.clients i) ≡ some (t, p)
      → Step s (record s { shared = t; clients = update s.clients i p })
  notifies :
      (i : ℕ)
      → s.clients i ≡ notifying
      → Step s (record s { loop = wake s.loop; clients = update s.clients i idle })

pub data Reach {M : Type 0} (s : System M) : System M → Type 0 where
  here : Reach s s
  next : {t u : System M} → Reach s t → Step t u → Reach s u
