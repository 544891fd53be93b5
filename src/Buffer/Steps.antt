-- ===== src/Buffer/Steps.antt =====
-- The buffer under threads: the realtime thread calls `readFromRT`, any number of others call
-- `readFromNonRT` and `writeFromNonRT`. Each access to a member and each call on the mutex is one
-- step, but the swap of the two pointers. `newest` records the value whose write was finished last,
-- `given` the pointer that the realtime thread was given last.
pub mod Invariant
pub mod Safety
pub mod Linear
use portage_realtime_tools_e.Base.{ℕ, ◌≡◌, true, false, Option, none, some, update, if◌then◌else◌}
use portage_realtime_tools_e.Buffer.{Object, Buffer, assign, make}

-- Who holds `mutex_`.
pub data Mutex : Type 0 where
  free by_realtime : Mutex
  by_other : ℕ → Mutex

-- Where the realtime thread stands in `readFromRT`.
pub data RealtimePc : Type 0 where
  away : RealtimePc
  testing : RealtimePc  -- the lock is owned, before the test of the flag
  swapping : RealtimePc
  clearing : RealtimePc  -- before the flag is cleared
  reading : RealtimePc  -- before `realtime_data_` is read, with the lock
  unlocking : RealtimePc
  refused : RealtimePc  -- before `realtime_data_` is read, without the lock

-- Where another thread stands.
pub data OtherPc (A : Type 0) : Type 0 where
  idle : OtherPc A
  -- `writeFromNonRT`: the lock, the pointer, the assignment through it, the flag, the end
  write_locking : A → OtherPc A
  pointing : A → OtherPc A
  storing : Object → A → OtherPc A
  flagging : A → OtherPc A
  other_unlocking : OtherPc A
  -- `readFromNonRT`
  read_locking : OtherPc A
  looking : OtherPc A
  looked : Object → OtherPc A

pub record System (A : Type 0) : Type 0 where
  pub buffer : Buffer A
  pub mutex : Mutex
  pub newest : A
  pub given : Option Object
  pub realtime : RealtimePc
  pub others : ℕ → OtherPc A

module _ {A : Type 0} where
  abbrev pub initial : A → System A
  initial a = record {
    buffer = make a;
    mutex = free;
    newest = a;
    given = none;
    realtime = away;
    others = λ i. idle;
  }

  abbrev try_lock : Mutex → System A → System A
  try_lock free s = record s { mutex = by_realtime; given = none; realtime = testing }
  try_lock _ s = record s { given = none; realtime = refused }

  -- One step of the realtime thread. While it is away, it is the begin of a call.
  unfoldable pub realtime_step : RealtimePc → System A → System A
  realtime_step away s = try_lock s.mutex s
  realtime_step testing s = record s {
    realtime = if s.buffer.new_data_available then swapping else reading;
  }
  realtime_step swapping s = record s {
    buffer = record s.buffer {
      realtime_data = s.buffer.non_realtime_data;
      non_realtime_data = s.buffer.realtime_data;
    };
    realtime = clearing;
  }
  realtime_step clearing s = record s {
    buffer = record s.buffer { new_data_available = false };
    realtime = reading;
  }
  realtime_step reading s = record s { given = some s.buffer.realtime_data; realtime = unlocking }
  realtime_step unlocking s = record s { mutex = free; realtime = away }
  realtime_step refused s = record s { given = some s.buffer.realtime_data; realtime = away }

  abbrev acquire : Mutex → ℕ → OtherPc A → System A → Option (System A × OtherPc A)
  acquire free i p s = some (record s { mutex = by_other i }, p)
  acquire _ i p s = none

  -- One step of thread `i` in a call; `none` while it is blocked, or outside of a call.
  unfoldable pub other_step : ℕ → OtherPc A → System A → Option (System A × OtherPc A)
  other_step i idle s = none
  other_step i (write_locking a) s = acquire s.mutex i (pointing a) s
  other_step i (pointing a) s = some (s, storing s.buffer.non_realtime_data a)
  other_step i (storing p a) s = some (record s { buffer = assign p a s.buffer }, flagging a)
  other_step i (flagging a) s = some (
    record s { buffer = record s.buffer { new_data_available = true }; newest = a },
    other_unlocking,
  )
  other_step i other_unlocking s = some (record s { mutex = free }, idle)
  other_step i read_locking s = acquire s.mutex i looking s
  other_step i looking s = some (
    s,
    looked (
        if s.buffer.new_data_available then s.buffer.non_realtime_data else s.buffer.realtime_data),
  )
  other_step i (looked p) s = some (record s { mutex = free }, idle)

-- One step of some thread.
pub data Step {A : Type 0} (s : System A) : System A → Type 0 where
  realtime_runs : Step s (realtime_step s.realtime s)
  writes :
      (i : ℕ) (a : A)
      → s.others i ≡ idle
      → Step s (record s { others = update s.others i (write_locking a) })
  reads :
      (i : ℕ) → s.others i ≡ idle → Step s (record s { others = update s.others i read_locking })
  other_runs :
      (i : ℕ) {t : System A} {p : OtherPc A}
      → other_step i (s.others i) s ≡ some (t, p)
      → Step s (record t { others = update s.others i p })

pub data Reach {A : Type 0} (s : System A) : System A → Type 0 where
  here : Reach s s
  next : {t u : System A} → Reach s t → Step t u → Reach s u
