-- ===== src/Buffer/Steps/Linear/Completed.antt =====
-- The buffer as the holder of the mutex will leave it, and what each step does to it.
use portage_realtime_tools_e.Base.{
  ℕ, ◌≡◌, refl, ◌≢◌, true, false, Option, none, some, update, arith, if◌then◌else◌,
}
use portage_realtime_tools_e.Buffer.{Buffer, content, assign, read_from_rt, write_from_non_rt}
use portage_realtime_tools_e.Buffer.Register.{Call, read_rt, read_non_rt, write, done}
use portage_realtime_tools_e.Buffer.Steps.{
  Mutex, free, by_realtime, by_other, RealtimePc, OtherPc, System, realtime_step, other_step, Step,
  realtime_runs, writes, reads, other_runs,
}
use portage_realtime_tools_e.Buffer.Steps.Invariant.{OtherFact, Inv}

module _ {A : Type 0} where
  -- The buffer as the realtime thread will leave it.
  abbrev realtime_completed : RealtimePc → Buffer A → Buffer A
  realtime_completed RealtimePc.testing b =
      if b.new_data_available
      then record b {
        realtime_data = b.non_realtime_data;
        non_realtime_data = b.realtime_data;
        new_data_available = false;
      }
      else b
  realtime_completed RealtimePc.swapping b = record b {
    realtime_data = b.non_realtime_data;
    non_realtime_data = b.realtime_data;
    new_data_available = false;
  }
  realtime_completed RealtimePc.clearing b = record b { new_data_available = false }
  realtime_completed _ b = b

  -- The buffer as another thread will leave it.
  abbrev other_completed : OtherPc A → Buffer A → Buffer A
  other_completed (OtherPc.pointing a) b = record (assign b.non_realtime_data a b) {
    new_data_available = true;
  }
  other_completed (OtherPc.storing p a) b = record (assign p a b) { new_data_available = true }
  other_completed (OtherPc.flagging a) b = record b { new_data_available = true }
  other_completed _ b = b

  -- The buffer as the holder of the mutex will leave it.
  abbrev pub completed_by : Mutex → System A → Buffer A
  completed_by free s = s.buffer
  completed_by by_realtime s = realtime_completed s.realtime s.buffer
  completed_by (by_other i) s = other_completed (s.others i) s.buffer

  abbrev pub completed : System A → Buffer A
  completed s = completed_by s.mutex s

  -- The call that takes effect with a step of the realtime thread.
  abbrev realtime_call : RealtimePc → Mutex → Option (Call A)
  realtime_call RealtimePc.away free = some (read_rt true)
  realtime_call RealtimePc.refused m = some (read_rt false)
  realtime_call _ m = none

  abbrev other_call : OtherPc A → Option (Call A)
  other_call (OtherPc.write_locking a) = some (write a)
  other_call OtherPc.read_locking = some read_non_rt
  other_call _ = none

  abbrev pub call_of : {s t : System A} → Step s t → Option (Call A)
  call_of {s = s} realtime_runs = realtime_call s.realtime s.mutex
  call_of (writes i a e) = none
  call_of (reads i e) = none
  call_of {s = s} (other_runs i e) = other_call (s.others i)

  abbrev pub performed : Option (Call A) → Buffer A → Buffer A
  performed none b = b
  performed (some c) b = (done c b).0

  realtime-completed :
      (p : RealtimePc) (m : Mutex) (s : System A)
      → Inv s
      → s.realtime ≡ p
      → s.mutex ≡ m
      → completed (realtime_step p s) ≡ performed (realtime_call p m) (completed s)
  unfolding realtime_step read_from_rt
  realtime-completed RealtimePc.away free s inv e f = ground (arith, inv.realtime_owns)
  realtime-completed p m s inv e f = ground (arith, inv.realtime_owns)

  other-completed :
      (i : ℕ) (q : OtherPc A) (s : System A) {t : System A} {p : OtherPc A}
      → Inv s
      → s.others i ≡ q
      → other_step i q s ≡ some (t, p)
      → completed (record t { others = update s.others i p })
        ≡ performed (other_call q) (completed s)
  unfolding other_step write_from_non_rt
  other-completed i OtherPc.idle s inv e h = ground arith
  other-completed i q s inv e h = ground (arith, inv.other_owns i, inv.other_fact i)

  begin-completed :
      (m : Mutex) (i : ℕ) (p : OtherPc A) (s : System A)
      → s.others i ≡ OtherPc.idle
      → ((b : Buffer A) → other_completed p b ≡ b)
      → completed_by m (record s { others = update s.others i p }) ≡ completed_by m s
  begin-completed free i p s e f = refl
  begin-completed by_realtime i p s e f = refl
  begin-completed (by_other j) i p s e f = ground (arith, f s.buffer)

  pub Step-completed :
      (s t : System A)
      → Inv s
      → (st : Step s t) → completed t ≡ performed (call_of st) (completed s)
  Step-completed s _ inv realtime_runs = realtime-completed s.realtime s.mutex s inv refl refl
  Step-completed s _ inv (writes i a e) =
      begin-completed s.mutex i (OtherPc.write_locking a) s e (λ b. refl)
  Step-completed s _ inv (reads i e) =
      begin-completed s.mutex i OtherPc.read_locking s e (λ b. refl)
  Step-completed s _ inv (other_runs i e) = other-completed i (s.others i) s inv refl e

  other-seen :
      (q : OtherPc A) (b : Buffer A) (a : A)
      → b.realtime_data ≢ b.non_realtime_data
      → OtherFact q b a
      → (content (other_completed q b) (other_completed q b).realtime_data
          ≡ content b b.realtime_data)
        × ((other_completed q b).realtime_data ≢ (other_completed q b).non_realtime_data)
  other-seen (OtherPc.pointing v) b a n f = ground arith
  other-seen (OtherPc.storing p v) b a n f = ground arith
  other-seen q b a n f = ground arith

  realtime-valid :
      (p : RealtimePc) (b : Buffer A)
      → b.realtime_data ≢ b.non_realtime_data
      → (realtime_completed p b).realtime_data ≢ (realtime_completed p b).non_realtime_data
  realtime-valid RealtimePc.testing b n = ground arith
  realtime-valid p b n = ground arith

  pub completed-valid :
      (m : Mutex) (s : System A)
      → Inv s
      → (completed_by m s).realtime_data ≢ (completed_by m s).non_realtime_data
  completed-valid free s inv = inv.two_objects
  completed-valid by_realtime s inv = realtime-valid s.realtime s.buffer inv.two_objects
  completed-valid (by_other i) s inv =
      (other-seen (s.others i) s.buffer s.newest inv.two_objects (inv.other_fact i)).1

  pub refused-seen :
      (m : Mutex) (s : System A)
      → Inv s
      → s.realtime ≡ RealtimePc.refused
      → content (completed_by m s) (completed_by m s).realtime_data
        ≡ content s.buffer s.buffer.realtime_data
  refused-seen free s inv e = refl
  refused-seen by_realtime s inv e = ground arith
  refused-seen (by_other i) s inv e =
      (other-seen (s.others i) s.buffer s.newest inv.two_objects (inv.other_fact i)).0
