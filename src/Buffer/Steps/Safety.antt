-- ===== src/Buffer/Steps/Safety.antt =====
-- What the threads may rely on: the pointers that the two reads return, and the mutex.
use portage_realtime_tools_e.Base.{ℕ, ◌≡◌, refl, ◌≢◌, ◌⊎◌, true, false, some, arith}
use portage_realtime_tools_e.Buffer.{Object, content}
use portage_realtime_tools_e.Buffer.Steps.{
  RealtimePc, OtherPc, System, initial, realtime_step, other_step, Step, realtime_runs, writes,
  reads, other_runs, Reach,
}
use portage_realtime_tools_e.Buffer.Steps.Invariant.{realtime_holds, other_holds, Inv, Reach-Inv}

module _ {A : Type 0} where
  -- The object that the realtime thread was given by its last `readFromRT`, until it calls again, is
  -- never the one that another thread is writing to.
  pub no_race :
      (a : A) (s : System A)
      → Reach (initial a) s
      → (p q : Object) (i : ℕ) (v : A) → s.given ≡ some p
      → s.others i ≡ OtherPc.storing q v
      → p ≢ q
  no_race a s r p q i v g o = λ e.
      let inv = Reach-Inv a s r in
      ground (arith, inv.given_realtime p, inv.other_fact i, inv.two_objects)

  other_step-given :
      (i : ℕ) (q : OtherPc A) (s : System A) {t : System A} {c : OtherPc A} (p : Object)
      → Inv s
      → s.others i ≡ q
      → s.given ≡ some p
      → other_step i q s ≡ some (t, c)
      → (t.given ≡ some p) × (content t.buffer p ≡ content s.buffer p)
  unfolding other_step
  other_step-given i OtherPc.idle s p inv e g h = ground arith
  other_step-given i q s p inv e g h =
      ground (arith, inv.given_realtime p, inv.other_fact i, inv.two_objects)

  realtime_step-given :
      (c : RealtimePc) (s : System A) (p q : Object)
      → Inv s
      → s.realtime ≡ c
      → s.given ≡ some p
      → (realtime_step c s).given ≡ some q
      → (q ≡ p) × (content (realtime_step c s).buffer p ≡ content s.buffer p)
  unfolding realtime_step
  realtime_step-given RealtimePc.away s p q inv e g h = ground arith
  realtime_step-given c s p q inv e g h = ground (arith, inv.not_given)

  -- Until the realtime thread calls `readFromRT` again, no step of any thread changes the pointer
  -- that it was given, or the value behind it.
  given_is_stable :
      (a : A) (s t : System A)
      → Reach (initial a) s
      → Step s t
      → (p q : Object) → s.given ≡ some p
      → t.given ≡ some q
      → (q ≡ p) × (content t.buffer p ≡ content s.buffer p)
  given_is_stable a s _ r realtime_runs p q g h =
      realtime_step-given s.realtime s p q (Reach-Inv a s r) refl g h
  given_is_stable a s _ r (writes i v f) p q g h = ground arith
  given_is_stable a s _ r (reads i f) p q g h = ground arith
  given_is_stable a s _ r (other_runs i f) p q g h =
      ground (arith, other_step-given i (s.others i) s p (Reach-Inv a s r) refl g f)

  -- When `readFromRT` has got the lock, the pointer that it is about to return leads to the value
  -- whose write was finished last; and so does the one that `readFromNonRT` returns, whenever it runs.
  reads_are_newest :
      (a : A) (s : System A)
      → Reach (initial a) s
      → (p : Object) (i : ℕ)
      → (s.realtime ≡ RealtimePc.unlocking) × (s.given ≡ some p) ⊎ (s.others i ≡ OtherPc.looked p)
      → content s.buffer p ≡ s.newest
  reads_are_newest a s r p i h =
      let inv = Reach-Inv a s r in ground (arith, inv.realtime_fact, inv.other_fact i)

  -- No two threads are between taking and releasing the mutex: neither two of the others, nor one of
  -- them and the realtime thread.
  buffer_exclusion :
      (a : A) (s : System A)
      → Reach (initial a) s
      → (i j : ℕ) → other_holds (s.others i) ≡ true
      → (realtime_holds s.realtime ≡ false) × (other_holds (s.others j) ≡ true → i ≡ j)
  buffer_exclusion a s r i j h =
      let inv = Reach-Inv a s r in
      (
        ground (arith, inv.realtime_owns, inv.other_owns i),
        λ k. ground (arith, inv.other_owns i, inv.other_owns j),
      )
