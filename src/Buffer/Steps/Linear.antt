-- ===== src/Buffer/Steps/Linear.antt =====
-- The interleaved threads against the methods as functions: each call takes effect at once, where it
-- takes the lock, or, for a realtime read that is refused, where it reads the pointer.
mod Completed
use portage_realtime_tools_e.Base.{
  ℕ, ◌≡◌, refl, sym, ap, ◌∙◌, ◌≢◌, Bool, true, false, Option, none, some, arith, if◌then◌else◌,
}
use portage_realtime_tools_e.Buffer.{Object, Buffer, content, make}
use portage_realtime_tools_e.Buffer.Register.{Register, Call, register, promised, done-promised}
use portage_realtime_tools_e.Buffer.Steps.{RealtimePc, OtherPc, System, initial, Reach, here, next}
use portage_realtime_tools_e.Buffer.Steps.Invariant.{Inv, Reach-Inv}
use portage_realtime_tools_e.Buffer.Steps.Linear.Completed.{
  completed, call_of, performed, Step-completed, completed-valid, refused-seen,
}

module _ {A : Type 0} where
  -- The register after some calls, of which the newest is the first.
  abbrev pub after_call : Option (Call A) → Register A → Register A
  after_call none r = r
  after_call (some c) r = (promised c r).0

  -- The register after the calls that have taken effect, one after another.
  abbrev pub after_calls : {a : A} {s : System A} → Reach (initial a) s → Register A
  after_calls {a = a} here = record { newest = a; seen = a }
  after_calls (next r st) = after_call (call_of st) (after_calls r)

  performed-register :
      (o : Option (Call A)) (b : Buffer A)
      → b.realtime_data ≢ b.non_realtime_data
      → register (performed o b) ≡ after_call o (register b)
  performed-register none b v = refl
  performed-register (some c) b v = sym (ap (λ x. x.0) (done-promised c b v))

  initial-register : (a : A) → register (make a) ≡ record { newest = a; seen = a }
  unfolding make
  initial-register a = refl

  completed-register :
      (a : A) (s : System A) (r : Reach (initial a) s) → register (completed s) ≡ after_calls r
  completed-register a _ here = initial-register a
  completed-register a t (next {t = s} r st) =
      let inv = Reach-Inv a s r in
      ap register (Step-completed s t inv st)
      ∙ (performed-register (call_of st) (completed s) (completed-valid s.mutex s inv)
          ∙ ap (after_call (call_of st)) (completed-register a s r))

  -- A thread that is about to return the pointer, and whether it saw the newest value.
  pub data Returns (s : System A) : Object → Bool → Type 0 where
    with_lock :
        {p : Object} → s.realtime ≡ RealtimePc.unlocking → s.given ≡ some p → Returns s p true
    without_lock :
        {p : Object}
        → s.realtime ≡ RealtimePc.refused
        → p ≡ s.buffer.realtime_data
        → Returns s p false
    not_realtime : {p : Object} (i : ℕ) → s.others i ≡ OtherPc.looked p → Returns s p true

  Returns-register :
      (s : System A) (p : Object) (b : Bool)
      → Inv s
      → Returns s p b
      → content s.buffer p
        ≡ (if b then (register (completed s)).newest else (register (completed s)).seen)
  Returns-register s p _ inv (with_lock e g) = ground (arith, inv.realtime_owns, inv.realtime_fact)
  Returns-register s p _ inv (without_lock e g) =
      ap (content s.buffer) g ∙ sym (refused-seen s.mutex s inv e)
  Returns-register s p _ inv (not_realtime i e) = ground (arith, inv.other_owns i, inv.other_fact i)

  -- Whatever the threads do, the reads return what a register gives if the calls were made one after
  -- another, each taking effect at one of its own steps: a realtime read that has got the lock, and
  -- `readFromNonRT`, the newest value; a realtime read that is refused, the value that the realtime
  -- side saw last.
  pub reads_linearize :
      (a : A) (s : System A) (r : Reach (initial a) s) (p : Object) (b : Bool)
      → Returns s p b
      → content s.buffer p ≡ (if b then (after_calls r).newest else (after_calls r).seen)
  reads_linearize a s r p b t =
      Returns-register s p b (Reach-Inv a s r) t
      ∙ ap (λ x. if b then x.newest else x.seen) (completed-register a s r)
