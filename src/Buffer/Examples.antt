-- ===== src/Buffer/Examples.antt =====
-- Runs of the buffer by evaluation, and the theorems at them.
use portage_realtime_tools_e.Base.{
  ℕ, ◌≡◌, refl, ◌≢◌, true, false, Option, none, some, List, [], ◌∷◌, ℕ_discrete, if◌then◌else◌,
}
use portage_realtime_tools_e.Buffer.{
  Buffer, one, two, content, make, read_from_rt, read_from_non_rt, write_from_non_rt, copy_from,
}
use portage_realtime_tools_e.Buffer.Register.{
  Call, read_rt, read_non_rt, write, assign_from, register, all_done, all_promised,
  buffer_is_register,
}
use portage_realtime_tools_e.Buffer.Steps.{
  OtherPc, System, initial, realtime_step, other_step, realtime_runs, writes, reads, other_runs,
  Reach, here, next,
}
use portage_realtime_tools_e.Buffer.Steps.Safety.{no_race}
use portage_realtime_tools_e.Buffer.Steps.Linear.{with_lock, after_calls, reads_linearize}

abbrev calls : List (Call ℕ)
calls =
    write 4
    ∷ read_rt false
    ∷ read_rt true
    ∷ write 5
    ∷ read_non_rt
    ∷ read_rt false
    ∷ assign_from (some (make 9))
    ∷ read_rt true
    ∷ []

calls_test :
    all_done calls (make 0) ≡ none ∷ some 0 ∷ some 4 ∷ none ∷ some 5 ∷ some 4 ∷ none ∷ some 9 ∷ []
unfolding make read_from_rt read_from_non_rt write_from_non_rt copy_from
calls_test = refl

buffer_is_register_example : all_done calls (make 0) ≡ all_promised calls (register (make 0))
unfolding make
buffer_is_register_example = buffer_is_register calls (make 0) (λ e. cc)

abbrev written : Buffer ℕ
written = record {
  at_one = 7;
  at_two = 3;
  realtime_data = two;
  non_realtime_data = one;
  new_data_available = true;
}

-- Which thread runs next.
data Turns : Type 0 where
  realtime : Turns
  begin_write : ℕ → ℕ → Turns
  begin_read : ℕ → Turns
  other : ℕ → Turns

record Run : Type 0 where
  last : System ℕ
  reach : Reach (initial 0) last

idle? : (p : OtherPc ℕ) → Option (p ≡ OtherPc.idle)
idle? OtherPc.idle = some refl
idle? _ = none

run_write : (r : Run) (i a : ℕ) → Option (r.last.others i ≡ OtherPc.idle) → Run
run_write r i a none = r
run_write r i a (some e) = record { last = _; reach = next r.reach (writes i a e) }

run_read : (r : Run) (i : ℕ) → Option (r.last.others i ≡ OtherPc.idle) → Run
run_read r i none = r
run_read r i (some e) = record { last = _; reach = next r.reach (reads i e) }

run_thread :
    (r : Run) (i : ℕ) (o : Option (System ℕ × OtherPc ℕ))
    → other_step i (r.last.others i) r.last ≡ o
    → Run
run_thread r i none e = r
run_thread r i (some (t, p)) e = record { last = _; reach = next r.reach (other_runs i e) }

turn_of : Run → Turns → Run
unfolding idle? run_write run_read run_thread
turn_of r realtime = record { last = _; reach = next r.reach realtime_runs }
turn_of r (begin_write i a) = run_write r i a (idle? (r.last.others i))
turn_of r (begin_read i) = run_read r i (idle? (r.last.others i))
turn_of r (other i) = run_thread r i (other_step i (r.last.others i) r.last) refl

run_from : Run → List Turns → Run
unfolding turn_of
run_from r [] = r
run_from r (t ∷ ts) = run_from (turn_of r t) ts

-- The realtime thread has read; then thread 3 is about to store 6.
storing_6 : Run
unfolding run_from realtime_step other_step make ℕ_discrete
storing_6 =
    run_from (record { last = initial 0; reach = here })
      (realtime ∷ realtime ∷ realtime ∷ realtime ∷ begin_write 3 6 ∷ other 3 ∷ other 3 ∷ [])

-- Thread 3 goes on to the end, and the realtime thread reads 6 with the lock.
reading_6 : Run
unfolding storing_6
reading_6 =
    run_from storing_6
      (other 3 ∷ other 3 ∷ other 3 ∷ realtime ∷ realtime ∷ realtime ∷ realtime ∷ realtime ∷ [])

no_race_example : two ≢ one
unfolding storing_6
no_race_example = no_race 0 storing_6.last storing_6.reach two one 3 6 refl refl

reads_linearize_example :
    content reading_6.last.buffer one
    ≡ (if true then (after_calls reading_6.reach).newest else (after_calls reading_6.reach).seen)
unfolding reading_6
reads_linearize_example =
    reads_linearize 0 reading_6.last reading_6.reach one true (with_lock refl refl)

-- The calls of `reading_6` took effect: a read of the initial value, a write, and a read of 6.
after_calls_test : after_calls reading_6.reach ≡ record { newest = 6; seen = 6 }
unfolding reading_6
after_calls_test = refl

abbrev idle_system : System ℕ
idle_system = record (initial 0) { buffer = written }
