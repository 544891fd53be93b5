-- ===== src/Publisher/Examples.antt =====
-- Reachable states by evaluation, and the theorems at them.
use portage_realtime_tools_e.Base.{
  ℕ, zero, suc, ◌≡◌, refl, ◌≢◌, Bool, true, false, Option, none, some, List, [], ◌∷◌, ℕ_discrete,
}
use portage_realtime_tools_e.Publisher.{
  Turn, realtime, non_realtime, Shared, LoopPc, ClientPc, Call, try_publish, stop, loop_step, enter,
  client_step, wake, System, loop_runs, calls, client_runs, notifies, initialize, initial, Reach,
  here, next,
}
use portage_realtime_tools_e.Publisher.Invariant.{push}
use portage_realtime_tools_e.Publisher.Delivery.{will_notify, published_in_order, no_lost_wakeup}
use portage_realtime_tools_e.Publisher.Shutdown.{accepted_after_end_is_lost}

-- Which thread runs next.
data Turns : Type 0 where
  loop : Turns
  call : ℕ → Call ℕ → Turns
  client : ℕ → Turns

record Run : Type 0 where
  last : System ℕ
  reach : Reach (initial 0) last

idle? : (p : ClientPc ℕ) → Option (p ≡ ClientPc.idle)
idle? ClientPc.idle = some refl
idle? _ = none

notifying? : (p : ClientPc ℕ) → Option (p ≡ ClientPc.notifying)
notifying? ClientPc.notifying = some refl
notifying? _ = none

run_step :
    (r : Run) (o : Option (Shared ℕ × LoopPc ℕ)) → loop_step r.last.shared r.last.loop ≡ o → Run
run_step r none e = r
run_step r (some (t, p)) e = record { last = _; reach = next r.reach (loop_runs e) }

run_call :
    (r : Run) (i : ℕ) (c : Call ℕ) (o : Option (Shared ℕ × ClientPc ℕ))
    → Option (r.last.clients i ≡ ClientPc.idle)
    → enter i c r.last.shared ≡ o
    → Run
run_call r i c none f e = r
run_call r i c (some (t, p)) none e = r
run_call r i c (some (t, p)) (some f) e = record { last = _; reach = next r.reach (calls i c f e) }

run_client :
    (r : Run) (i : ℕ) (o : Option (Shared ℕ × ClientPc ℕ))
    → Option (r.last.clients i ≡ ClientPc.notifying)
    → client_step r.last.shared (r.last.clients i) ≡ o
    → Run
run_client r i (some (t, p)) f e = record { last = _; reach = next r.reach (client_runs i e) }
run_client r i none none e = r
run_client r i none (some f) e = record { last = _; reach = next r.reach (notifies i f) }

turn_of : Run → Turns → Run
unfolding idle? notifying? run_step run_call run_client
turn_of r loop = run_step r (loop_step r.last.shared r.last.loop) refl
turn_of r (call i c) = run_call r i c (enter i c r.last.shared) (idle? (r.last.clients i)) refl
turn_of r (client i) =
    run_client r i (client_step r.last.shared (r.last.clients i)) (notifying? (r.last.clients i))
      refl

run_from : Run → List Turns → Run
unfolding turn_of
run_from r [] = r
run_from r (x ∷ xs) = run_from (turn_of r x) xs

abbrev begun : Run
begun = record { last = initial 0; reach = here }

abbrev loops : ℕ → List Turns → List Turns
loops zero xs = xs
loops (suc n) xs = loop ∷ loops n xs

abbrev clients : ℕ → ℕ → List Turns → List Turns
clients i zero xs = xs
clients i (suc n) xs = client i ∷ clients i n xs

-- The publishing thread waits; a message is offered, and its caller has still to notify.
waits_with_message : Run
unfolding run_from loop_step enter client_step initialize ℕ_discrete
waits_with_message = run_from begun (loops 7 (call 3 (try_publish 8) ∷ clients 3 4 []))

-- The same, with the message published.
published_one : Run
unfolding waits_with_message wake
published_one = run_from waits_with_message (client 3 ∷ loops 6 [])

-- The publishing thread has ended by `stop`, called by thread 4.
stopped : Run
unfolding published_one
stopped = run_from published_one (loops 6 (call 4 stop ∷ clients 4 4 (loops 9 [])))

abbrev view :
    System ℕ
    → record { loop : LoopPc ℕ; turn : Turn; accepted : List ℕ; published : List ℕ; running : Bool }
view s = record {
  loop = s.loop;
  turn = s.shared.turn;
  accepted = s.shared.accepted;
  published = s.shared.published;
  running = s.shared.is_running;
}

waits_test : view waits_with_message.last ≡ record {
  loop = LoopPc.waiting;
  turn = non_realtime;
  accepted = 8 ∷ [];
  published = [];
  running = true;
}
unfolding waits_with_message
waits_test = refl

published_test : view published_one.last ≡ record {
  loop = LoopPc.head;
  turn = non_realtime;
  accepted = 8 ∷ [];
  published = 8 ∷ [];
  running = true;
}
unfolding published_one
published_test = refl

stopped_test : view stopped.last ≡ record {
  loop = LoopPc.done;
  turn = realtime;
  accepted = 8 ∷ [];
  published = 8 ∷ [];
  running = false;
}
unfolding stopped
stopped_test = refl

-- Thread 4 holds the mutex, while thread 5 is refused.
holding : Run
unfolding run_from loop_step enter client_step initialize ℕ_discrete
holding = run_from begun (loops 3 (call 4 stop ∷ call 5 (try_publish 1) ∷ []))

published_in_order_example :
    (rest : Option ℕ) × (waits_with_message.last.shared.accepted
      ≡ push rest waits_with_message.last.shared.published)
    × (waits_with_message.last.shared.turn ≢ non_realtime → rest ≡ none)
published_in_order_example = published_in_order 0 waits_with_message.last waits_with_message.reach

no_lost_wakeup_example : (i : ℕ) × (will_notify (waits_with_message.last.clients i) ≡ true)
unfolding waits_with_message
no_lost_wakeup_example = no_lost_wakeup 0 waits_with_message.last waits_with_message.reach refl refl

accepted_after_end_is_lost_example :
    (t : System ℕ) × Reach stopped.last t
    × (t.shared.accepted ≡ 9 ∷ stopped.last.shared.accepted)
    × ((u : System ℕ) → Reach t u → u.shared.published ≡ stopped.last.shared.published)
unfolding stopped
accepted_after_end_is_lost_example = accepted_after_end_is_lost 9 3 stopped.last refl refl refl refl
