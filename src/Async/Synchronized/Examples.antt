-- ===== src/Async/Synchronized/Examples.antt =====
-- Reachable states by evaluation, and the theorems at them.
mod Runs
mod Rethrown
mod Places
mod Executed
use portage_realtime_tools_e.Base.{
  ℕ, ◌≡◌, refl, Bool, true, false, some, List, [], ◌∷◌, ℕ_discrete, update,
}
use portage_realtime_tools_e.Async.Handler.{is_initialized}
use portage_realtime_tools_e.Async.Synchronized.{
  WorkerPc, ClientPc, value, trigger_async_callback, wait_for_trigger_cycle_to_finish, stop_thread,
  worker_step, enter, client_step, wake, wake_waiter, System, client_wakes_up, stop_notifies,
}
use portage_realtime_tools_e.Async.Synchronized.Invariant.{Serves, Cycle}
use portage_realtime_tools_e.Async.Synchronized.Cycles.{
  will_notify, executed_in_order, no_lost_trigger,
}
use portage_realtime_tools_e.Async.Synchronized.CycleEnd.{
  stays, goes, will_announce, no_lost_cycle_end,
}
use portage_realtime_tools_e.Async.Synchronized.Stranded.{in_wait, stop_strands_waiter}
use portage_realtime_tools_e.Async.Synchronized.Shutdown.{stop_thread_ends}
use portage_realtime_tools_e.Async.Synchronized.Shutdown
use portage_realtime_tools_e.Async.Synchronized.Examples.Runs.{
  types, handler, handler-IsFresh, Run, worker, call, client, run_from, begun, workers, clients,
}

-- The worker waits; thread 2 has triggered a cycle, and has still to notify.
waits_with_cycle : Run
unfolding run_from worker_step enter client_step is_initialized ℕ_discrete
waits_with_cycle =
    run_from begun (workers 5 (call 2 (trigger_async_callback 100 10) ∷ clients 2 6 []))

-- The worker is about to call the callback.
about_to_call : Run
unfolding waits_with_cycle wake
about_to_call = run_from waits_with_cycle (client 2 ∷ workers 3 [])

-- The cycle is over.
cycle_over : Run
unfolding about_to_call wake_waiter
cycle_over = run_from about_to_call (workers 6 [])

-- Thread 6 waits for the end of the cycle, which the worker is about to announce.
awaited : Run
unfolding waits_with_cycle wake
awaited =
    run_from waits_with_cycle
      (call 6 wait_for_trigger_cycle_to_finish ∷ clients 6 3 (client 2 ∷ workers 7 []))

-- Thread 2 triggers a second cycle, thread 6 waits for its end, and thread 5 stops the worker, which
-- is at the head of its loop.
stranded : Run
unfolding cycle_over
stranded = run_from cycle_over (
    client 2
    ∷ client 2
    ∷ call 2 (trigger_async_callback 200 10)
    ∷ clients 2 7 (
        call 6 wait_for_trigger_cycle_to_finish
        ∷ clients 6 3 (call 5 stop_thread ∷ client 5 ∷ worker ∷ [])))

abbrev View : Type 0
View = record {
  worker : WorkerPc types;
  in_progress : Bool;
  triggered : List (Cycle types);
  executed : List (Cycle types);
  result : ℕ;
}

abbrev view : System types → View
view s = record {
  worker = s.worker;
  in_progress = s.handler.trigger_in_progress;
  triggered = s.handler.triggered;
  executed = s.handler.executed;
  result = s.handler.async_callback_return;
}

waits_test : view waits_with_cycle.last ≡ record {
  worker = WorkerPc.waiting;
  in_progress = true;
  triggered = (some 100, 10) ∷ [];
  executed = [];
  result = 0;
}
unfolding waits_with_cycle
waits_test = refl

cycle_over_test : view cycle_over.last ≡ record {
  worker = WorkerPc.head;
  in_progress = false;
  triggered = (some 100, 10) ∷ [];
  executed = (some 100, 10) ∷ [];
  result = 7;
}
unfolding cycle_over
cycle_over_test = refl

executed_in_order_example :
    Serves cycle_over.last.handler.executed cycle_over.last.handler.triggered
executed_in_order_example =
    executed_in_order 0 0 handler cycle_over.last handler-IsFresh cycle_over.reach

no_lost_trigger_example : (i : ℕ) × (will_notify (waits_with_cycle.last.clients i) ≡ true)
unfolding waits_with_cycle
no_lost_trigger_example =
    no_lost_trigger 0 0 handler waits_with_cycle.last handler-IsFresh waits_with_cycle.reach refl
      refl

stranded_test :
    (stranded.last.worker ≡ WorkerPc.finished)
    × (stranded.last.clients 6 ≡ ClientPc.wait_blocked)
    × (stranded.last.handler.trigger_in_progress ≡ true)
unfolding stranded
stranded_test = (refl, refl, refl)

no_lost_cycle_end_example : will_announce awaited.last.worker ≡ true
unfolding awaited
no_lost_cycle_end_example =
    no_lost_cycle_end 0 0 handler awaited.last handler-IsFresh awaited.undisturbed 6 refl refl

-- Thread 6 wakes up with no notification.
abbrev woken_up : System types
woken_up = record stranded.last { clients = update stranded.last.clients 6 ClientPc.wait_woken }

stop_strands_waiter_example : in_wait (woken_up.clients 6) ≡ true
unfolding stranded
stop_strands_waiter_example =
    stop_strands_waiter 0 0 6 stranded.last woken_up refl refl refl
      (goes stays (client_wakes_up 6 refl) (λ e. e))

-- The worker is blocked, and thread 5 has called `stop_thread` and has still to notify it.
stopping : Run
unfolding run_from worker_step enter client_step ℕ_discrete
stopping = run_from begun (workers 5 (call 5 stop_thread ∷ clients 5 3 []))

-- Thread 5 has notified the worker, and waits for it to end.
abbrev joining : System types
joining = record stopping.last {
  worker = wake stopping.last.worker;
  clients = update stopping.last.clients 5 ClientPc.joining;
}

joining_test : joining.worker ≡ WorkerPc.woken
unfolding stopping wake
joining_test = refl

stop_thread_ends_example :
    ((Shutdown.run_worker (λ n. value 7) (λ n. 3) 8 joining.handler joining.worker).1
      ≡ WorkerPc.finished)
    × ((Shutdown.run_worker (λ n. value 7) (λ n. 3) 8 joining.handler joining.worker).0.executed
        ≡ [])
unfolding stopping wake
stop_thread_ends_example =
    stop_thread_ends 0 0 handler joining 5 (λ n. value 7) (λ n. 3) handler-IsFresh
      (goes stopping.undisturbed (stop_notifies 5 refl) (λ e. e)) refl (λ e. refl)
