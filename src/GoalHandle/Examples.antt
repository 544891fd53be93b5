-- ===== src/GoalHandle/Examples.antt =====
-- The goal handle over a small action server, and the theorems at concrete calls.
use portage_realtime_tools_e.Base.{
  ℕ, ◌≡◌, refl, ◌⊎◌, inl, Bool, true, false, Option, none, some, [], ◌∷◌, arith,
}
use portage_realtime_tools_e.GoalHandle.{
  Server, Handle, Request, aborted, canceled, succeeded, make, store_request, set_succeeded,
  may_request, may_execute, execute, attempt, run_non_realtime, null,
}
use portage_realtime_tools_e.GoalHandle.Requests.{
  set_requests, first_request_wins, GoalStates, request_is_performed, refused_request_is_kept,
}
use portage_realtime_tools_e.GoalHandle.Requests
use portage_realtime_tools_e.GoalHandle.Deadlock.{
  request, runs, performs, canceling_goal_is_never_ended,
}
use portage_realtime_tools_e.GoalHandle.Steps.{
  start, later, test_execute, finish_execute, test_request, finish_request, IsExclusive,
  Reach-IsExclusive,
}

-- The states of a goal, the ended ones with the result that was sent.
data Goal : Type 0 where
  accepted executing canceling : Goal
  ended : Request → Option ℕ → Goal

abbrev begin : Goal → Option Goal
begin accepted = some executing
begin _ = none

-- An end that the goal's state allows, unless the server is `down`.
abbrev end_by : Bool → Request → Option ℕ → Goal → Option Goal
end_by true q r g = none
end_by false q r executing = some (ended q r)
end_by false q r canceling = some (ended q r)
end_by false q r _ = none

abbrev server : Bool → Server ℕ ℕ
server down = record {
  Goal = Goal;
  is_executing = elim [ executing ↦ true | _ ↦ false ];
  is_active = elim [ ended q r ↦ false | _ ↦ true ];
  is_canceling = elim [ canceling ↦ true | _ ↦ false ];
  execute = begin;
  abort = end_by down aborted;
  canceled = end_by down canceled;
  succeed = end_by down succeeded;
  publish_feedback = λ f g. some g;
}

finish_lem :
    (down : Bool) (q : Request) (r : Option ℕ) (g g' : Goal)
    → Requests.finish (server down) q r g ≡ some g'
    → (server down).is_active g' ≡ false
finish_lem down aborted r g g' e = ground arith
finish_lem down q r g g' e = ground arith

server-GoalStates : (down : Bool) → GoalStates (server down)
server-GoalStates down = record {
  executing-is_active = λ g. ground arith;
  canceling-is_active = λ g. ground arith;
  executing-not_canceling = λ g. ground arith;
  finish-inactive = finish_lem down;
}

abbrev new_handle : Handle ℕ ℕ Goal
new_handle = record {
  req_abort = false;
  req_cancel = false;
  req_succeed = false;
  req_execute = false;
  req_result = none;
  req_feedback = null;
  preallocated_result = 0;
  preallocated_feedback = 0;
  gh = some executing;
}

abbrev busy : Handle ℕ ℕ Goal
busy = record new_handle { req_execute = true }

make_test : make 0 0 (some executing) none none ≡ new_handle
unfolding make
make_test = refl

execute_test : execute new_handle ≡ busy
unfolding execute
execute_test = refl

succeed_test :
    run_non_realtime (server false) (set_succeeded (some 7) busy)
    ≡ record busy { req_result = some 7; gh = some (ended succeeded (some 7)) }
unfolding run_non_realtime attempt set_succeeded
succeed_test = refl

first_request_wins_example :
    set_requests ((succeeded, some 7) ∷ (aborted, some 8) ∷ []) busy
    ≡ store_request succeeded (some 7) busy
unfolding may_request
first_request_wins_example = first_request_wins succeeded (some 7) ((aborted, some 8) ∷ []) busy

request_is_performed_example :
    run_non_realtime (server false) (Requests.set_request aborted (some 8) busy)
    ≡ record busy { req_result = some 8; gh = some (ended aborted (some 8)) }
unfolding may_request
request_is_performed_example =
    request_is_performed (server false) (server-GoalStates false) aborted (some 8) busy executing
      (ended aborted (some 8)) refl refl refl refl

refused_request_is_kept_example :
    run_non_realtime (server true) (Requests.set_request canceled none busy)
    ≡ store_request canceled none busy
unfolding may_request
refused_request_is_kept_example =
    refused_request_is_kept (server true) (server-GoalStates true) canceled none busy executing refl
      refl refl refl

-- An abort was asked for, and the client cancels before `runNonRealtime`.
abbrev overtaken : Handle ℕ ℕ Goal
overtaken = record busy { req_abort = true; gh = some canceling }

canceling_goal_is_never_ended_example :
    let h = performs (server false) (runs ∷ request canceled none ∷ runs ∷ []) overtaken in
    (h.gh ≡ some canceling) × ((h.req_abort ≡ true) ⊎ (h.req_succeed ≡ true))
canceling_goal_is_never_ended_example =
    canceling_goal_is_never_ended (server false) (server-GoalStates false)
      (runs ∷ request canceled none ∷ runs ∷ []) overtaken canceling (inl refl) refl refl refl

Reach-IsExclusive_example : IsExclusive (server false) (store_request aborted none busy)
unfolding make may_execute may_request store_request
Reach-IsExclusive_example = Reach-IsExclusive (server false) 0 0 (some executing) none none (
    later
      (later (later (later start (test_execute refl)) finish_execute)
        (test_request aborted none refl))
      (finish_request aborted none))
