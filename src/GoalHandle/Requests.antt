-- ===== src/GoalHandle/Requests.antt =====
-- What a request for the end of a goal leads to, call by call.
use portage_realtime_tools_e.Base.{
  ◌≡◌, true, false, refl, Option, none, some, List, [], ◌∷◌, arith, inl, inr, Bool-cases,
  if◌then◌else◌,
}
use portage_realtime_tools_e.GoalHandle.{
  Server, Handle, Request, aborted, canceled, succeeded, may_request, store_request, set_aborted,
  set_canceled, set_succeeded, run_non_realtime, attempt,
}

-- Any of the three calls.
unfoldable pub set_request : {R F G : Type 0} → Request → Option R → Handle R F G → Handle R F G
unfolding set_aborted set_canceled set_succeeded
set_request aborted result h = set_aborted result h
set_request canceled result h = set_canceled result h
set_request succeeded result h = set_succeeded result h

unfoldable pub set_requests :
    {R F G : Type 0} → List (Request × Option R) → Handle R F G → Handle R F G
unfolding set_request
set_requests [] h = h
set_requests ((q, r) ∷ qs) h = set_requests qs (set_request q r h)

set_request-pending :
    {R F G : Type 0} (q q' : Request) (r r' : Option R) (h : Handle R F G)
    → set_request q' r' (store_request q r h) ≡ store_request q r h
unfolding set_request store_request
set_request-pending aborted q' r r' h = ground arith
set_request-pending q q' r r' h = ground arith

set_request-refused :
    {R F G : Type 0} (q : Request) (r : Option R) (h : Handle R F G)
    → may_request h ≡ false
    → set_request q r h ≡ h
unfolding set_request
set_request-refused aborted r h e = ground arith
set_request-refused q r h e = ground arith

pub set_request-accepted :
    {R F G : Type 0} (q : Request) (r : Option R) (h : Handle R F G)
    → may_request h ≡ true
    → set_request q r h ≡ store_request q r h
unfolding set_request
set_request-accepted aborted r h e = ground arith
set_request-accepted q r h e = ground arith

set_requests-pending :
    {R F G : Type 0} (q : Request) (r : Option R) (qs : List (Request × Option R))
    (h : Handle R F G)
    → set_requests qs (store_request q r h) ≡ store_request q r h
unfolding set_requests
set_requests-pending q r [] h = refl
set_requests-pending q r ((q', r') ∷ qs) h =
    rw (set_request-pending q q' r r' h) (set_requests-pending q r qs h)

set_requests-refused :
    {R F G : Type 0} (qs : List (Request × Option R)) (h : Handle R F G)
    → may_request h ≡ false
    → set_requests qs h ≡ h
unfolding set_requests
set_requests-refused [] h e = refl
set_requests-refused ((q, r) ∷ qs) h e =
    rw (set_request-refused q r h e) (set_requests-refused qs h e)

-- Of a row of calls of `setAborted`, `setCanceled` and `setSucceeded` with no `runNonRealtime`
-- between them, only the first has an effect; none has one if the handle was not executing or had
-- an end pending already.
pub first_request_wins :
    {R F G : Type 0} (q : Request) (r : Option R) (qs : List (Request × Option R))
    (h : Handle R F G)
    → set_requests ((q, r) ∷ qs) h ≡ (if may_request h then store_request q r h else h)
unfolding set_requests
first_request_wins q r qs h = elim (Bool-cases (may_request h)) [
  | inl e ↦ rw (e, set_request-accepted q r h e) (set_requests-pending q r qs h)
  | inr e ↦ rw e (set_requests-refused ((q, r) ∷ qs) h e)
]

-- What `rclcpp_action` documents of its goal states: executing and canceling goals are active and
-- no goal is both; a goal that was ended is active no more.
abbrev pub finish : {R F : Type 0} (s : Server R F) → Request → Option R → s.Goal → Option s.Goal
finish s aborted = s.abort
finish s canceled = s.canceled
finish s succeeded = s.succeed

pub record GoalStates {R F : Type 0} (s : Server R F) : Type 0 where
  pub executing-is_active : (g : s.Goal) → s.is_executing g ≡ true → s.is_active g ≡ true
  pub canceling-is_active : (g : s.Goal) → s.is_canceling g ≡ true → s.is_active g ≡ true
  pub executing-not_canceling : (g : s.Goal) → s.is_executing g ≡ true → s.is_canceling g ≡ false
  pub finish-inactive :
      (q : Request) (r : Option R) (g g' : s.Goal)
      → finish s q r g ≡ some g'
      → s.is_active g' ≡ false

module _ {R F : Type 0} (s : Server R F) (states : GoalStates s) where
  open s use {Goal}

  -- A goal that was ended is in none of the three states.
  ended :
      (q : Request) (r : Option R) (g g' : Goal)
      → finish s q r g ≡ some g'
      → (s.is_active g' ≡ false) × (s.is_executing g' ≡ false) × (s.is_canceling g' ≡ false)
  ended q r g g' e = ground (
    arith,
    states.finish-inactive q r g g',
    states.executing-is_active g',
    states.canceling-is_active g',
  )

  -- A request that is accepted while the goal executes is performed by the next `runNonRealtime`:
  -- the goal is ended the way the request says, with its result, the flag is taken back, and
  -- nothing else changes, if the server does not refuse the call.
  pub request_is_performed :
      (q : Request) (r : Option R) (h : Handle R F Goal) (g g' : Goal)
      → may_request h ≡ true
      → h.gh ≡ some g
      → s.is_executing g ≡ true
      → finish s q r g ≡ some g'
      → run_non_realtime s (set_request q r h) ≡ record h { req_result = r; gh = some g' }
  unfolding run_non_realtime attempt set_request may_request
  request_is_performed aborted r h g g' free goal executing done = ground (
    arith,
    ended aborted r g g' done,
    states.executing-is_active g executing,
    states.executing-not_canceling g executing,
  )
  request_is_performed q r h g g' free goal executing done = ground (
    arith,
    ended q r g g' done,
    states.executing-is_active g executing,
    states.executing-not_canceling g executing,
  )

  -- If the server throws while an accepted request is performed, the exception ends in the `catch`: the goal is as it was and the
  -- request stays pending with its result, so that the next `runNonRealtime` tries again.
  pub refused_request_is_kept :
      (q : Request) (r : Option R) (h : Handle R F Goal) (g : Goal)
      → may_request h ≡ true
      → h.gh ≡ some g
      → s.is_executing g ≡ true
      → finish s q r g ≡ none
      → run_non_realtime s (set_request q r h) ≡ store_request q r h
  unfolding run_non_realtime attempt set_request may_request store_request
  refused_request_is_kept aborted r h g free goal executing thrown =
      ground
        (arith, states.executing-is_active g executing, states.executing-not_canceling g executing)
  refused_request_is_kept q r h g free goal executing thrown =
      ground
        (arith, states.executing-is_active g executing, states.executing-not_canceling g executing)
