-- ===== src/GoalHandle/Deadlock.antt =====
-- Calls in any order on a handle whose goal the client is canceling.
use portage_realtime_tools_e.Base.{◌≡◌, ◌⊎◌, Bool, true, false, Option, some, List, [], ◌∷◌, arith}
use portage_realtime_tools_e.GoalHandle.{
  Server, Handle, FeedbackPtr, Request, aborted, set_feedback, try_set_feedback, execute,
  run_non_realtime, attempt, may_execute, may_request,
}
use portage_realtime_tools_e.GoalHandle.Requests.{set_request, GoalStates}

-- A call on the handle, with what it is given; each runs to its end.
pub data Call (R F : Type 0) : Type 0 where
  request : Request → Option R → Call R F
  executes : Call R F
  feedback : Bool → FeedbackPtr F → Call R F
  own_feedback : Bool → (F → F) → Call R F
  runs : Call R F

module _ {R F : Type 0} (s : Server R F) where
  open s use {Goal}

  unfoldable pub perform : Call R F → Handle R F Goal → Handle R F Goal
  unfolding set_request execute set_feedback try_set_feedback run_non_realtime
  perform (request q r) h = set_request q r h
  perform executes h = execute h
  perform (feedback owned f) h = (set_feedback owned f h).0
  perform (own_feedback owned f) h = (try_set_feedback owned f h).0
  perform runs h = run_non_realtime s h

  unfoldable pub performs : List (Call R F) → Handle R F Goal → Handle R F Goal
  unfolding perform
  performs [] h = h
  performs (c ∷ cs) h = performs cs (perform c h)

  -- An abort or a success is pending, a cancel is not, and the client is canceling the goal.
  pub record IsStuck (h : Handle R F Goal) (g : Goal) : Type 0 where
    pub pending : (h.req_abort ≡ true) ⊎ (h.req_succeed ≡ true)
    pub no_cancel : h.req_cancel ≡ false
    pub goal : h.gh ≡ some g
    pub canceling : s.is_canceling g ≡ true
    pub not_executing : s.is_executing g ≡ false

  perform-IsStuck :
      (c : Call R F) (h : Handle R F Goal) (g : Goal) → IsStuck h g → IsStuck (perform c h) g
  unfolding perform attempt may_execute may_request
  perform-IsStuck (request aborted r) h g st = ground arith
  perform-IsStuck (request q r) h g st = ground arith
  perform-IsStuck executes h g st = ground arith
  perform-IsStuck (feedback o f) h g st = ground arith
  perform-IsStuck (own_feedback o f) h g st = ground arith
  perform-IsStuck runs h g st = ground arith

  performs-IsStuck :
      (cs : List (Call R F)) (h : Handle R F Goal) (g : Goal)
      → IsStuck h g
      → IsStuck (performs cs h) g
  unfolding performs
  performs-IsStuck [] h g st = st
  performs-IsStuck (c ∷ cs) h g st = performs-IsStuck cs (perform c h) g (perform-IsStuck c h g st)

  -- Once an abort or a success is pending while the client has begun to cancel the goal, no calls
  -- on the handle, whatever they are, ever end the goal: it stays the canceling goal it is, and
  -- the request stays pending, since `abort` waits for an executing goal, `succeed` for one that
  -- is not canceling, and a pending request refuses `setCanceled`.
  pub canceling_goal_is_never_ended :
      GoalStates s
      → (cs : List (Call R F)) (h : Handle R F Goal) (g : Goal)
      → (h.req_abort ≡ true) ⊎ (h.req_succeed ≡ true)
      → h.req_cancel ≡ false
      → h.gh ≡ some g
      → s.is_canceling g ≡ true
      → ((performs cs h).gh ≡ some g)
        × (((performs cs h).req_abort ≡ true) ⊎ ((performs cs h).req_succeed ≡ true))
  canceling_goal_is_never_ended states cs h g p nc gl c =
      let st = performs-IsStuck cs h g (record {
        pending = p;
        no_cancel = nc;
        goal = gl;
        canceling = c;
        not_executing = ground (arith, states.executing-not_canceling g);
      }) in
      (st.goal, st.pending)
