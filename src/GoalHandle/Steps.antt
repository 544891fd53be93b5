-- ===== src/GoalHandle/Steps.antt =====
-- One realtime thread calls the handle while another thread calls `runNonRealtime`: the test that
-- guards a request and the store under the lock are two steps, with other calls between them. The
-- four flags that the guard reads are read in one step, since no other thread sets them.
use portage_realtime_tools_e.Base.{◌≡◌, ◌⊎◌, Bool, true, false, Option, some, arith}
use portage_realtime_tools_e.GoalHandle.{
  Server, Handle, FeedbackPtr, Request, aborted, may_request, store_request, may_execute, make,
  set_feedback, try_set_feedback, run_non_realtime, attempt,
}

-- Where the realtime thread stands: between calls, or past the test of a call.
pub data Pc (R : Type 0) : Type 0 where
  idle : Pc R
  requesting : Request → Option R → Pc R
  executing : Pc R

module _ {R F : Type 0} (s : Server R F) where
  open s use {Goal}

  pub data Step : Handle R F Goal → Pc R → Handle R F Goal → Pc R → Type 0 where
    test_request :
        {h : Handle R F Goal} (q : Request) (r : Option R)
        → may_request h ≡ true
        → Step h idle h (requesting q r)
    finish_request :
        {h : Handle R F Goal} (q : Request) (r : Option R)
        → Step h (requesting q r) (store_request q r h) idle
    test_execute : {h : Handle R F Goal} → may_execute h ≡ true → Step h idle h executing
    finish_execute : {h : Handle R F Goal} → Step h executing (record h { req_execute = true }) idle
    feedback :
        {h : Handle R F Goal} (owned : Bool) (f : FeedbackPtr F)
        → Step h idle (set_feedback owned f h).0 idle
    own_feedback :
        {h : Handle R F Goal} (owned : Bool) (f : F → F)
        → Step h idle (try_set_feedback owned f h).0 idle
    -- the other thread
    run : {h : Handle R F Goal} {pc : Pc R} → Step h pc (run_non_realtime s h) pc
    -- the action server changes the goal, as when the client cancels it
    client :
        {h : Handle R F Goal} {pc : Pc R} {g : Goal} (g' : Goal)
        → h.gh ≡ some g
        → Step h pc (record h { gh = some g' }) pc

  pub data Reach (h : Handle R F Goal) : Handle R F Goal → Pc R → Type 0 where
    start : Reach h h idle
    later :
        {h' h'' : Handle R F Goal} {pc pc' : Pc R}
        → Reach h h' pc
        → Step h' pc h'' pc'
        → Reach h h'' pc'

  -- At most one of the three ends is asked for.
  pub record IsExclusive (h : Handle R F Goal) : Type 0 where
    pub not_abort_cancel : (h.req_abort ≡ false) ⊎ (h.req_cancel ≡ false)
    pub not_abort_succeed : (h.req_abort ≡ false) ⊎ (h.req_succeed ≡ false)
    pub not_cancel_succeed : (h.req_cancel ≡ false) ⊎ (h.req_succeed ≡ false)

  abbrev NonePending : Handle R F Goal → Type 0
  NonePending h = (h.req_abort ≡ false) × (h.req_cancel ≡ false) × (h.req_succeed ≡ false)

  -- Past the test, no end is pending until the thread stores one.
  abbrev Inv : Handle R F Goal → Pc R → Type 0
  Inv h idle = IsExclusive h
  Inv h (requesting _ _) = NonePending h
  Inv h executing = IsExclusive h

  run-IsExclusive : (h : Handle R F Goal) → IsExclusive h → IsExclusive (run_non_realtime s h)
  unfolding run_non_realtime attempt
  run-IsExclusive h e = ground arith

  run-NonePending : (h : Handle R F Goal) → NonePending h → NonePending (run_non_realtime s h)
  unfolding run_non_realtime attempt
  run-NonePending h e = ground arith

  store-IsExclusive :
      (q : Request) (r : Option R) (h : Handle R F Goal)
      → NonePending h
      → IsExclusive (store_request q r h)
  unfolding store_request
  store-IsExclusive aborted r h n = ground arith
  store-IsExclusive q r h n = ground arith

  Step-Inv : {h h' : Handle R F Goal} {pc pc' : Pc R} → Step h pc h' pc' → Inv h pc → Inv h' pc'
  unfolding may_request set_feedback try_set_feedback
  Step-Inv (test_request q r e) i = ground arith
  Step-Inv {h} (finish_request q r) i = store-IsExclusive q r h i
  Step-Inv (test_execute e) i = i
  Step-Inv finish_execute i = ground arith
  Step-Inv (feedback owned f) i = ground arith
  Step-Inv (own_feedback owned f) i = ground arith
  Step-Inv {h} {pc = idle} run i = run-IsExclusive h i
  Step-Inv {h} {pc = requesting q r} run i = run-NonePending h i
  Step-Inv {h} {pc = executing} run i = run-IsExclusive h i
  Step-Inv {pc = idle} (client g' e) i = ground arith
  Step-Inv {pc = requesting q r} (client g' e) i = ground arith
  Step-Inv {pc = executing} (client g' e) i = ground arith

  Reach-Inv : {h h' : Handle R F Goal} {pc : Pc R} → IsExclusive h → Reach h h' pc → Inv h' pc
  Reach-Inv e start = e
  Reach-Inv e (later r st) = Step-Inv st (Reach-Inv e r)

  Inv-IsExclusive : (h : Handle R F Goal) (pc : Pc R) → Inv h pc → IsExclusive h
  Inv-IsExclusive h idle i = i
  Inv-IsExclusive h (requesting q r) i = ground arith
  Inv-IsExclusive h executing i = i

  -- From a new handle, with one thread that requests and one that runs `runNonRealtime` between
  -- any two of its steps, at most one of abort, cancel and success is ever pending.
  pub Reach-IsExclusive :
      (new_result : R) (new_feedback : F) (g : Option Goal) (r : Option R) (f : Option F)
      {h : Handle R F Goal} {pc : Pc R}
      → Reach (make new_result new_feedback g r f) h pc
      → IsExclusive h
  unfolding make
  Reach-IsExclusive nr nf g r f {h} {pc} reach =
      Inv-IsExclusive h pc (Reach-Inv (ground arith) reach)
