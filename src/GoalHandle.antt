-- ===== src/GoalHandle.antt =====
-- realtime_tools/include/realtime_tools/realtime_server_goal_handle.hpp: a realtime thread asks for
-- the end of an action goal by flags, and `runNonRealtime` performs what they ask for.
-- `rclcpp_action::ServerGoalHandle` is the parameter `Server`. A call that holds `mutex_` is one
-- step; the outcome of a `try_to_lock` is an argument.
pub mod Steps
pub mod Requests
pub mod Deadlock
mod Examples
use portage_realtime_tools_e.Base.{
  Bool, true, false, not, ◌&&◌, Option, none, some, if◌then◌else◌, is_some,
}

-- What the code calls on the action server's goal handle. A call that throws
-- `rclcpp::exceptions::RCLErrorBase` is `none`, and leaves the goal as it was.
pub record Server (Result Feedback : Type 0) : Type 1 where
  pub Goal : Type 0
  pub is_executing : Goal → Bool
  pub is_active : Goal → Bool
  pub is_canceling : Goal → Bool
  pub execute : Goal → Option Goal
  pub abort : Option Result → Goal → Option Goal
  pub canceled : Option Result → Goal → Option Goal
  pub succeed : Option Result → Goal → Option Goal
  pub publish_feedback : Feedback → Goal → Option Goal

-- A `FeedbackSharedPtr`: null, the handle's own preallocated message, or a message of the caller's.
pub data FeedbackPtr (Feedback : Type 0) : Type 0 where
  null : FeedbackPtr Feedback
  preallocated : FeedbackPtr Feedback
  other : Feedback → FeedbackPtr Feedback

-- The fields of the class, with the goal that `gh_` points to; a null pointer is `none`.
pub record Handle (Result Feedback Goal : Type 0) : Type 0 where
  pub req_abort : Bool
  pub req_cancel : Bool
  pub req_succeed : Bool
  pub req_execute : Bool
  pub req_result : Option Result
  pub req_feedback : FeedbackPtr Feedback
  pub preallocated_result : Result
  pub preallocated_feedback : Feedback
  pub gh : Option Goal

-- Which of the three ends is asked for.
pub data Request : Type 0 where
  aborted canceled succeeded : Request

abbrev or_new : {A : Type 0} → Option A → A → A
or_new none fresh = fresh
or_new (some a) fresh = a

module _ {Result Feedback Goal : Type 0} where
  -- The constructor; `new_result` and `new_feedback` are what `new Action::Result` and
  -- `new Action::Feedback` give.
  unfoldable pub make :
      Result
      → Feedback
      → Option Goal
      → Option Result
      → Option Feedback
      → Handle Result Feedback Goal
  make new_result new_feedback gh result feedback = record {
    req_abort = false;
    req_cancel = false;
    req_succeed = false;
    req_execute = false;
    req_result = none;
    req_feedback = null;
    preallocated_result = or_new result new_result;
    preallocated_feedback = or_new feedback new_feedback;
    gh = gh;
  }

  -- The four loads that guard each of `setAborted`, `setCanceled` and `setSucceeded`.
  unfoldable pub may_request : Handle Result Feedback Goal → Bool
  may_request h = h.req_execute && not h.req_succeed && not h.req_abort && not h.req_cancel

  -- What stands under the `lock_guard` of each of the three.
  unfoldable pub store_request :
      Request → Option Result → Handle Result Feedback Goal → Handle Result Feedback Goal
  store_request aborted result h = record h { req_result = result; req_abort = true }
  store_request canceled result h = record h { req_result = result; req_cancel = true }
  store_request succeeded result h = record h { req_result = result; req_succeed = true }

  unfoldable pub set_aborted :
      Option Result → Handle Result Feedback Goal → Handle Result Feedback Goal
  unfolding may_request store_request
  set_aborted result h = if may_request h then store_request aborted result h else h

  unfoldable pub set_canceled :
      Option Result → Handle Result Feedback Goal → Handle Result Feedback Goal
  unfolding may_request store_request
  set_canceled result h = if may_request h then store_request canceled result h else h

  unfoldable pub set_succeeded :
      Option Result → Handle Result Feedback Goal → Handle Result Feedback Goal
  unfolding may_request store_request
  set_succeeded result h = if may_request h then store_request succeeded result h else h

  -- `owns_lock` is the outcome of the `try_to_lock`.
  unfoldable pub set_feedback :
      Bool → FeedbackPtr Feedback → Handle Result Feedback Goal → Handle Result Feedback Goal × Bool
  set_feedback owns_lock feedback h =
      if owns_lock then (record h { req_feedback = feedback }, true) else (h, false)

  unfoldable pub try_set_feedback :
      Bool
      → (Feedback → Feedback)
      → Handle Result Feedback Goal
      → Handle Result Feedback Goal × Bool
  try_set_feedback owns_lock update_feedback h =
      if owns_lock
      then (
        record h {
          preallocated_feedback = update_feedback h.preallocated_feedback;
          req_feedback = preallocated;
        },
        true,
      )
      else (h, false)

  -- The loads that guard `execute`.
  unfoldable pub may_execute : Handle Result Feedback Goal → Bool
  may_execute h = not h.req_succeed && not h.req_abort && not h.req_cancel

  unfoldable pub execute : Handle Result Feedback Goal → Handle Result Feedback Goal
  unfolding may_execute
  execute h = if may_execute h then record h { req_execute = true } else h

  unfoldable pub valid : Handle Result Feedback Goal → Bool
  valid h = is_some h.gh

  -- The message that a pointer stands for when it is published.
  abbrev pub feedback_message : FeedbackPtr Feedback → Handle Result Feedback Goal → Option Feedback
  feedback_message null h = none
  feedback_message preallocated h = some h.preallocated_feedback
  feedback_message (other f) h = some f

-- Where the body of the `try` stands: past a statement, or at the `catch`.
pub data Progress (Result Feedback Goal : Type 0) : Type 0 where
  running caught : Handle Result Feedback Goal → Goal → Progress Result Feedback Goal

infixl 5 ◌>>=◌
abbrev ◌>>=◌ :
    {R F G : Type 0} → Progress R F G → (Handle R F G → G → Progress R F G) → Progress R F G
running h g >>= f = f h g
caught h g >>= f = caught h g

-- A call on the goal handle, and the store that follows it if it does not throw.
abbrev call : {R F G : Type 0} → Option G → Handle R F G → Handle R F G → G → Progress R F G
call none h h' g = caught h g
call (some g') h h' g = running h' g'

-- `gh_` points to what the calls have made of the goal; the `catch` logs and drops the exception.
abbrev settle : {R F G : Type 0} → Progress R F G → Handle R F G
settle (running h g) = record h { gh = some g }
settle (caught h g) = record h { gh = some g }

module _ {Result Feedback : Type 0} (server : Server Result Feedback) where
  open server use {Goal}

  abbrev Stage : Type 0
  Stage = Handle Result Feedback Goal → Goal → Progress Result Feedback Goal

  pub start_execution : Stage
  start_execution h g =
      if h.req_execute
        && not (server.is_executing g)
        && server.is_active g
        && not (server.is_canceling g)
      then call (server.execute g) h h g
      else running h g

  pub process_abort : Stage
  process_abort h g =
      if h.req_abort && server.is_executing g
      then call (server.abort h.req_result g) h (record h { req_abort = false }) g
      else running h g

  pub process_cancel : Stage
  process_cancel h g =
      if h.req_cancel && server.is_active g
      then call (server.canceled h.req_result g) h (record h { req_cancel = false }) g
      else running h g

  pub process_succeed : Stage
  process_succeed h g =
      if h.req_succeed && not (server.is_canceling g)
      then call (server.succeed h.req_result g) h (record h { req_succeed = false }) g
      else running h g

  abbrev publish_message : Option Feedback → Stage
  publish_message none h g = running h g
  publish_message (some f) h g = call (server.publish_feedback f g) h h g

  pub process_feedback : Stage
  process_feedback h g =
      if server.is_executing g
      then publish_message (feedback_message h.req_feedback h) h g
      else running h g

  -- The body of the `try`.
  unfoldable pub attempt : Stage
  unfolding start_execution process_abort process_cancel process_succeed process_feedback
  attempt h g =
      start_execution h g
      >>= process_abort
      >>= process_cancel
      >>= process_succeed
      >>= process_feedback

  abbrev run_on : Option Goal → Handle Result Feedback Goal → Handle Result Feedback Goal
  run_on none h = h
  run_on (some g) h = settle (attempt h g)

  -- `if (!valid()) return;` and then the body, under the lock.
  unfoldable pub run_non_realtime : Handle Result Feedback Goal → Handle Result Feedback Goal
  run_non_realtime h = run_on h.gh h
