-- ===== src/Helpers/Memory.antt =====
-- `lock_memory` of realtime_helpers.cpp, on Linux, over the calls of the system that it makes.
use portage_realtime_tools_e.Base.{ℕ, ◌≡◌, ap, Bool, true, false, ◌==◌, arith, if◌then◌else◌}

-- Each call may change `errno`, which is a part of the state; `true` is success.
pub record Calls : Type 1 where
  pub State : Type 0
  pub mlockall : State → State × Bool
  pub cap_get_proc : State → State × Bool
  pub cap_set_flag : State → State × Bool
  pub cap_set_proc : State → State × Bool
  pub cap_free : State → State
  pub errno : State → ℕ

pub data Message : Type 0 where
  locked no_privileges over_limit not_privileged overflow not_lockable unknown : Message

-- ENOMEM, EPERM, EINVAL and EAGAIN
abbrev enomem : ℕ
enomem = 12

abbrev eperm : ℕ
eperm = 1

abbrev einval : ℕ
einval = 22

abbrev eagain : ℕ
eagain = 11

abbrev pub message_of : ℕ → Message
message_of errno =
    if errno == enomem
    then over_limit
    else if errno == eperm
    then not_privileged
    else if errno == einval
    then overflow
    else if errno == eagain
    then not_lockable
    else unknown

module _ (calls : Calls) where
  open calls use {State}

  abbrev freed : State × Bool → State × Bool
  freed (s, rc) = (calls.cap_free s, rc)

  abbrev set_if_flagged : State × Bool → State × Bool
  set_if_flagged (s, true) = calls.cap_set_proc s
  set_if_flagged (s, false) = (s, false)

  abbrev with_caps : State × Bool → State × Bool
  with_caps (s, true) = freed (set_if_flagged (calls.cap_set_flag s))
  with_caps (s, false) = (s, false)

  -- `is_capable`, which sets the capability in the effective set.
  unfoldable pub is_capable : State → State × Bool
  is_capable s = with_caps (calls.cap_get_proc s)

  unfoldable pub lock_memory : State → State × Bool × Message
  unfolding is_capable
  lock_memory s =
      let (s1, done) = calls.mlockall s in
      if done
      then (s1, true, locked)
      else let (s2, capable) = is_capable s1 in
        (s2, false, if capable then message_of (calls.errno s2) else no_privileges)

  -- `lock_memory` returns true exactly if `mlockall` succeeds; a failure of a process that has the
  -- capability, while asking for it leaves `errno` alone, is told by the `errno` of `mlockall`.
  pub lock_memory-message :
      (s : State)
      → (is_capable (calls.mlockall s).0).1 ≡ true
      → calls.errno (is_capable (calls.mlockall s).0).0 ≡ calls.errno (calls.mlockall s).0
      → ((lock_memory s).1 ≡ (calls.mlockall s).1)
        × ((lock_memory s).2 ≡ (
            if (calls.mlockall s).1 then locked else message_of (calls.errno (calls.mlockall s).0)))
  unfolding lock_memory
  lock_memory-message s c e = (ground arith, ground (arith, ap message_of e))
