-- ===== src/Helpers.antt =====
-- realtime_tools/src/realtime_helpers.cpp, on Linux: the affinity of a thread. The operating system
-- and the macros of `cpu_set_t` are the parameter `Os`; a message is a constructor for its text.
pub mod Affinity
pub mod Memory
pub mod Naming
pub mod Kernel
mod Examples
use portage_realtime_tools_e.Base.{
  ℕ, zero, suc, Bool, true, false, not, ◌||◌, Option, none, some, List, [], ◌∷◌, ℤ, pos, ltb_ℤ,
  pos_part, ◌==◌, if◌then◌else◌,
}

-- What the code calls. `sysconf` gives the number of processors, `errno` is read after the call that
-- sets the affinity of the thread and gives 0 or an error.
pub record Os : Type 1 where
  pub State : Type 0
  pub CpuSet : Type 0
  pub cpu_zero : CpuSet
  pub cpu_set : ℕ → CpuSet → CpuSet
  pub number_of_available_processors : State → ℤ
  pub pthread_setaffinity_np : CpuSet → State → State × ℕ
  pub errno : State → ℕ

pub data Message : Type 0 where
  affinity_set invalid_cpuset invalid_core invalid_thread no_privileges : Message
  unknown_error : ℕ → Message
  invalid_core_numbers : List ℤ → ℤ → Message
  not_joinable : Message

-- The values of `errno` that the code tells apart, on Linux.
abbrev efault : ℕ
efault = 14

abbrev einval : ℕ
einval = 22

abbrev esrch : ℕ
esrch = 3

abbrev eperm : ℕ
eperm = 1

-- The `switch` on `errno`.
abbrev pub message_of : ℕ → Message
message_of errno =
    if errno == efault
    then invalid_cpuset
    else if errno == einval
    then invalid_core
    else if errno == esrch
    then invalid_thread
    else if errno == eperm
    then no_privileges
    else unknown_error errno

module _ (os : Os) where
  open os use {State, CpuSet}

  -- `set_affinity_result_message`, after the call.
  abbrev pub result_message : State × ℕ → State × Bool × Message
  result_message (s, result) =
      if result == 0 then (s, true, affinity_set) else (s, false, message_of (os.errno s))

  -- The loop over all cores, from 0 on.
  unfoldable pub set_all : ℕ → CpuSet → CpuSet
  set_all zero cpuset = cpuset
  set_all (suc n) cpuset = os.cpu_set n (set_all n cpuset)

  -- The loop over the cores that are asked for; `none` if it meets one that does not exist.
  unfoldable pub set_cores : ℤ → List ℤ → CpuSet → Option CpuSet
  set_cores number [] cpuset = some cpuset
  set_cores number (core ∷ cores) cpuset =
      if ltb_ℤ core (pos 0) || not (ltb_ℤ core number)
      then none
      else set_cores number cores (os.cpu_set (pos_part core) cpuset)

  unfoldable pub requested : ℤ → List ℤ → Option CpuSet
  unfolding set_all set_cores
  requested number [] = some (set_all (pos_part number) os.cpu_zero)
  requested number cores = set_cores number cores os.cpu_zero

  abbrev pub call_with : Option CpuSet → List ℤ → State → State × Bool × Message
  call_with (some cpuset) cores s = result_message (os.pthread_setaffinity_np cpuset s)
  call_with none cores s =
      (s, false, invalid_core_numbers cores (os.number_of_available_processors s))

  -- `set_thread_affinity(NATIVE_THREAD_HANDLE, const std::vector<int> &)`
  unfoldable pub set_thread_affinity : List ℤ → State → State × Bool × Message
  unfolding requested
  set_thread_affinity cores s =
      call_with (requested (os.number_of_available_processors s) cores) cores s

  -- `set_thread_affinity(NATIVE_THREAD_HANDLE, int)`
  unfoldable pub set_thread_affinity_core : ℤ → State → State × Bool × Message
  unfolding set_thread_affinity
  set_thread_affinity_core core s =
      set_thread_affinity (if ltb_ℤ core (pos 0) then [] else core ∷ []) s

  -- `set_thread_affinity(std::thread &, int)`
  unfoldable pub set_joinable_affinity : Bool → ℤ → State → State × Bool × Message
  unfolding set_thread_affinity_core
  set_joinable_affinity joinable core s =
      if joinable then set_thread_affinity_core core s else (s, false, not_joinable)

  -- `set_current_thread_affinity`, both of them: the state is that of the calling thread.
  unfoldable pub set_current_thread_affinity : List ℤ → State → State × Bool × Message
  unfolding set_thread_affinity
  set_current_thread_affinity cores s = set_thread_affinity cores s

  unfoldable pub set_current_thread_affinity_core : ℤ → State → State × Bool × Message
  unfolding set_thread_affinity_core
  set_current_thread_affinity_core core s = set_thread_affinity_core core s
