-- ===== src/Async/Start.antt =====
-- The worker thread of async_function_handler.hpp from its begin to its loop: the function that
-- `start_thread` runs in it. The calls that set up the thread are the parameter `Threads`; what is
-- logged of their results is `Report`.
pub mod Setup
pub mod Abort
mod Examples
use portage_realtime_tools_e.Base.{ℕ, Bool, Option, none, some, List, [], ℤ}
use Prim.Native.String.{String}
use portage_realtime_tools_e.Helpers.{Os, Message, set_current_thread_affinity}
use portage_realtime_tools_e.Helpers.Kernel.{configure_sched_fifo}
use portage_realtime_tools_e.Helpers.Naming.{set_current_thread_name}
use portage_realtime_tools_e.Helpers.Naming
use portage_realtime_tools_e.Async.Policy.{Policy, synchronized}
use portage_realtime_tools_e.Async.Handler.{Types, Handler}
use portage_realtime_tools_e.Async.Synchronized
use portage_realtime_tools_e.Async.Detached

pub record Threads : Type 1 where
  pub os : Os
  pub sched_setscheduler : ℕ → ℤ → os.State → os.State × ℤ
  pub pthread_setname_np : List ℕ → os.State → os.State × ℕ
  pub bytes : String → List ℕ  -- of a `std::string`

-- Whether the real-time scheduling was set, and what the two other calls gave, if they were made.
pub record Report : Type 0 where
  pub fifo : Bool
  pub affinity : Option (Bool × Message)
  pub name : Option (Bool × Naming.Message)

-- The loop that the thread enters, with the place where it begins.
pub data Loop (k : Types) : Type 0 where
  execute_synchronized_callback : Synchronized.WorkerPc k → Loop k
  execute_detached_callback : Detached.WorkerPc k → Loop k

-- The loop is chosen by whether the policy is the synchronized one.
unfoldable pub loop_of : {k : Types} → Policy → Loop k
loop_of synchronized = execute_synchronized_callback Synchronized.WorkerPc.head
loop_of _ = execute_detached_callback Detached.WorkerPc.starting

module _ (threads : Threads) where
  open threads use {os}
  open os use {State}

  -- No call for an empty list of cores.
  unfoldable pub pin : List ℤ → State → State × Option (Bool × Message)
  pin [] s = (s, none)
  pin cores s =
      let (t, ok, message) = set_current_thread_affinity os cores s in (t, some (ok, message))

  -- No call for an empty name.
  unfoldable pub rename : List ℕ → State → State × Option (Bool × Naming.Message)
  rename [] s = (s, none)
  rename name s =
      let (t, ok, message) = set_current_thread_name threads.pthread_setname_np name s in
      (t, some (ok, message))

  -- The three calls, one after another.
  unfoldable pub set_up : {k : Types} → Handler k → State → State × Report
  unfolding pin rename
  set_up h s =
      let (s1, fifo) = configure_sched_fifo threads.sched_setscheduler h.thread_priority s in
      let (s2, affinity) = pin h.params.cpu_affinity_cores s1 in
      let (s3, name) = rename (threads.bytes h.params.thread_name) s2 in
      (s3, record { fifo = fifo; affinity = affinity; name = name })

  -- The function that the thread runs, up to its loop.
  unfoldable pub worker_thread : {k : Types} → Handler k → State → State × Report × Loop k
  unfolding set_up loop_of
  worker_thread h s =
      let (t, report) = set_up h s in (t, report, loop_of h.params.scheduling_policy)
