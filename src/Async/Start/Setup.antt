-- ===== src/Async/Start/Setup.antt =====
-- What the worker thread is set to when its loop begins, by what the three calls that set it up gave.
use portage_realtime_tools_e.Base.{
  ℕ, ◌≡◌, ◌≤◌, Bool, true, false, ◌&&◌, Option, none, some, List, [], ◌∷◌, ◌==◌, ℤ, pos_part,
}
use portage_realtime_tools_e.Helpers.{Message}
use portage_realtime_tools_e.Helpers.Affinity.{CpuSets, is_among}
use portage_realtime_tools_e.Helpers.Kernel.{is_done}
use portage_realtime_tools_e.Helpers.Naming.{take}
use portage_realtime_tools_e.Helpers.Naming
use portage_realtime_tools_e.Async.Handler.{Handler}
use portage_realtime_tools_e.Async.Start.{Threads}

-- The first statement, if the call has succeeded, and else the second.
abbrev pub Either : Bool → Type 0 → Type 0 → Type 0
Either true P Q = P
Either false P Q = Q

abbrev pub has_any : {A : Type 0} → List A → Bool
has_any [] = false
has_any (x ∷ xs) = true

abbrev pub succeeded : {M : Type 0} → Option (Bool × M) → Bool
succeeded none = false
succeeded (some (ok, message)) = ok

-- What is documented of the calls: each sets one property of the thread if it succeeds, and no other.
-- `bound i` tells whether the thread may run on core `i`, among those that are permitted.
pub record Documented (threads : Threads) (sets : CpuSets threads.os) : Type 0 where
  pub scheduler : threads.os.State → ℕ × ℤ
  pub bound : ℕ → threads.os.State → Bool
  pub permitted : ℕ → Bool
  pub name : threads.os.State → List ℕ
  pub room :
      (s : threads.os.State)
      → pos_part (threads.os.number_of_available_processors s) ≤ sets.cpu_setsize
  pub sets_scheduler :
      (policy : ℕ) (priority : ℤ) (s : threads.os.State)
      → let (t, result) = threads.sched_setscheduler policy priority s in
        Either (is_done result) (scheduler t ≡ (policy, priority)) (scheduler t ≡ scheduler s)
        × ((i : ℕ) → bound i t ≡ bound i s)
        × (name t ≡ name s)
  pub sets_affinity :
      (c : threads.os.CpuSet) (s : threads.os.State)
      → let (t, result) = threads.os.pthread_setaffinity_np c s in
        Either
          (result == 0)
          ((i : ℕ) → bound i t ≡ sets.cpu_isset i c && permitted i)
          ((i : ℕ) → bound i t ≡ bound i s)
        × (scheduler t ≡ scheduler s)
        × (name t ≡ name s)
  pub sets_name :
      (xs : List ℕ) (s : threads.os.State)
      → let (t, result) = threads.pthread_setname_np xs s in
        Either (result == 0) (name t ≡ xs) (name t ≡ name s)
        × (scheduler t ≡ scheduler s)
        × ((i : ℕ) → bound i t ≡ bound i s)

module _ {threads : Threads} {sets : CpuSets threads.os}
    (documented : Documented threads sets) where
  open documented use {scheduler, bound, permitted, name}
  open threads use {os}

  -- Whether the cores of the thread were set, and nothing else of it.
  abbrev Pinned : List ℤ → os.State → os.State → Bool → Type 0
  Pinned cores s t ok =
      Either ok ((i : ℕ) → bound i t ≡ is_among i cores && permitted i)
        ((i : ℕ) → bound i t ≡ bound i s)
      × (scheduler t ≡ scheduler s)
      × (name t ≡ name s)

  abbrev PinnedBy : List ℤ → os.State → os.State × Bool × Message → Type 0
  PinnedBy cores s (t, ok, message) = Pinned cores s t ok

  abbrev Named : List ℕ → os.State → os.State → Bool → Type 0
  Named xs s t ok =
      Either ok (name t ≡ take 15 xs) (name t ≡ name s)
      × (scheduler t ≡ scheduler s)
      × ((i : ℕ) → bound i t ≡ bound i s)

  abbrev NamedBy : List ℕ → os.State → os.State × Bool × Naming.Message → Type 0
  NamedBy xs s (t, ok, message) = Named xs s t ok

  abbrev called : List ℕ → os.State → os.State × ℕ
  called xs s = threads.pthread_setname_np (take 15 xs) s
