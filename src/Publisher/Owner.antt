-- ===== src/Publisher/Owner.antt =====
-- realtime_tools/include/realtime_tools/realtime_publisher.hpp: the life of a `RealtimePublisher`
-- as its owner sees it: the constructor, which starts the publishing thread and waits for its first
-- turn, and the destructor, which calls `stop`, waits until `is_running()` is false, and joins the
-- thread. The owner is the calling thread 0. The other threads call only between the two.
mod Invariant
mod Join
mod Rank
pub mod Joined
pub mod Ends
mod Examples
use portage_realtime_tools_e.Base.{
  ◌≡◌, Bool, true, false, ℕ, Option, none, some, update, if◌then◌else◌,
}
use portage_realtime_tools_e.Publisher.{
  Turn, loop_not_started, Shared, LoopPc, ClientPc, stop, enter, System, Step, calls, initial,
}

-- Where the owner stands.
pub data OwnerPc : Type 0 where
  constructing : OwnerPc  -- in the loop of `initialize`
  owning : OwnerPc
  in_stop : OwnerPc  -- in the destructor's call of `stop`
  awaiting : OwnerPc  -- in the loop of the destructor
  joining : OwnerPc
  destroyed : OwnerPc

pub record Owned (M : Type 0) : Type 0 where
  pub system : System M
  pub owner : OwnerPc

abbrev pub has_started : Turn → Bool
has_started loop_not_started = false
has_started _ = true

abbrev pub is_idle : {M : Type 0} → ClientPc M → Bool
is_idle ClientPc.idle = true
is_idle _ = false

abbrev pub is_done : {M : Type 0} → LoopPc M → Bool
is_done LoopPc.done = true
is_done _ = false

module _ {M : Type 0} where
  -- The loop of `initialize`.
  abbrev constructor_step : Shared M → OwnerPc
  constructor_step s = if has_started s.turn then owning else constructing

  -- One step of the owner outside `stop`; `none` while the owner is blocked, or only owns.
  unfoldable pub owner_step : System M → OwnerPc → Option OwnerPc
  owner_step s constructing = some (constructor_step s.shared)
  owner_step s owning = none
  owner_step s in_stop = if is_idle (s.clients 0) then some awaiting else none
  owner_step s awaiting = some (if s.shared.is_running then awaiting else joining)
  owner_step s joining = if is_done s.loop then some destroyed else none
  owner_step s destroyed = none

  abbrev pub is_call : {s t : System M} → Step s t → Bool
  is_call (calls _ _ _ _) = true
  is_call _ = false

  -- One step of some thread: of the publishing thread or of a call, which starts only between the
  -- constructor and the destructor; of the owner; and the start of the destructor, when no call is
  -- running.
  pub data OwnedStep (o : Owned M) : Owned M → Type 0 where
    runs :
        {t : System M} (st : Step o.system t)
        → (is_call st ≡ true → o.owner ≡ owning)
        → OwnedStep o (record o { system = t })
    owner_runs :
        {p : OwnerPc} → owner_step o.system o.owner ≡ some p → OwnedStep o (record o { owner = p })
    destroys :
        {t : Shared M} {p : ClientPc M}
        → o.owner ≡ owning
        → ((i : ℕ) → o.system.clients i ≡ ClientPc.idle)
        → enter 0 stop o.system.shared ≡ some (t, p)
        → OwnedStep o (record {
          system = record o.system { shared = t; clients = update o.system.clients 0 p };
          owner = in_stop;
        })

  pub data Lives (o : Owned M) : Owned M → Type 0 where
    here : Lives o o
    next : {t u : Owned M} → Lives o t → OwnedStep t u → Lives o u

  -- The owner has stored the fields and started the thread.
  abbrev pub created : M → Owned M
  created m = record { system = initial m; owner = constructing }
