-- ===== src/Publisher/Owner/Examples.antt =====
-- The life of one publisher by evaluation, and the theorems at it.
use portage_realtime_tools_e.Base.{◌⊎◌, ◌<◌, ℕ, ◌≡◌, refl, ◌≢◌, true, false, Bool, ℕ_discrete}
use portage_realtime_tools_e.Publisher.{
  loop_not_started, LoopPc, loop_step, client_step, enter, wake, client_runs, notifies, initialize,
}
use portage_realtime_tools_e.Publisher.Shutdown.{run_loop}
use portage_realtime_tools_e.Publisher.Owner.{
  OwnedStep, OwnerPc, constructing, joining, owning, awaiting, destroyed, Owned, runs, owner_runs,
  destroys, owner_step, Lives, next, created,
}
use portage_realtime_tools_e.Publisher.Owner.Join.{Lives-after_loop, Lives-trans}
use portage_realtime_tools_e.Publisher.Owner.Rank.{rank, Polls}
use portage_realtime_tools_e.Publisher.Owner.Ends.{Advances, destructor_ends}
use portage_realtime_tools_e.Publisher.Owner.Joined.{joins_ended_thread}

record Life : Type 0 where
  last : Owned ℕ
  lives : Lives (created 0) last

-- The constructor has returned; the publishing thread waits.
alive : Life
unfolding run_loop loop_step owner_step initialize
alive = record { last = _; lives = next (Lives-after_loop 7 (created 0)) (owner_runs refl) }

-- The destructor has called `stop`.
stopping : Life
unfolding alive enter client_step wake ℕ_discrete owner_step
stopping =
    let r1 = next alive.lives (destroys refl (λ i. refl) refl) in
    let r2 = next r1 (runs (client_runs 0 refl) (λ z. cc)) in
    let r3 = next r2 (runs (client_runs 0 refl) (λ z. cc)) in
    let r4 = next r3 (runs (notifies 0 refl) (λ z. cc)) in
    record { last = _; lives = next r4 (owner_runs refl) }

-- The publishing thread has ended, and the owner has left its loop.
about_to_join : Life
unfolding stopping run_loop loop_step owner_step
about_to_join =
    let r1 =
      Lives-trans (created 0) stopping.last _ stopping.lives (Lives-after_loop 9 stopping.last) in
    record { last = _; lives = next r1 (owner_runs refl) }

gone : Life
unfolding about_to_join owner_step
gone = record { last = _; lives = next about_to_join.lives (owner_runs refl) }

abbrev view :
    Owned ℕ → record { owner : OwnerPc; loop : LoopPc ℕ; keep_running : Bool; is_running : Bool }
view o = record {
  owner = o.owner;
  loop = o.system.loop;
  keep_running = o.system.shared.keep_running;
  is_running = o.system.shared.is_running;
}

alive_test :
    view alive.last
    ≡ record { owner = owning; loop = LoopPc.waiting; keep_running = true; is_running = true }
unfolding alive
alive_test = refl

stopping_test :
    view stopping.last
    ≡ record { owner = awaiting; loop = LoopPc.woken; keep_running = false; is_running = true }
unfolding stopping
stopping_test = refl

gone_test :
    view gone.last
    ≡ record { owner = destroyed; loop = LoopPc.done; keep_running = false; is_running = false }
unfolding gone
gone_test = refl

destructor_ends_example :
    ((t : Owned ℕ)
      → OwnedStep stopping.last t
      → Polls stopping.last t ⊎ (rank t < rank stopping.last))
    × Advances stopping.last
unfolding stopping
destructor_ends_example = destructor_ends 0 stopping.last stopping.lives refl

joins_ended_thread_example :
    (about_to_join.last.owner ≡ joining → about_to_join.last.system.loop ≡ LoopPc.done)
    × (about_to_join.last.owner ≢ constructing
        → about_to_join.last.system.shared.turn ≢ loop_not_started)
joins_ended_thread_example = joins_ended_thread 0 about_to_join.last about_to_join.lives
