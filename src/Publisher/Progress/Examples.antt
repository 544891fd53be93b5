-- ===== src/Publisher/Progress/Examples.antt =====
-- A message that is accepted while the publishing thread is about to take the mutex.
use mathlib.Core.Path.{ap}
use portage_realtime_tools_e.Base.{ℕ, ◌≡◌, refl, List, [], ◌∷◌, ℕ_discrete, update-updates}
use portage_realtime_tools_e.Publisher.{
  LoopPc, ClientPc, try_publish, loop_step, client_step, enter, wake, initialize, System, loop_runs,
  calls, client_runs, notifies, initial, Reach, here, next,
}
use portage_realtime_tools_e.Publisher.Invariant.{client_holds}
use portage_realtime_tools_e.Publisher.Shutdown.{run_loop}
use portage_realtime_tools_e.Publisher.Progress.{accepted_is_published}

record Run : Type 0 where
  last : System ℕ
  reach : Reach (initial 0) last

accepted_8 : Run
unfolding loop_step client_step enter wake initialize ℕ_discrete
accepted_8 =
    let l1 = next here (loop_runs refl) in
    let l2 = next l1 (loop_runs refl) in
    let l3 = next l2 (loop_runs refl) in
    let r1 = next l3 (calls 3 (try_publish 8) refl refl) in
    let r2 = next r1 (client_runs 3 refl) in
    let r3 = next r2 (client_runs 3 refl) in
    let r4 = next r3 (client_runs 3 refl) in
    let r5 = next r4 (client_runs 3 refl) in record { last = _; reach = next r5 (notifies 3 refl) }

abbrev places : List (ClientPc ℕ)
places =
    ClientPc.offering 8
    ∷ ClientPc.writing 8
    ∷ ClientPc.written 8
    ∷ ClientPc.leaving
    ∷ ClientPc.notifying
    ∷ []

accepted_8_idle : (i : ℕ) → accepted_8.last.clients i ≡ ClientPc.idle
unfolding accepted_8
accepted_8_idle i = update-updates (λ j. ClientPc.idle) 3 i places ClientPc.idle refl

accepted_8_test :
    (accepted_8.last.loop ≡ LoopPc.locking)
    × (accepted_8.last.shared.accepted ≡ 8 ∷ [])
    × (accepted_8.last.shared.published ≡ [])
unfolding accepted_8
accepted_8_test = (refl, refl, refl)

accepted_is_published_example :
    (run_loop 9 accepted_8.last.shared accepted_8.last.loop).0.published
    ≡ accepted_8.last.shared.accepted
unfolding accepted_8
accepted_is_published_example =
    accepted_is_published 0 accepted_8.last accepted_8.reach refl refl (λ e. cc)
      (λ i. ap client_holds (accepted_8_idle i))
