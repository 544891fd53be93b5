-- ===== src/Publisher/Progress.antt =====
-- That a message which was accepted is published.
mod Examples
use portage_realtime_tools_e.Base.{ℕ, ◌≡◌, ◌≢◌, ◌∙◌, sym, refl, true, false, Option, arith}
use portage_realtime_tools_e.Publisher.{
  non_realtime, free, by_loop, by_client, Mutex, Shared, LoopPc, ClientPc, loop_step, System,
  initial, Reach,
}
use portage_realtime_tools_e.Publisher.Invariant.{
  loop_holds, client_holds, LoopFact, push, Reach-Inv,
}
use portage_realtime_tools_e.Publisher.Held.{Held, Reach-Held}
use portage_realtime_tools_e.Publisher.Shutdown.{run_loop}

module _ {M : Type 0} where
  free_if_unlocked :
      (m : Mutex) (p : LoopPc M) (cs : ℕ → ClientPc M)
      → Held m p cs
      → ((i : ℕ) → client_holds (cs i) ≡ false)
      → loop_holds p ≡ false
      → m ≡ free
  free_if_unlocked free p cs f n w = refl
  free_if_unlocked by_loop p cs f n w = ground arith
  free_if_unlocked (by_client i) p cs f n w = ground (arith, n i)

  nine_steps :
      (s : Shared M) (p : LoopPc M) (rest : Option M)
      → LoopFact s rest p
      → s.turn ≡ non_realtime
      → s.keep_running ≡ true
      → p ≢ LoopPc.waiting
      → (loop_holds p ≡ false → s.mutex ≡ free)
      → (run_loop 9 s p).0.published ≡ push rest s.published
  unfolding run_loop loop_step
  nine_steps s LoopPc.starting rest f t k w m = ground arith
  nine_steps s p rest f t k w m = ground arith

  -- When `stop` has not been called, the turn is with the publishing thread, which is not blocked in
  -- its `wait`, and no caller has the mutex: with nine of its own steps, or fewer, the thread has
  -- published every message for which `try_publish` returned true, in that order.
  pub accepted_is_published :
      (m : M) (s : System M)
      → Reach (initial m) s
      → s.shared.turn ≡ non_realtime
      → s.shared.keep_running ≡ true
      → s.loop ≢ LoopPc.waiting
      → ((i : ℕ) → client_holds (s.clients i) ≡ false)
      → (run_loop 9 s.shared s.loop).0.published ≡ s.shared.accepted
  accepted_is_published m s r t k w n =
      let (rest, inv) = Reach-Inv m s r in
      let f : loop_holds s.loop ≡ false → s.shared.mutex ≡ free =
        free_if_unlocked s.shared.mutex s.loop s.clients (Reach-Held m s r) n in
      nine_steps s.shared s.loop rest inv.loop_fact t k w f ∙ sym inv.logs
