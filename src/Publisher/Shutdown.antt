-- ===== src/Publisher/Shutdown.antt =====
-- The end of the publishing thread: `stop`, the loops of the destructor, and calls after them.
use portage_realtime_tools_e.Base.{
  ℕ, zero, suc, ◌≡◌, ◌∙◌, refl, ◌≢◌, false, Option, none, some, List, ◌∷◌, update, arith,
}
use portage_realtime_tools_e.Publisher.{
  realtime, non_realtime, free, by_client, Shared, LoopPc, ClientPc, try_publish, loop_step, enter,
  client_step, wake, System, Step, loop_runs, wakes_up, calls, client_runs, notifies, Reach, here,
  next,
}
use portage_realtime_tools_e.Publisher.Invariant.{loop_holds}

module _ {M : Type 0} where
  -- `n` steps of the publishing thread in a row, or fewer if it is blocked or has ended.
  abbrev pub keep_going :
      Option (Shared M × LoopPc M)
      → (Shared M → LoopPc M → Shared M × LoopPc M)
      → Shared M
      → LoopPc M
      → Shared M × LoopPc M
  keep_going none rest s p = (s, p)
  keep_going (some (t, q)) rest s p = rest t q

  unfoldable pub run_loop : ℕ → Shared M → LoopPc M → Shared M × LoopPc M
  run_loop zero s p = (s, p)
  run_loop (suc n) s p = keep_going (loop_step s p) (run_loop n) s p

  -- The message that the thread publishes even after `stop`: it has made the test before.
  abbrev pub with_message_in_hand : LoopPc M → List M → List M
  with_message_in_hand (LoopPc.publishing m) ms = m ∷ ms
  with_message_in_hand _ ms = ms

  -- After `stop`, with the mutex not taken by a caller, the publishing thread ends within nine of
  -- its own steps from every place but the blocked `wait`, clears `is_running_`, for which the
  -- destructor waits, and publishes nothing but a message that it is about to publish already.
  pub stops_in_nine :
      (s : Shared M) (p : LoopPc M)
      → s.keep_running ≡ false
      → p ≢ LoopPc.done
      → p ≢ LoopPc.waiting
      → p ≢ LoopPc.blocking
      → (loop_holds p ≡ false → s.mutex ≡ free)
      → ((run_loop 9 s p).1 ≡ LoopPc.done)
        × ((run_loop 9 s p).0.is_running ≡ false)
        × ((run_loop 9 s p).0.published ≡ with_message_in_hand p s.published)
  unfolding run_loop loop_step
  stops_in_nine s LoopPc.starting k nd nw nb f = ground arith
  stops_in_nine s p k nd nw nb f = ground arith

  -- Once the thread has ended, nothing is published any more.
  pub Step-done :
      (s t : System M)
      → Step s t
      → s.loop ≡ LoopPc.done
      → (t.loop ≡ LoopPc.done) × (t.shared.published ≡ s.shared.published)
  unfolding loop_step client_step enter wake
  Step-done s _ (loop_runs h) e = ground arith
  Step-done s _ (wakes_up w) e = ground arith
  Step-done s _ (calls i c f h) e = ground arith
  Step-done s _ (client_runs i h) e = ground arith
  Step-done s _ (notifies i f) e = ground arith

  Reach-done :
      (s t : System M)
      → Reach s t
      → s.loop ≡ LoopPc.done
      → (t.loop ≡ LoopPc.done) × (t.shared.published ≡ s.shared.published)
  Reach-done s _ here e = (e, refl)
  Reach-done s u (next {t = t} r st) e =
      let (d, p) = Reach-done s t r e in let (d', p') = Step-done t u st d in (d', p' ∙ p)

  -- The shared state after a call of `try_publish` that was accepted.
  abbrev accept : M → Shared M → Shared M
  accept m s = record s { msg = m; turn = non_realtime; accepted = m ∷ s.accepted; mutex = free }

  -- Thread `i` has got to `p`.
  abbrev client_at : System M → ℕ → Shared M → ClientPc M → System M
  client_at s i t p = record s { shared = t; clients = update s.clients i p }

  -- A call of `try_publish` that finds the turn with the realtime side and the mutex free is
  -- accepted, whether or not the publishing thread still runs.
  try_publish-accepted :
      (m : M) (i : ℕ) (s : System M)
      → s.shared.turn ≡ realtime
      → s.shared.mutex ≡ free
      → s.clients i ≡ ClientPc.idle
      → (cs : ℕ → ClientPc M) × Reach s
          (record s { shared = accept m s.shared; loop = wake s.loop; clients = cs })
  unfolding client_step enter
  try_publish-accepted m i s t f e =
      let held : Shared M = record s.shared { mutex = by_client i } in
      let s1 : System M = client_at s i held (ClientPc.offering m) in
      let s2 : System M = client_at s1 i held (ClientPc.writing m) in
      let s3 : System M = client_at s2 i (record held { msg = m }) (ClientPc.written m) in
      let stored : Shared M = record (accept m s.shared) { mutex = by_client i } in
      let s4 : System M = client_at s3 i stored ClientPc.leaving in
      let s5 : System M = client_at s4 i (accept m s.shared) ClientPc.notifying in
      let r1 : Reach s s1 = next here (calls i (try_publish m) e (ground arith)) in
      let r2 : Reach s s2 = next r1 (client_runs i (ground arith)) in
      let r3 : Reach s s3 = next r2 (client_runs i (ground arith)) in
      let r4 : Reach s s4 = next r3 (client_runs i (ground arith)) in
      let r5 : Reach s s5 = next r4 (client_runs i (ground arith)) in
      (_, next r5 (notifies i (ground arith)))

  -- When the publishing thread has ended while the turn was with the realtime side, a call of
  -- `try_publish` still returns true, and its message is never published.
  pub accepted_after_end_is_lost :
      (m : M) (i : ℕ) (s : System M)
      → s.loop ≡ LoopPc.done
      → s.shared.turn ≡ realtime
      → s.shared.mutex ≡ free
      → s.clients i ≡ ClientPc.idle
      → (t : System M) × Reach s t
        × (t.shared.accepted ≡ m ∷ s.shared.accepted)
        × ((u : System M) → Reach t u → u.shared.published ≡ s.shared.published)
  accepted_after_end_is_lost m i s d t f e =
      let (cs, r) = try_publish-accepted m i s t f e in
      (_, r, refl, λ u v. (Reach-done _ u v (Reach-done s _ r d).0).1)
