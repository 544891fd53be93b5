-- ===== src/Publisher/Owner/Ends.antt =====
-- The destructor of `RealtimePublisher` returns, whatever the order of the threads' steps.
use portage_realtime_tools_e.Base.{
  ℕ, ◌≡◌, ◌<◌, ◌≢◌, ◌⊎◌, inl, inr, refl, Bool, true, false, some, arith, Bool-cases,
}
use portage_realtime_tools_e.Publisher.{
  free, by_loop, Shared, LoopPc, ClientPc, loop_step, client_step, System, Step, wakes_up,
  loop_runs, client_runs, notifies,
}
use portage_realtime_tools_e.Publisher.Invariant.{loop_holds}
use portage_realtime_tools_e.Publisher.Owner.{
  OwnerPc, in_stop, awaiting, joining, destroyed, Owned, owner_step, OwnedStep, runs, owner_runs,
  Lives, created,
}
use portage_realtime_tools_e.Publisher.Owner.Invariant.{OwnedInv, created-OwnedInv, Lives-OwnedInv}
use portage_realtime_tools_e.Publisher.Owner.Join.{ended_dec, awaiting-awake, mutex-free}
use portage_realtime_tools_e.Publisher.Owner.Rank.{
  in_destructor, rank, Polls, loop-lowers, stop-lowers, notify-lowers, step-lowers,
}

module _ {M : Type 0} where
  abbrev wakes : {s t : System M} → Step s t → Bool
  wakes (wakes_up _) = true
  wakes _ = false

  -- The publishing thread wakes up with no notification.
  abbrev pub is_spurious : {o t : Owned M} → OwnedStep o t → Bool
  is_spurious (runs st _) = wakes st
  is_spurious _ = false

  -- A step, not a spurious wakeup, that leads nearer to the end of the destructor.
  abbrev pub Advances : Owned M → Type 0
  Advances o = (t : Owned M) × (st : OwnedStep o t) × (is_spurious st ≡ false) × (rank t < rank o)

  loop-moves :
      (s : Shared M) (q : LoopPc M)
      → q ≢ LoopPc.done
      → q ≢ LoopPc.waiting
      → (loop_holds q ≡ false → s.mutex ≡ free)
      → (t : Shared M) × (p : LoopPc M) × (loop_step s q ≡ some (t, p))
  unfolding loop_step
  loop-moves s LoopPc.done n w f = absurd (n refl)
  loop-moves s LoopPc.waiting n w f = absurd (w refl)
  loop-moves s LoopPc.locking n w f = (record s { mutex = by_loop }, LoopPc.testing, ground arith)
  loop-moves s LoopPc.woken n w f = (record s { mutex = by_loop }, LoopPc.testing, ground arith)
  loop-moves s q n w f = (_, _, refl)

  loop-Advances :
      (o : Owned M)
      → OwnedInv o
      → in_destructor o.owner ≡ true
      → ((i : ℕ) → o.system.clients i ≡ ClientPc.idle)
      → o.system.shared.keep_running ≡ false
      → o.system.loop ≢ LoopPc.done
      → Advances o
  loop-Advances o inv d a k n =
      let (t, p, h) =
        loop-moves o.system.shared o.system.loop n (awaiting-awake o inv a k)
          (mutex-free o.system.shared.mutex o.system.loop o.system.clients inv.held a) in
      (_, runs (loop_runs h) (λ z. cc), refl, loop-lowers o inv d h)

  -- The destructor's call of `stop` is never blocked once it has the mutex.
  stop-Advances :
      (s : System M) (c : ClientPc M)
      → s.clients 0 ≡ c
      → OwnedInv (record { system = s; owner = in_stop })
      → Advances (record { system = s; owner = in_stop })
  unfolding client_step owner_step
  stop-Advances s ClientPc.stopping e inv =
      let h : client_step s.shared (s.clients 0)
          ≡ some (record s.shared { keep_running = false }, ClientPc.leaving) =
        ground arith in
      (_, runs (client_runs 0 h) (λ z. cc), refl, stop-lowers _ 0 inv refl h)
  stop-Advances s ClientPc.leaving e inv =
      let h : client_step s.shared (s.clients 0)
          ≡ some (record s.shared { mutex = free }, ClientPc.notifying) =
        ground arith in
      (_, runs (client_runs 0 h) (λ z. cc), refl, stop-lowers _ 0 inv refl h)
  stop-Advances s ClientPc.notifying e inv =
      (_, runs (notifies 0 e) (λ z. cc), refl, notify-lowers in_stop 0 s inv.fact refl e)
  stop-Advances s ClientPc.idle e inv =
      let h : owner_step s in_stop ≡ some awaiting = ground arith in
      (record { system = s; owner = awaiting }, owner_runs h, refl, ground arith)
  stop-Advances s c e inv = ground (arith, inv.fact)

  wait-Advances :
      (s : System M)
      → OwnedInv (record { system = s; owner = awaiting })
      → Advances (record { system = s; owner = awaiting })
  unfolding owner_step
  wait-Advances s inv = elim (Bool-cases s.shared.is_running) [
    | inl e ↦ loop-Advances _ inv refl inv.fact.0 inv.fact.1 (λ z. ground (arith, inv.ended z))
    | inr e ↦
        let h : owner_step s awaiting ≡ some joining = ground arith in
        (record { system = s; owner = joining }, owner_runs h, refl, ground arith)
  ]

  join-Advances :
      (s : System M)
      → OwnedInv (record { system = s; owner = joining })
      → Advances (record { system = s; owner = joining })
  unfolding owner_step
  join-Advances s inv = elim (ended_dec s.loop) [
    | yes e ↦
        let h : owner_step s joining ≡ some destroyed = ground arith in
        (record { system = s; owner = destroyed }, owner_runs h, refl, ground arith)
    | no n ↦ loop-Advances _ inv refl inv.fact.0 inv.fact.1 n
  ]

  advances :
      (p : OwnerPc) (s : System M)
      → in_destructor p ≡ true
      → OwnedInv (record { system = s; owner = p })
      → Advances (record { system = s; owner = p })
  advances in_stop s d inv = stop-Advances s (s.clients 0) refl inv
  advances awaiting s d inv = wait-Advances s inv
  advances joining s d inv = join-Advances s inv
  advances p s d inv = cc

  -- From where the destructor's call of `stop` has the mutex, each step of a thread leads nearer to the end of the
  -- destructor, by a natural number that it lowers, but for the test of `is_running()` in the
  -- destructor's loop, which changes nothing while that is true; and until the destructor has
  -- returned, some thread has a step that leads nearer, without a spurious wakeup. So whatever the
  -- order of the steps, the destructor returns after boundedly many steps other than these tests.
  pub destructor_ends :
      (m : M) (o : Owned M)
      → Lives (created m) o
      → in_destructor o.owner ≡ true
      → ((t : Owned M) → OwnedStep o t → Polls o t ⊎ (rank t < rank o)) × Advances o
  destructor_ends m o r d =
      let inv = Lives-OwnedInv (created m) o (created-OwnedInv m) r in
      (λ t st. step-lowers o t inv d st, advances o.owner o.system d inv)
