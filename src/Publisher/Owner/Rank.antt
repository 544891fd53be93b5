-- ===== src/Publisher/Owner/Rank.antt =====
-- How far the destructor of `RealtimePublisher` is from its end, and that no step leads away from it.
use portage_realtime_tools_e.Base.{
  ℕ, zero, suc, ◌+◌, ◌≡◌, ◌<◌, ◌≤◌, ◌⊎◌, inl, inr, refl, ap, Bool, true, false, some, update, arith,
  ℕ_discrete, Bool-cases,
}
use mathlib.Core.Path.{subst}
use portage_realtime_tools_e.Publisher.{
  by_loop, by_client, Mutex, Shared, LoopPc, ClientPc, loop_step, client_step, wake, System,
  loop_runs, wakes_up, calls, client_runs, notifies,
}
use portage_realtime_tools_e.Publisher.Invariant.{loop_holds, client_holds, Reach-Inv}
use portage_realtime_tools_e.Publisher.Owner.{
  OwnerPc, in_stop, awaiting, joining, Owned, owner_step, OwnedStep, runs, owner_runs, destroys,
}
use portage_realtime_tools_e.Publisher.Owner.Invariant.{OwnedInv, OwnerFact, Stopping, idle-blocked}

-- The steps that the publishing thread has at most before it blocks or ends: with `keep_running_`
-- cleared, or with it set and the mutex taken.
abbrev loop_rank : {M : Type 0} → Bool → LoopPc M → ℕ
loop_rank k LoopPc.done = 0
loop_rank k LoopPc.ending = 1
loop_rank false LoopPc.head = 2
loop_rank false LoopPc.starting = 3
loop_rank false (LoopPc.publishing m) = 3
loop_rank false (LoopPc.sending m) = 3
loop_rank true LoopPc.head = 10
loop_rank true LoopPc.starting = 11
loop_rank true (LoopPc.publishing m) = 11
loop_rank true (LoopPc.sending m) = 12
loop_rank k (LoopPc.copied m) = 4
loop_rank k LoopPc.copying = 5
loop_rank k LoopPc.testing_stop = 6
loop_rank k LoopPc.testing = 7
loop_rank k LoopPc.locking = 8
loop_rank k LoopPc.woken = 8
loop_rank k LoopPc.ready = 9
loop_rank k LoopPc.waiting = 9
loop_rank k LoopPc.blocking = 10

abbrev stop_rank : {M : Type 0} → ClientPc M → ℕ
stop_rank ClientPc.stopping = 4
stop_rank ClientPc.leaving = 3
stop_rank ClientPc.notifying = 2
stop_rank _ = 0

abbrev owner_rank : OwnerPc → ℕ
owner_rank in_stop = 3
owner_rank awaiting = 2
owner_rank joining = 1
owner_rank _ = 0

abbrev pub in_destructor : OwnerPc → Bool
in_destructor in_stop = true
in_destructor awaiting = true
in_destructor joining = true
in_destructor _ = false

module _ {M : Type 0} where
  abbrev rank_of : OwnerPc → Shared M → LoopPc M → ClientPc M → ℕ
  rank_of o s q c = loop_rank s.keep_running q + stop_rank c + owner_rank o

  -- A bound of the steps that are left.
  abbrev pub rank : Owned M → ℕ
  rank o = rank_of o.owner o.system.shared o.system.loop (o.system.clients 0)

  pub loop-rank :
      (s : Shared M) (q : LoopPc M) {t : Shared M} {p : LoopPc M}
      → (s.keep_running ≡ true → s.mutex ≡ by_client 0)
      → (loop_holds q ≡ true → s.mutex ≡ by_loop)
      → loop_step s q ≡ some (t, p)
      → loop_rank t.keep_running p < loop_rank s.keep_running q
  unfolding loop_step
  loop-rank s LoopPc.starting k o h = ground arith
  loop-rank s q k o h = ground arith

  pub client-rank :
      (s : Shared M) (q : LoopPc M) (c : ClientPc M) {t : Shared M} {p : ClientPc M}
      → Stopping s.keep_running c
      → (client_holds c ≡ true → loop_holds q ≡ false)
      → client_step s c ≡ some (t, p)
      → loop_rank t.keep_running q + stop_rank p < loop_rank s.keep_running q + stop_rank c
  unfolding client_step
  client-rank s LoopPc.starting c f o h = ground arith
  client-rank s q c f o h = ground arith

  pub wake-rank : (k : Bool) (q : LoopPc M) → loop_rank k (wake q) ≤ loop_rank k q
  unfolding wake
  wake-rank k LoopPc.waiting = ground arith
  wake-rank k q = ground arith

  lock_of_stop :
      (c : ClientPc M) (m : Mutex)
      → Stopping true c
      → (client_holds c ≡ true → m ≡ by_client 0)
      → m ≡ by_client 0
  lock_of_stop ClientPc.stopping m f o = o refl
  lock_of_stop c m f o = ground arith

  -- While the flag is set in the destructor, its call of `stop` has the mutex.
  keeps-lock :
      (p : OwnerPc) (s : System M)
      → OwnerFact p s.shared s.loop s.clients
      → (client_holds (s.clients 0) ≡ true → s.shared.mutex ≡ by_client 0)
      → in_destructor p ≡ true
      → s.shared.keep_running ≡ true
      → s.shared.mutex ≡ by_client 0
  keeps-lock in_stop s f o d k =
      lock_of_stop (s.clients 0) s.shared.mutex (subst (λ b. Stopping b (s.clients 0)) k f.1) o
  keeps-lock awaiting s f o d k = ground (arith, f.1)
  keeps-lock joining s f o d k = ground (arith, f.1)
  keeps-lock p s f o d k = ground arith

  -- Past a step of a call, which is the destructor's `stop`.
  client-lowers :
      (p : OwnerPc) (i : ℕ) (s : System M) {t : Shared M} {c : ClientPc M}
      → OwnerFact p s.shared s.loop s.clients
      → (client_holds (s.clients 0) ≡ true → loop_holds s.loop ≡ false)
      → in_destructor p ≡ true
      → client_step s.shared (s.clients i) ≡ some (t, c)
      → rank_of p t s.loop (update s.clients i c 0) < rank_of p s.shared s.loop (s.clients 0)
  unfolding ℕ_discrete
  client-lowers in_stop zero s f o d h =
      ground (arith, client-rank s.shared s.loop (s.clients 0) f.1 o h)
  client-lowers in_stop (suc i) s f o d h =
      absurd (idle-blocked (s.clients (suc i)) s.shared (f.0 (suc i) (λ e. ground arith)) h)
  client-lowers awaiting i s f o d h = absurd (idle-blocked (s.clients i) s.shared (f.0 i) h)
  client-lowers joining i s f o d h = absurd (idle-blocked (s.clients i) s.shared (f.0 i) h)
  client-lowers p i s f o d h = ground arith

  pub notify-lowers :
      (p : OwnerPc) (i : ℕ) (s : System M)
      → OwnerFact p s.shared s.loop s.clients
      → in_destructor p ≡ true
      → s.clients i ≡ ClientPc.notifying
      → rank_of p s.shared (wake s.loop) (update s.clients i ClientPc.idle 0)
        < rank_of p s.shared s.loop (s.clients 0)
  unfolding ℕ_discrete
  notify-lowers in_stop zero s f d e = ground (arith, wake-rank s.shared.keep_running s.loop)
  notify-lowers in_stop (suc i) s f d e = ground (arith, f.0 (suc i))
  notify-lowers awaiting i s f d e = ground (arith, f.0 i)
  notify-lowers joining i s f d e = ground (arith, f.0 i)
  notify-lowers p i s f d e = ground arith

  -- The test of `is_running()` in the loop of the destructor, when it is true.
  abbrev pub Polls : Owned M → Owned M → Type 0
  Polls o t = (o.owner ≡ awaiting) × (o.system.shared.is_running ≡ true) × (t ≡ o)

  owner-lowers :
      (p : OwnerPc) (s : System M) {q : OwnerPc}
      → in_destructor p ≡ true
      → owner_step s p ≡ some q
      → Polls (record { system = s; owner = p }) (record { system = s; owner = q })
        ⊎ (rank_of q s.shared s.loop (s.clients 0) < rank_of p s.shared s.loop (s.clients 0))
  unfolding owner_step
  owner-lowers in_stop s d h = inr (ground arith)
  owner-lowers awaiting s {q} d h = elim (Bool-cases s.shared.is_running) [
    | inl e ↦
        inl (
          refl,
          e,
          ap (λ x. record { system = s; owner = x }) {x = q} {y = awaiting} (ground arith),
        )
    | inr e ↦ inr (ground arith)
  ]
  owner-lowers joining s d h = inr (ground arith)
  owner-lowers p s d h = ground arith

  pub loop-lowers :
      (o : Owned M) {t : Shared M} {p : LoopPc M}
      → OwnedInv o
      → in_destructor o.owner ≡ true
      → loop_step o.system.shared o.system.loop ≡ some (t, p)
      → rank_of o.owner t p (o.system.clients 0) < rank o
  loop-lowers o inv d h =
      let (rest, i) = Reach-Inv inv.reach.0 o.system inv.reach.1 in
      ground (
        arith,
        loop-rank o.system.shared o.system.loop
            (keeps-lock o.owner o.system inv.fact (i.client_owns 0) d) i.loop_owns h,
      )

  pub stop-lowers :
      (o : Owned M) (i : ℕ) {t : Shared M} {c : ClientPc M}
      → OwnedInv o
      → in_destructor o.owner ≡ true
      → client_step o.system.shared (o.system.clients i) ≡ some (t, c)
      → rank_of o.owner t o.system.loop (update o.system.clients i c 0) < rank o
  stop-lowers o i inv d h =
      let (rest, v) = Reach-Inv inv.reach.0 o.system inv.reach.1 in
      client-lowers o.owner i o.system inv.fact
        (λ c. ground (arith, v.client_owns 0 c, v.loop_owns)) d h

  -- In the destructor each step leads nearer to its end, except the test of `is_running()` in its
  -- loop, which changes nothing when it is true.
  pub step-lowers :
      (o t : Owned M)
      → OwnedInv o
      → in_destructor o.owner ≡ true
      → OwnedStep o t
      → Polls o t ⊎ (rank t < rank o)
  step-lowers o _ inv d (runs (loop_runs h) a) = inr (loop-lowers o inv d h)
  step-lowers o _ inv d (runs (wakes_up e) a) = inr (ground arith)
  step-lowers o _ inv d (runs (calls i c e h) a) = ground (arith, a refl)
  step-lowers o _ inv d (runs (client_runs i h) a) = inr (stop-lowers o i inv d h)
  step-lowers o _ inv d (runs (notifies i e) a) =
      inr (notify-lowers o.owner i o.system inv.fact d e)
  step-lowers o _ inv d (owner_runs h) = owner-lowers o.owner o.system d h
  step-lowers o _ inv d (destroys e a h) = ground arith
