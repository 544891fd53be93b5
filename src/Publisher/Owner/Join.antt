-- ===== src/Publisher/Owner/Join.antt =====
-- In the destructor the publishing thread is not blocked for ever.
use portage_realtime_tools_e.Base.{ℕ, zero, suc, ◌≡◌, refl, ◌≢◌, false, Option, none, some, arith}
use portage_realtime_tools_e.Publisher.{
  free, by_loop, by_client, Mutex, Shared, LoopPc, ClientPc, loop_step, loop_runs,
}
use portage_realtime_tools_e.Publisher.Invariant.{loop_holds}
use portage_realtime_tools_e.Publisher.Delivery.{no_lost_wakeup}
use portage_realtime_tools_e.Publisher.Shutdown.{keep_going, run_loop}
use portage_realtime_tools_e.Publisher.Owner.{Owned, runs, Lives, here, next}
use portage_realtime_tools_e.Publisher.Held.{Held}
use portage_realtime_tools_e.Publisher.Owner.Invariant.{OwnedInv}

module _ {M : Type 0} where
  pub Lives-trans : (a b c : Owned M) → Lives a b → Lives b c → Lives a c
  Lives-trans a b _ r here = r
  Lives-trans a b _ r (next q st) = next (Lives-trans a b _ r q) st

  pub ended_dec : (q : LoopPc M) → Dec (q ≡ LoopPc.done)
  ended_dec LoopPc.done = yes refl
  ended_dec q = no (λ e. cc)

  -- The publishing thread has run `n` steps.
  abbrev pub after_loop : ℕ → Owned M → Owned M
  after_loop n o =
      let r = run_loop n o.system.shared o.system.loop in
      record o { system = record o.system { shared = r.0; loop = r.1 } }

  Lives-keep_going :
      (n : ℕ) (o : Owned M) (r : Option (Shared M × LoopPc M))
      → loop_step o.system.shared o.system.loop ≡ r
      → ((a : Owned M) → Lives a (after_loop n a))
      → let q = keep_going r (run_loop n) o.system.shared o.system.loop in
        Lives o (record o { system = record o.system { shared = q.0; loop = q.1 } })
  Lives-keep_going n o none e ih = here
  Lives-keep_going n o (some (t, p)) e ih =
      Lives-trans o _ _ (next here (runs (loop_runs e) (λ z. cc)))
        (ih (record o { system = record o.system { shared = t; loop = p } }))

  pub Lives-after_loop : (n : ℕ) (o : Owned M) → Lives o (after_loop n o)
  unfolding run_loop
  Lives-after_loop zero o = here
  Lives-after_loop (suc n) o =
      Lives-keep_going n o (loop_step o.system.shared o.system.loop) refl (Lives-after_loop n)

  -- In the destructor the publishing thread is not blocked in its `wait`.
  pub awaiting-awake :
      (o : Owned M)
      → OwnedInv o
      → ((i : ℕ) → o.system.clients i ≡ ClientPc.idle)
      → o.system.shared.keep_running ≡ false
      → o.system.loop ≢ LoopPc.waiting
  awaiting-awake o inv a k w =
      let (i, n) = no_lost_wakeup inv.reach.0 o.system inv.reach.1 w (ground arith) in
      ground (arith, a i)

  pub mutex-free :
      (m : Mutex) (q : LoopPc M) (cs : ℕ → ClientPc M)
      → Held m q cs
      → ((i : ℕ) → cs i ≡ ClientPc.idle)
      → loop_holds q ≡ false
      → m ≡ free
  mutex-free free q cs f a l = refl
  mutex-free by_loop q cs f a l = cc
  mutex-free (by_client i) q cs f a l = ground (arith, a i)
