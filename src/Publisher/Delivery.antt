-- ===== src/Publisher/Delivery.antt =====
-- What `try_publish` promises: exclusion, delivery in order, and that no notification is lost.
use portage_realtime_tools_e.Base.{
  ℕ, ◌≡◌, refl, ◌≢◌, Bool, true, false, Option, none, some, update, arith,
}
use portage_realtime_tools_e.Publisher.{
  non_realtime, Shared, LoopPc, ClientPc, Call, may_wake, loop_step, enter, client_step, wake,
  System, Step, loop_runs, wakes_up, calls, client_runs, notifies, initial, Reach, here, next,
}
use portage_realtime_tools_e.Publisher.Invariant.{
  loop_holds, client_holds, push, LoopFact, Inv, Reach-Inv,
}

-- The thread will call `notify_one`.
abbrev pub will_notify : {M : Type 0} → ClientPc M → Bool
will_notify ClientPc.leaving = true
will_notify ClientPc.notifying = true
will_notify _ = false

module _ {M : Type 0} where
  -- No two threads are between taking and releasing `msg_mutex_`: neither two callers, nor a caller
  -- and the publishing thread.
  mutual_exclusion :
      (m : M) (s : System M)
      → Reach (initial m) s
      → (i j : ℕ) → client_holds (s.clients i) ≡ true
      → (loop_holds s.loop ≡ false) × (client_holds (s.clients j) ≡ true → i ≡ j)
  mutual_exclusion m s r i j h =
      let (rest, inv) = Reach-Inv m s r in
      ground (arith, inv.client_owns i, inv.client_owns j, inv.loop_owns)

  -- The messages that were published are those for which `try_publish` returns true, each once and
  -- in that order, but for the newest, which may be missing; and that one is missing only while the
  -- turn is `NON_REALTIME`.
  pub published_in_order :
      (m : M) (s : System M)
      → Reach (initial m) s
      → (rest : Option M) × (s.shared.accepted ≡ push rest s.shared.published)
        × (s.shared.turn ≢ non_realtime → rest ≡ none)
  published_in_order m s r = let (rest, inv) = Reach-Inv m s r in (rest, inv.logs, inv.caught_up)

  -- Whenever the publishing thread is back at the head of its loop and `stop` has not been called,
  -- every message that `try_publish` accepted has been published.
  published_at_head :
      (m : M) (s : System M)
      → Reach (initial m) s
      → s.loop ≡ LoopPc.head
      → s.shared.keep_running ≡ true
      → s.shared.accepted ≡ s.shared.published
  published_at_head m s r e k =
      let (rest, inv) = Reach-Inv m s r in ground (arith, inv.loop_fact, inv.logs)

  -- The thread that made the predicate true has still to notify.
  abbrev Notified : LoopPc M → Shared M → (ℕ → ClientPc M) → Type 0
  Notified p s cs = p ≡ LoopPc.waiting → may_wake s ≡ true → (i : ℕ) × (will_notify (cs i) ≡ true)

  loop-Notified :
      (q : LoopPc M) (s : Shared M) (cs : ℕ → ClientPc M) {t : Shared M} {p : LoopPc M}
      → (q ≡ LoopPc.blocking → may_wake s ≡ false)
      → loop_step s q ≡ some (t, p)
      → Notified p t cs
  unfolding loop_step
  loop-Notified LoopPc.starting s cs b h e w = cc
  loop-Notified q s cs b h e w = absurd (ground arith)

  -- The invariant where the publishing thread is about to block.
  pub blocking-may_wake :
      (q : LoopPc M) (s : Shared M) (rest : Option M)
      → LoopFact s rest q
      → q ≡ LoopPc.blocking
      → may_wake s ≡ false
  blocking-may_wake LoopPc.blocking s rest f e = f.1
  blocking-may_wake q s rest f e = cc

  enter-Notified :
      (i : ℕ) (c : Call M) (q : LoopPc M) (s : Shared M) (cs : ℕ → ClientPc M) {t : Shared M}
      {p : ClientPc M}
      → Notified q s cs
      → cs i ≡ ClientPc.idle
      → enter i c s ≡ some (t, p)
      → Notified q t (update cs i p)
  unfolding enter
  enter-Notified i c q s cs n e h w v = let (j, l) = n w (ground arith) in (j, ground arith)

  client-Notified :
      (i : ℕ) (c : ClientPc M) (q : LoopPc M) (s : Shared M) (cs : ℕ → ClientPc M) {t : Shared M}
      {p : ClientPc M}
      → Notified q s cs
      → cs i ≡ c
      → client_step s c ≡ some (t, p)
      → Notified q t (update cs i p)
  unfolding client_step
  client-Notified i (ClientPc.written m) q s cs n e h w v = (i, ground arith)
  client-Notified i ClientPc.stopping q s cs n e h w v = (i, ground arith)
  client-Notified i ClientPc.leaving q s cs n e h w v = (i, ground arith)
  client-Notified i c q s cs n e h w v = let (j, l) = n w (ground arith) in (j, ground arith)

  notify-Notified : (q : LoopPc M) (s : Shared M) (cs : ℕ → ClientPc M) → Notified (wake q) s cs
  unfolding wake
  notify-Notified LoopPc.waiting s cs e w = absurd (cc)
  notify-Notified q s cs e w = absurd (cc)

  Step-Notified :
      (s t : System M)
      → (rest : Option M) × Inv s.shared s.loop s.clients rest
      → Notified s.loop s.shared s.clients
      → Step s t
      → Notified t.loop t.shared t.clients
  Step-Notified s _ (rest, inv) n (loop_runs h) =
      loop-Notified s.loop s.shared s.clients (blocking-may_wake s.loop s.shared rest inv.loop_fact)
        h
  Step-Notified s _ inv n (wakes_up e) = λ e w. absurd (cc)
  Step-Notified s _ inv n (calls i c e h) = enter-Notified i c s.loop s.shared s.clients n e h
  Step-Notified s _ inv n (client_runs i h) =
      client-Notified i (s.clients i) s.loop s.shared s.clients n refl h
  Step-Notified s _ inv n (notifies i e) = notify-Notified s.loop s.shared _

  -- No wakeup is lost: while the publishing thread is blocked in `wait` although there is a message
  -- for it or `stop` was called, some calling thread has still to notify it.
  pub no_lost_wakeup :
      (m : M) (s : System M)
      → Reach (initial m) s
      → s.loop ≡ LoopPc.waiting
      → may_wake s.shared ≡ true
      → (i : ℕ) × (will_notify (s.clients i) ≡ true)
  no_lost_wakeup m _ here e w = absurd (cc)
  no_lost_wakeup m t (next {t = s} r st) e w =
      Step-Notified s t (Reach-Inv m s r) (no_lost_wakeup m s r) st e w
