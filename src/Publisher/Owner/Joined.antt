-- ===== src/Publisher/Owner/Joined.antt =====
-- The destructor of `RealtimePublisher` joins a publishing thread that has ended.
use portage_realtime_tools_e.Base.{ℕ, ◌≡◌, ◌≢◌, refl, Bool, true, false, Option, some, arith}
use portage_realtime_tools_e.Publisher.{
  loop_not_started, Shared, LoopPc, ClientPc, Call, stop, loop_step, enter, client_step, wake,
  System, Step, loop_runs, wakes_up, calls, client_runs, notifies, initialize,
}
use portage_realtime_tools_e.Publisher.Invariant.{LoopFact, Reach-Inv}
use portage_realtime_tools_e.Publisher.Owner.{
  OwnerPc, constructing, owning, in_stop, awaiting, joining, Owned, owner_step, OwnedStep, runs,
  owner_runs, destroys, Lives, here, next, created,
}
use portage_realtime_tools_e.Publisher.Owner.Invariant.{OwnedInv, created-OwnedInv, Lives-OwnedInv}

-- The constructor has returned.
abbrev is_constructed : OwnerPc → Bool
is_constructed constructing = false
is_constructed _ = true

abbrev is_joining : OwnerPc → Bool
is_joining joining = true
is_joining _ = false

module _ {M : Type 0} where
  -- Where the publishing thread is while `is_running_` is not set.
  abbrev is_outside : LoopPc M → Bool
  is_outside LoopPc.starting = true
  is_outside LoopPc.done = true
  is_outside _ = false

  abbrev Facts : OwnerPc → Shared M → LoopPc M → Type 0
  Facts p s q =
      (is_constructed p ≡ true → s.turn ≢ loop_not_started)
      × (s.is_running ≡ false → is_outside q ≡ true)
      × (is_joining p ≡ true → q ≡ LoopPc.done)

  loop-Facts :
      (p : OwnerPc) (s : Shared M) (q : LoopPc M) {t : Shared M} {r : LoopPc M}
      → Facts p s q
      → loop_step s q ≡ some (t, r)
      → Facts p t r
  unfolding loop_step
  loop-Facts p s LoopPc.starting f h = ground arith
  loop-Facts p s q f h = ground arith

  wake-Facts : (p : OwnerPc) (s : Shared M) (q : LoopPc M) → Facts p s q → Facts p s (wake q)
  unfolding wake
  wake-Facts p s LoopPc.waiting f = ground arith
  wake-Facts p s q f = f

  enter-Facts :
      (p : OwnerPc) (i : ℕ) (c : Call M) (s : Shared M) (q : LoopPc M) {t : Shared M}
      {r : ClientPc M}
      → Facts p s q
      → enter i c s ≡ some (t, r)
      → Facts p t q
  unfolding enter
  enter-Facts p i stop s q f h = ground arith
  enter-Facts p i c s q f h = ground arith

  client-Facts :
      (p : OwnerPc) (c : ClientPc M) (s : Shared M) (q : LoopPc M) {t : Shared M} {r : ClientPc M}
      → Facts p s q
      → client_step s c ≡ some (t, r)
      → Facts p t q
  unfolding client_step
  client-Facts p ClientPc.probing s q f h = ground arith
  client-Facts p c s q f h = ground arith

  outside-done :
      (s : Shared M) (q : LoopPc M)
      → (q ≡ LoopPc.starting → s.turn ≡ loop_not_started)
      → s.turn ≢ loop_not_started
      → is_outside q ≡ true
      → q ≡ LoopPc.done
  outside-done s LoopPc.starting l t o = absurd (t (l refl))
  outside-done s q l t o = ground arith

  owner-Facts :
      (p : OwnerPc) (s : System M) {q : OwnerPc}
      → (s.loop ≡ LoopPc.starting → s.shared.turn ≡ loop_not_started)
      → Facts p s.shared s.loop
      → owner_step s p ≡ some q
      → Facts q s.shared s.loop
  unfolding owner_step
  owner-Facts constructing s l f h = ground arith
  owner-Facts awaiting s l f h =
      (λ c. f.0 refl, f.1, λ j. outside-done s.shared s.loop l (f.0 refl) (ground arith))
  owner-Facts p s l f h = ground arith

  constructed :
      (p : OwnerPc) (s : Shared M)
      → (is_constructed p ≡ true → s.turn ≢ loop_not_started)
      → p ≢ constructing
      → s.turn ≢ loop_not_started
  constructed constructing s f n = absurd (n refl)
  constructed p s f n = f refl

  Step-Facts :
      (p : OwnerPc) (s t : System M) → Facts p s.shared s.loop → Step s t → Facts p t.shared t.loop
  Step-Facts p s _ f (loop_runs h) = loop-Facts p s.shared s.loop f h
  Step-Facts p s _ f (wakes_up e) = ground arith
  Step-Facts p s _ f (calls i c e h) = enter-Facts p i c s.shared s.loop f h
  Step-Facts p s _ f (client_runs i h) = client-Facts p (s.clients i) s.shared s.loop f h
  Step-Facts p s _ f (notifies i e) = wake-Facts p s.shared s.loop f

  starting-turn :
      (s : Shared M) (rest : Option M) (q : LoopPc M)
      → LoopFact s rest q
      → q ≡ LoopPc.starting
      → s.turn ≡ loop_not_started
  starting-turn s rest LoopPc.starting f e = f
  starting-turn s rest q f e = cc

  destroys-Facts :
      (s t : Shared M) (q : LoopPc M) {c : ClientPc M}
      → Facts owning s q
      → enter 0 stop s ≡ some (t, c)
      → Facts in_stop t q
  unfolding enter
  destroys-Facts s t q f h = ground arith

  OwnedStep-Facts :
      (o t : Owned M)
      → OwnedInv o
      → Facts o.owner o.system.shared o.system.loop
      → OwnedStep o t
      → Facts t.owner t.system.shared t.system.loop
  OwnedStep-Facts o _ inv f (runs {t = t} st a) = Step-Facts o.owner o.system t f st
  OwnedStep-Facts o _ inv f (owner_runs h) =
      let (rest, i) = Reach-Inv inv.reach.0 o.system inv.reach.1 in
      owner-Facts o.owner o.system (starting-turn o.system.shared rest o.system.loop i.loop_fact) f
        h
  OwnedStep-Facts o _ inv f (destroys {t = t} e a h) =
      destroys-Facts o.system.shared t o.system.loop (ground arith) h

  Lives-Facts :
      (m : M) (o : Owned M) → Lives (created m) o → Facts o.owner o.system.shared o.system.loop
  unfolding initialize
  Lives-Facts m _ here = ground arith
  Lives-Facts m u (next {t = t} r st) =
      OwnedStep-Facts t u (Lives-OwnedInv (created m) t (created-OwnedInv m) r) (Lives-Facts m t r)
        st

  -- When the destructor has left its loop, and is at its join, the publishing thread has ended, so
  -- that the join is not blocked; and a constructed object has had its first turn.
  pub joins_ended_thread :
      (m : M) (o : Owned M)
      → Lives (created m) o
      → (o.owner ≡ joining → o.system.loop ≡ LoopPc.done)
        × (o.owner ≢ constructing → o.system.shared.turn ≢ loop_not_started)
  joins_ended_thread m o r =
      let f = Lives-Facts m o r in
      (λ e. f.2 (ground arith), λ n. constructed o.owner o.system.shared f.0 n)
