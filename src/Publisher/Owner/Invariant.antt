-- ===== src/Publisher/Owner/Invariant.antt =====
-- What the owner of a `RealtimePublisher` relies on in each place.
use portage_realtime_tools_e.Base.{
  ℕ, zero, suc, ◌≡◌, refl, ◌≢◌, Bool, true, false, none, some, update, if◌then◌else◌, ℕ_discrete,
  arith,
}
use portage_realtime_tools_e.Publisher.{
  loop_not_started, Shared, LoopPc, ClientPc, Call, stop, loop_step, enter, client_step, wake,
  System, Step, loop_runs, wakes_up, calls, client_runs, notifies, initial, initialize, Reach, here,
  next,
}
use portage_realtime_tools_e.Publisher.Owner.{
  OwnerPc, constructing, owning, in_stop, awaiting, joining, destroyed, Owned, owner_step, is_call,
  is_idle, OwnedStep, runs, owner_runs, destroys, Lives, created,
}
use portage_realtime_tools_e.Publisher.Held.{Held, Ended, enter-Held, Step-Held, Step-Ended}

module _ {M : Type 0} where
  -- The call of `stop` in the destructor: the flag is stored when the mutex is released.
  abbrev pub Stopping : Bool → ClientPc M → Type 0
  Stopping k ClientPc.stopping = Unit
  Stopping k ClientPc.leaving = k ≡ false
  Stopping k ClientPc.notifying = k ≡ false
  Stopping k ClientPc.idle = k ≡ false
  Stopping k _ = ⊥

  abbrev pub OwnerFact : OwnerPc → Shared M → LoopPc M → (ℕ → ClientPc M) → Type 0
  OwnerFact constructing s q cs = ((i : ℕ) → cs i ≡ ClientPc.idle) × (s.keep_running ≡ true)
  OwnerFact owning s q cs = s.turn ≢ loop_not_started
  OwnerFact in_stop s q cs =
      ((i : ℕ) → i ≢ 0 → cs i ≡ ClientPc.idle) × Stopping s.keep_running (cs 0)
  OwnerFact awaiting s q cs = ((i : ℕ) → cs i ≡ ClientPc.idle) × (s.keep_running ≡ false)
  OwnerFact joining s q cs = ((i : ℕ) → cs i ≡ ClientPc.idle) × (s.keep_running ≡ false)
  OwnerFact destroyed s q cs = ((i : ℕ) → cs i ≡ ClientPc.idle) × (q ≡ LoopPc.done)

  loop-keep_running :
      (s : Shared M) (q : LoopPc M) {t : Shared M} {p : LoopPc M}
      → loop_step s q ≡ some (t, p)
      → t.keep_running ≡ s.keep_running
  unfolding loop_step
  loop-keep_running s LoopPc.starting h = ground arith
  loop-keep_running s q h = ground arith

  loop-OwnerFact :
      (o : OwnerPc) (s : Shared M) (q : LoopPc M) (cs : ℕ → ClientPc M) {t : Shared M}
      {p : LoopPc M}
      → OwnerFact o s q cs
      → loop_step s q ≡ some (t, p)
      → OwnerFact o t p cs
  unfolding loop_step
  loop-OwnerFact constructing s q cs f h = (f.0, ground arith)
  loop-OwnerFact owning s q cs f h = ground arith
  loop-OwnerFact in_stop s q cs f h = (f.0, ground (arith, loop-keep_running s q h))
  loop-OwnerFact awaiting s q cs f h = (f.0, ground arith)
  loop-OwnerFact joining s q cs f h = (f.0, ground arith)
  loop-OwnerFact destroyed s q cs f h = ground arith

  wake-OwnerFact :
      (o : OwnerPc) (s : Shared M) (q : LoopPc M) (cs : ℕ → ClientPc M)
      → OwnerFact o s q cs
      → q ≡ LoopPc.waiting
      → OwnerFact o s LoopPc.woken cs
  wake-OwnerFact destroyed s q cs f e = cc
  wake-OwnerFact o s q cs f e = f

  enter-OwnerFact :
      (i : ℕ) (c : Call M) (s : Shared M) (q : LoopPc M) (cs : ℕ → ClientPc M) {t : Shared M}
      {p : ClientPc M}
      → s.turn ≢ loop_not_started
      → enter i c s ≡ some (t, p)
      → t.turn ≢ loop_not_started
  unfolding enter
  enter-OwnerFact i c s q cs f h = ground arith

  pub idle-blocked :
      (c : ClientPc M) (s : Shared M) {t : Shared M} {p : ClientPc M}
      → c ≡ ClientPc.idle
      → client_step s c ≡ some (t, p)
      → ⊥
  unfolding client_step
  idle-blocked ClientPc.idle s e h = cc
  idle-blocked c s e h = cc

  client-turn :
      (c : ClientPc M) (s : Shared M) {t : Shared M} {p : ClientPc M}
      → s.turn ≢ loop_not_started
      → client_step s c ≡ some (t, p)
      → t.turn ≢ loop_not_started
  unfolding client_step
  client-turn ClientPc.probing s f h = ground arith
  client-turn c s f h = ground arith

  client-Stopping :
      (c : ClientPc M) (s : Shared M) {t : Shared M} {p : ClientPc M}
      → Stopping s.keep_running c
      → client_step s c ≡ some (t, p)
      → Stopping t.keep_running p
  unfolding client_step
  client-Stopping ClientPc.probing s f h = absurd f
  client-Stopping c s f h = ground arith

  client-OwnerFact :
      (o : OwnerPc) (i : ℕ) (s : Shared M) (q : LoopPc M) (cs : ℕ → ClientPc M) {t : Shared M}
      {p : ClientPc M}
      → OwnerFact o s q cs
      → client_step s (cs i) ≡ some (t, p)
      → OwnerFact o t q (update cs i p)
  unfolding ℕ_discrete
  client-OwnerFact constructing i s q cs f h = absurd (idle-blocked (cs i) s (f.0 i) h)
  client-OwnerFact owning i s q cs f h = client-turn (cs i) s f h
  client-OwnerFact in_stop zero s q cs f h =
      (λ j n. ground (arith, f.0 j), client-Stopping (cs 0) s f.1 h)
  client-OwnerFact in_stop (suc i) s q cs f h =
      absurd (idle-blocked (cs (suc i)) s (f.0 (suc i) (λ e. ground arith)) h)
  client-OwnerFact awaiting i s q cs f h = absurd (idle-blocked (cs i) s (f.0 i) h)
  client-OwnerFact joining i s q cs f h = absurd (idle-blocked (cs i) s (f.0 i) h)
  client-OwnerFact destroyed i s q cs f h = absurd (idle-blocked (cs i) s (f.0 i) h)

  notify-OwnerFact :
      (o : OwnerPc) (i : ℕ) (s : Shared M) (q : LoopPc M) (cs : ℕ → ClientPc M)
      → OwnerFact o s q cs
      → cs i ≡ ClientPc.notifying
      → OwnerFact o s (wake q) (update cs i ClientPc.idle)
  unfolding ℕ_discrete
  notify-OwnerFact owning i s q cs f e = f
  notify-OwnerFact in_stop zero s q cs f e = (λ j n. ground (arith, f.0 j), ground arith)
  notify-OwnerFact in_stop (suc i) s q cs f e = ground (arith, f.0 (suc i))
  notify-OwnerFact o i s q cs f e = ground (arith, f.0 i)

  enter-Stopping :
      (s : Shared M) {t : Shared M} {p : ClientPc M}
      → enter 0 stop s ≡ some (t, p)
      → Stopping t.keep_running p
  unfolding enter
  enter-Stopping s h = ground arith

  -- A step of a thread other than the owner keeps what the owner relies on.
  Step-OwnerFact :
      (o : OwnerPc) (s t : System M) (st : Step s t)
      → (is_call st ≡ true → o ≡ owning)
      → OwnerFact o s.shared s.loop s.clients
      → OwnerFact o t.shared t.loop t.clients
  Step-OwnerFact o s _ (loop_runs h) a f = loop-OwnerFact o s.shared s.loop s.clients f h
  Step-OwnerFact o s _ (wakes_up e) a f = wake-OwnerFact o s.shared s.loop s.clients f e
  Step-OwnerFact owning s _ (calls i c e h) a f = enter-OwnerFact i c s.shared s.loop s.clients f h
  Step-OwnerFact o s _ (calls i c e h) a f = ground (arith, a refl)
  Step-OwnerFact o s _ (client_runs i h) a f = client-OwnerFact o i s.shared s.loop s.clients f h
  Step-OwnerFact o s _ (notifies i e) a f = notify-OwnerFact o i s.shared s.loop s.clients f e

  all_idle :
      (cs : ℕ → ClientPc M)
      → ((i : ℕ) → i ≢ 0 → cs i ≡ ClientPc.idle)
      → cs 0 ≡ ClientPc.idle
      → (i : ℕ) → cs i ≡ ClientPc.idle
  all_idle cs f e zero = e
  all_idle cs f e (suc i) = f (suc i) (λ z. ground arith)

  stopped-OwnerFact :
      (c : ClientPc M) (s : System M) {p : OwnerPc}
      → s.clients 0 ≡ c
      → ((i : ℕ) → i ≢ 0 → s.clients i ≡ ClientPc.idle)
      → Stopping s.shared.keep_running (s.clients 0)
      → (if is_idle c then some awaiting else none) ≡ some p
      → OwnerFact p s.shared s.loop s.clients
  stopped-OwnerFact ClientPc.idle s e f k h = ground (arith, all_idle s.clients f e)
  stopped-OwnerFact c s e f k h = ground arith

  owner-OwnerFact :
      (o : OwnerPc) (s : System M) {p : OwnerPc}
      → OwnerFact o s.shared s.loop s.clients
      → owner_step s o ≡ some p
      → OwnerFact p s.shared s.loop s.clients
  unfolding owner_step
  owner-OwnerFact constructing s f h = ground arith
  owner-OwnerFact in_stop s f h = stopped-OwnerFact (s.clients 0) s refl f.0 f.1 h
  owner-OwnerFact o s f h = ground arith

  pub record OwnedInv (o : Owned M) : Type 0 where
    pub held : Held o.system.shared.mutex o.system.loop o.system.clients
    pub ended : Ended o.system.shared o.system.loop
    pub fact : OwnerFact o.owner o.system.shared o.system.loop o.system.clients
    pub reach : (m : M) × Reach (initial m) o.system

  pub OwnedStep-OwnedInv : (o t : Owned M) → OwnedInv o → OwnedStep o t → OwnedInv t
  unfolding ℕ_discrete
  OwnedStep-OwnedInv o _ inv (runs {t = t} st a) = record {
    held = Step-Held o.system t inv.held st;
    ended = Step-Ended o.system t inv.ended st;
    fact = Step-OwnerFact o.owner o.system t st a inv.fact;
    reach = (inv.reach.0, next inv.reach.1 st);
  }
  OwnedStep-OwnedInv o _ inv (owner_runs h) = record {
    held = inv.held;
    ended = inv.ended;
    fact = owner-OwnerFact o.owner o.system inv.fact h;
    reach = inv.reach;
  }
  OwnedStep-OwnedInv o _ inv (destroys e a h) = record {
    held = enter-Held 0 stop o.system.shared o.system.loop o.system.clients inv.held (a 0) h;
    ended = Step-Ended o.system _ inv.ended (calls 0 stop (a 0) h);
    fact = (λ i n. ground (arith, a i), enter-Stopping o.system.shared h);
    reach = (inv.reach.0, next inv.reach.1 (calls 0 stop (a 0) h));
  }

  pub created-OwnedInv : (m : M) → OwnedInv (created m)
  unfolding initialize
  created-OwnedInv m = record {
    held = tt;
    ended = λ e. cc;
    fact = (λ i. refl, refl);
    reach = (m, here);
  }

  pub Lives-OwnedInv : (o t : Owned M) → OwnedInv o → Lives o t → OwnedInv t
  Lives-OwnedInv o _ inv Lives.here = inv
  Lives-OwnedInv o u inv (Lives.next {t = t} r st) =
      OwnedStep-OwnedInv t u (Lives-OwnedInv o t inv r) st
