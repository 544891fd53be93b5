-- ===== src/Publisher/Held.antt =====
-- `msg_mutex_` is held only by a thread in a critical section.
use portage_realtime_tools_e.Base.{ℕ, ◌≡◌, ◌∙◌, false, refl, true, some, update, arith}
use portage_realtime_tools_e.Publisher.{
  initialize, initial, Reach, here, next, free, by_loop, by_client, Mutex, Shared, LoopPc, ClientPc,
  Call, loop_step, enter, client_step, wake, System, Step, loop_runs, wakes_up, calls, client_runs,
  notifies,
}
use portage_realtime_tools_e.Publisher.Invariant.{loop_holds, client_holds}

module _ {M : Type 0} where
  -- The holder of the mutex is in a critical section.
  abbrev pub Held : Mutex → LoopPc M → (ℕ → ClientPc M) → Type 0
  Held free q cs = Unit
  Held by_loop q cs = loop_holds q ≡ true
  Held (by_client i) q cs = client_holds (cs i) ≡ true

  loop-Held :
      (s : Shared M) (q : LoopPc M) (cs : ℕ → ClientPc M) {t : Shared M} {p : LoopPc M}
      → Held s.mutex q cs
      → loop_step s q ≡ some (t, p)
      → Held t.mutex p cs
  unfolding loop_step
  loop-Held s LoopPc.starting cs f h = ground arith
  loop-Held s q cs f h = ground arith

  wake-Held : (q : LoopPc M) (m : Mutex) (cs : ℕ → ClientPc M) → Held m q cs → Held m (wake q) cs
  unfolding wake
  wake-Held LoopPc.waiting m cs f = ground arith
  wake-Held q m cs f = f

  pub enter-Held :
      (i : ℕ) (c : Call M) (s : Shared M) (q : LoopPc M) (cs : ℕ → ClientPc M) {t : Shared M}
      {p : ClientPc M}
      → Held s.mutex q cs
      → cs i ≡ ClientPc.idle
      → enter i c s ≡ some (t, p)
      → Held t.mutex q (update cs i p)
  unfolding enter
  enter-Held i c s q cs f e h = ground arith

  client-Held :
      (i : ℕ) (c : ClientPc M) (s : Shared M) (q : LoopPc M) (cs : ℕ → ClientPc M) {t : Shared M}
      {p : ClientPc M}
      → Held s.mutex q cs
      → cs i ≡ c
      → client_step s c ≡ some (t, p)
      → Held t.mutex q (update cs i p)
  unfolding client_step
  client-Held i ClientPc.probing s q cs f e h = ground arith
  client-Held i c s q cs f e h = ground arith

  notify-Held :
      (i : ℕ) (m : Mutex) (q : LoopPc M) (cs : ℕ → ClientPc M)
      → Held m q cs
      → cs i ≡ ClientPc.notifying
      → Held m (wake q) (update cs i ClientPc.idle)
  unfolding wake
  notify-Held i m LoopPc.waiting cs f e = ground arith
  notify-Held i m q cs f e = ground arith

  pub Step-Held :
      (s t : System M)
      → Held s.shared.mutex s.loop s.clients
      → Step s t
      → Held t.shared.mutex t.loop t.clients
  Step-Held s _ f (loop_runs h) = loop-Held s.shared s.loop s.clients f h
  Step-Held s _ f (wakes_up e) = ground arith
  Step-Held s _ f (calls i c e h) = enter-Held i c s.shared s.loop s.clients f e h
  Step-Held s _ f (client_runs i h) = client-Held i (s.clients i) s.shared s.loop s.clients f refl h
  Step-Held s _ f (notifies i e) = notify-Held i s.shared.mutex s.loop s.clients f e

  -- The flag of a thread that has ended.
  abbrev pub Ended : Shared M → LoopPc M → Type 0
  Ended s q = q ≡ LoopPc.done → s.is_running ≡ false

  loop-Ended :
      (s : Shared M) (q : LoopPc M) {t : Shared M} {p : LoopPc M}
      → loop_step s q ≡ some (t, p)
      → Ended t p
  unfolding loop_step
  loop-Ended s LoopPc.starting h e = ground arith
  loop-Ended s q h e = ground arith

  client-is_running :
      (s : Shared M) (c : ClientPc M) {t : Shared M} {p : ClientPc M}
      → client_step s c ≡ some (t, p)
      → t.is_running ≡ s.is_running
  unfolding client_step
  client-is_running s ClientPc.probing h = ground arith
  client-is_running s c h = ground arith

  enter-is_running :
      (i : ℕ) (c : Call M) (s : Shared M) {t : Shared M} {p : ClientPc M}
      → enter i c s ≡ some (t, p)
      → t.is_running ≡ s.is_running
  unfolding enter
  enter-is_running i c s h = ground arith

  wake-done : (q : LoopPc M) → wake q ≡ LoopPc.done → q ≡ LoopPc.done
  unfolding wake
  wake-done LoopPc.waiting e = cc
  wake-done q e = e

  pub Step-Ended : (s t : System M) → Ended s.shared s.loop → Step s t → Ended t.shared t.loop
  Step-Ended s _ f (loop_runs h) e = loop-Ended s.shared s.loop h e
  Step-Ended s _ f (wakes_up w) e = cc
  Step-Ended s _ f (calls i c a h) e = enter-is_running i c s.shared h ∙ f e
  Step-Ended s _ f (client_runs i h) e = client-is_running s.shared (s.clients i) h ∙ f e
  Step-Ended s _ f (notifies i a) e = f (wake-done s.loop e)

  pub Reach-Held :
      (m : M) (s : System M) → Reach (initial m) s → Held s.shared.mutex s.loop s.clients
  unfolding initialize
  Reach-Held m _ here = tt
  Reach-Held m t (next {t = s} r st) = Step-Held s t (Reach-Held m s r) st
