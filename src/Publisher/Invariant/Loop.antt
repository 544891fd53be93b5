-- ===== src/Publisher/Invariant/Loop.antt =====
-- A step of the publishing thread keeps the invariant.
use portage_realtime_tools_e.Base.{ℕ, ◌≡◌, Option, none, some, arith}
use portage_realtime_tools_e.Publisher.{Shared, LoopPc, ClientPc, loop_step}
use portage_realtime_tools_e.Publisher.Invariant.Defs.{Inv}

module _ {M : Type 0} where
  -- The accepted message that is left after a step of the publishing thread.
  abbrev pub left : LoopPc M → Option M → Option M
  left (LoopPc.publishing m) rest = none
  left _ rest = rest

  pub loop-Inv :
      (s : Shared M) (q : LoopPc M) (cs : ℕ → ClientPc M) (rest : Option M) {t : Shared M}
      {p : LoopPc M}
      → Inv s q cs rest
      → loop_step s q ≡ some (t, p)
      → Inv t p cs (left q rest)
  unfolding loop_step
  loop-Inv s LoopPc.starting cs rest inv h = record {
    loop_owns = ground arith;
    client_owns = λ i c. ground (arith, inv.client_owns i);
    logs = ground arith;
    caught_up = ground arith;
    client_fact = λ i. ground (arith, inv.client_fact i);
    loop_fact = ground (arith, inv.caught_up);
  }
  loop-Inv s q cs rest inv h = record {
    loop_owns = ground arith;
    client_owns = λ i c. ground (arith, inv.client_owns i);
    logs = ground arith;
    caught_up = ground arith;
    client_fact = λ i. ground (arith, inv.client_fact i);
    loop_fact = ground (arith, inv.caught_up);
  }

  pub wakes_up-Inv :
      (s : Shared M) (q : LoopPc M) (cs : ℕ → ClientPc M) (rest : Option M)
      → Inv s q cs rest
      → q ≡ LoopPc.waiting
      → Inv s LoopPc.woken cs rest
  wakes_up-Inv s LoopPc.waiting cs rest inv e = record {
    loop_owns = λ l. cc;
    client_owns = inv.client_owns;
    logs = inv.logs;
    caught_up = inv.caught_up;
    client_fact = inv.client_fact;
    loop_fact = inv.loop_fact;
  }
  wakes_up-Inv s q cs rest inv e = cc
