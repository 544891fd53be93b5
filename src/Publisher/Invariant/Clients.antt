-- ===== src/Publisher/Invariant/Clients.antt =====
-- A step of a calling thread keeps the invariant.
use portage_realtime_tools_e.Base.{ℕ, ◌≡◌, true, Option, some, update, arith}
use portage_realtime_tools_e.Publisher.{
  by_loop, by_client, Shared, LoopPc, ClientPc, Call, enter, client_step, wake,
}
use portage_realtime_tools_e.Publisher.Invariant.Defs.{
  loop_holds, client_holds, ClientFact, LoopFact, Inv,
}

module _ {M : Type 0} where
  -- The accepted message that is left after a step of a calling thread.
  abbrev pub stored : ClientPc M → Option M → Option M
  stored (ClientPc.written m) rest = some m
  stored _ rest = rest

  enter-LoopFact :
      (q : LoopPc M) (i : ℕ) (c : Call M) (s : Shared M) (rest : Option M) {t : Shared M}
      {p : ClientPc M}
      → LoopFact s rest q
      → enter i c s ≡ some (t, p)
      → LoopFact t rest q
  unfolding enter
  enter-LoopFact LoopPc.starting i c s rest f h = ground arith
  enter-LoopFact q i c s rest f h = ground arith

  client-LoopFact :
      (q : LoopPc M) (c : ClientPc M) (i : ℕ) (s : Shared M) (rest : Option M) {t : Shared M}
      {p : ClientPc M}
      → LoopFact s rest q
      → ClientFact s c
      → (loop_holds q ≡ true → s.mutex ≡ by_loop)
      → (client_holds c ≡ true → s.mutex ≡ by_client i)
      → client_step s c ≡ some (t, p)
      → LoopFact t (stored c rest) q
  unfolding client_step
  client-LoopFact LoopPc.starting c i s rest f g l o h = ground arith
  client-LoopFact q c i s rest f g l o h = ground arith

  -- A call takes the mutex, or changes nothing.
  pub enter-Inv :
      (i : ℕ) (c : Call M) (s : Shared M) (q : LoopPc M) (cs : ℕ → ClientPc M) (rest : Option M)
      {t : Shared M} {p : ClientPc M}
      → Inv s q cs rest
      → cs i ≡ ClientPc.idle
      → enter i c s ≡ some (t, p)
      → Inv t q (update cs i p) rest
  unfolding enter
  enter-Inv i c s q cs rest inv e h = record {
    loop_owns = λ l. ground arith;
    client_owns = λ j d. ground (arith, inv.client_owns j);
    logs = ground arith;
    caught_up = ground arith;
    client_fact = λ j. ground (arith, inv.client_fact j);
    loop_fact = enter-LoopFact q i c s rest inv.loop_fact h;
  }

  pub client-Inv :
      (i : ℕ) (s : Shared M) (q : LoopPc M) (cs : ℕ → ClientPc M) (rest : Option M) (c : ClientPc M)
      {t : Shared M} {p : ClientPc M}
      → Inv s q cs rest
      → cs i ≡ c
      → client_step s c ≡ some (t, p)
      → Inv t q (update cs i p) (stored c rest)
  unfolding client_step
  client-Inv i s q cs rest ClientPc.probing inv e h = record {
    loop_owns = λ l. ground (arith, inv.client_owns i);
    client_owns = λ j d. ground (arith, inv.client_owns j, inv.client_owns i);
    logs = ground arith;
    caught_up = ground arith;
    client_fact = λ j. ground (arith, inv.client_fact j, inv.client_owns i, inv.client_owns j);
    loop_fact =
        client-LoopFact q ClientPc.probing i s rest inv.loop_fact tt inv.loop_owns
          (λ d. ground (arith, inv.client_owns i)) h;
  }
  client-Inv i s q cs rest c inv e h = record {
    loop_owns = λ l. ground (arith, inv.client_owns i);
    client_owns = λ j d. ground (arith, inv.client_owns j, inv.client_owns i);
    logs = ground (arith, inv.client_fact i, inv.caught_up);
    caught_up = ground (arith, inv.client_fact i);
    client_fact = λ j. ground (arith, inv.client_fact j, inv.client_owns i, inv.client_owns j);
    loop_fact =
        client-LoopFact q c i s rest inv.loop_fact (ground (arith, inv.client_fact i)) inv.loop_owns
          (λ d. ground (arith, inv.client_owns i)) h;
  }

  pub notify-Inv :
      (i : ℕ) (s : Shared M) (q : LoopPc M) (cs : ℕ → ClientPc M) (rest : Option M)
      → Inv s q cs rest
      → cs i ≡ ClientPc.notifying
      → Inv s (wake q) (update cs i ClientPc.idle) rest
  unfolding wake
  notify-Inv i s LoopPc.waiting cs rest inv e = record {
    loop_owns = λ l. cc;
    client_owns = λ j d. ground (arith, inv.client_owns j);
    logs = inv.logs;
    caught_up = inv.caught_up;
    client_fact = λ j. ground (arith, inv.client_fact j);
    loop_fact = inv.loop_fact;
  }
  notify-Inv i s q cs rest inv e = record {
    loop_owns = inv.loop_owns;
    client_owns = λ j d. ground (arith, inv.client_owns j);
    logs = inv.logs;
    caught_up = inv.caught_up;
    client_fact = λ j. ground (arith, inv.client_fact j);
    loop_fact = inv.loop_fact;
  }
