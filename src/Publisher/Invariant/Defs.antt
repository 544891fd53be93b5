-- ===== src/Publisher/Invariant/Defs.antt =====
-- Who holds the mutex, which message is not yet published, and what each thread relies on.
use portage_realtime_tools_e.Base.{
  ℕ, ◌≡◌, refl, ◌≢◌, Bool, true, false, Option, none, some, List, ◌∷◌,
}
use portage_realtime_tools_e.Publisher.{
  realtime, non_realtime, loop_not_started, by_loop, by_client, Shared, LoopPc, ClientPc, may_wake,
  initialize,
}

-- The threads that are in a critical section of `msg_mutex_`.
abbrev pub loop_holds : {M : Type 0} → LoopPc M → Bool
loop_holds LoopPc.testing = true
loop_holds LoopPc.testing_stop = true
loop_holds LoopPc.blocking = true
loop_holds LoopPc.copying = true
loop_holds (LoopPc.copied _) = true
loop_holds _ = false

abbrev pub client_holds : {M : Type 0} → ClientPc M → Bool
client_holds ClientPc.idle = false
client_holds ClientPc.notifying = false
client_holds _ = true

abbrev pub push : {M : Type 0} → Option M → List M → List M
push none ms = ms
push (some m) ms = m ∷ ms

module _ {M : Type 0} where
  -- What a calling thread knows between the test of `turn_` and its store.
  abbrev pub ClientFact : Shared M → ClientPc M → Type 0
  ClientFact s (ClientPc.writing m) = s.turn ≡ realtime
  ClientFact s (ClientPc.written m) = (s.turn ≡ realtime) × (s.msg ≡ m)
  ClientFact s _ = Unit

  -- While the publishing thread is about to wait, waits, or is about to copy.
  abbrev pub Stored : Shared M → Option M → Type 0
  Stored s rest = (s.turn ≢ loop_not_started) × (s.turn ≡ non_realtime → rest ≡ some s.msg)

  -- `rest` is the accepted message that the publishing thread has still to publish.
  abbrev pub LoopFact : Shared M → Option M → LoopPc M → Type 0
  LoopFact s rest LoopPc.starting = s.turn ≡ loop_not_started
  LoopFact s rest LoopPc.head = s.keep_running ≡ true → (rest ≡ none) × (s.turn ≢ realtime)
  LoopFact s rest LoopPc.ready = (rest ≡ none) × (s.turn ≢ realtime)
  LoopFact s rest LoopPc.testing_stop = Stored s rest × (s.turn ≢ non_realtime)
  LoopFact s rest LoopPc.blocking = Stored s rest × (may_wake s ≡ false)
  LoopFact s rest LoopPc.copying = Stored s rest × (may_wake s ≡ true)
  LoopFact s rest (LoopPc.copied m) =
      s.keep_running ≡ true → (rest ≡ some m) × (s.turn ≡ non_realtime)
  LoopFact s rest (LoopPc.sending m) =
      s.keep_running ≡ true → (rest ≡ some m) × (s.turn ≡ non_realtime)
  LoopFact s rest (LoopPc.publishing m) = (rest ≡ some m) × (s.turn ≡ non_realtime)
  LoopFact s rest LoopPc.ending = s.keep_running ≡ false
  LoopFact s rest LoopPc.done = s.keep_running ≡ false
  LoopFact s rest _ = Stored s rest

  pub record Inv (s : Shared M) (p : LoopPc M) (cs : ℕ → ClientPc M) (rest : Option M)
      : Type 0 where
    pub loop_owns : loop_holds p ≡ true → s.mutex ≡ by_loop
    pub client_owns : (i : ℕ) → client_holds (cs i) ≡ true → s.mutex ≡ by_client i
    pub logs : s.accepted ≡ push rest s.published
    pub caught_up : s.turn ≢ non_realtime → rest ≡ none
    pub client_fact : (i : ℕ) → ClientFact s (cs i)
    pub loop_fact : LoopFact s rest p

  pub Inv-initial : (m : M) → Inv (initialize m) LoopPc.starting (λ i. ClientPc.idle) none
  unfolding initialize
  Inv-initial m = record {
    loop_owns = λ h. cc;
    client_owns = λ i h. cc;
    logs = refl;
    caught_up = λ h. refl;
    client_fact = λ i. tt;
    loop_fact = refl;
  }
