-- ===== src/Box/Locking.antt =====
-- The boxes over detail::mutex of mutex.hpp: what their steps ask of the mutexes, and what these do.
use mathlib.Core.Path.{subst}
use portage_realtime_tools_e.Base.{
  ℕ, ◌≡◌, refl, sym, ap, ◌∙◌, ◌≢◌, inl, Option, none, some, update, arith,
}
use portage_realtime_tools_e.Mutex.{Pthread, Error}
use portage_realtime_tools_e.Mutex.Documented.{MutexType, Documented}
use portage_realtime_tools_e.Mutex.Lock.{
  Holder, nobody, holds, Answer, Call, locks, tries, unlocks, waits, failed, promised, holder,
  IsSound, performed, performed-Keeps,
}
use portage_realtime_tools_e.Box.{
  acquire, try_acquire, released, Pc, Boxes, System, enter, thread_step, initial, Step, begins,
  runs, Reach, here, next,
}
use portage_realtime_tools_e.Box
use portage_realtime_tools_e.Box.Invariant.{Holds, Fact, Inv, Reach-Inv}

-- A box's lock as the holder of its mutex, which has locked it once.
abbrev pub holder_of : Option ℕ → Holder
holder_of none = nobody
holder_of (some i) = holds i 1

module _ {A : Type 0} where
  -- The call on a mutex that the next step of a thread makes, with the box of the mutex.
  abbrev pub mutex_call : ℕ → Pc A → Option (ℕ × Call)
  mutex_call i (Pc.locking b f) = some (b, locks i)
  mutex_call i (Pc.trying b f) = some (b, tries i)
  mutex_call i (Pc.get_locking b) = some (b, locks i)
  mutex_call i (Pc.get_trying b) = some (b, tries i)
  mutex_call i (Pc.got b v) = some (b, unlocks i)
  mutex_call i (Pc.assign_locking_other b o) = some (o, locks i)
  mutex_call i (Pc.assign_locking_self b o) = some (b, locks i)
  mutex_call i (Pc.move_locking_other b o left) = some (o, locks i)
  mutex_call i (Pc.move_locking_self b o left) = some (b, locks i)
  mutex_call i (Pc.assign_unlocking b o) = some (b, unlocks i)
  mutex_call i (Pc.unlocking b) = some (b, unlocks i)
  mutex_call i _ = none

  -- A thread that is noted as the holder of a lock does hold it.
  abbrev Noted : System A → Type 0
  Noted s = (i c : ℕ) → s.boxes.lock c ≡ some i → Holds (s.threads i) c

  begins-Noted :
      (s : System A) (i : ℕ) (c : Box.Call A)
      → Noted s
      → s.threads i ≡ Pc.idle
      → Noted (record s { threads = update s.threads i (enter c) })
  unfolding enter
  begins-Noted s i c n e j b l = ground (arith, n j b l)

  runs-Noted :
      (first : ℕ → A) (s : System A) (i : ℕ) (q : Pc A) {t : Boxes A} {p : Pc A}
      → Inv first s
      → Noted s
      → s.threads i ≡ q
      → thread_step i q s.boxes ≡ some (t, p)
      → Noted (record { boxes = t; threads = update s.threads i p })
  unfolding thread_step
  runs-Noted first s i Pc.idle inv n e h j c l = ground arith
  runs-Noted first s i q inv n e h j c l = ground (arith, n j c, n i c, inv.fact i)

  Step-Noted : (first : ℕ → A) (s t : System A) → Inv first s → Noted s → Step s t → Noted t
  Step-Noted first s _ inv n (begins i c e) = begins-Noted s i c n e
  Step-Noted first s _ inv n (runs i h) = runs-Noted first s i (s.threads i) inv n refl h

  Reach-Noted : (first : ℕ → A) (s : System A) → Reach (initial first) s → Noted s
  Reach-Noted first _ here = λ i c l. absurd (ground arith)
  Reach-Noted first t (next {t = s} r st) =
      Step-Noted first s t (Reach-Inv first s r) (Reach-Noted first s r) st

  -- What a mutex of either type promises, where `l` is its box's lock, is what a step does with it.
  abbrev Agrees : MutexType → Call → ℕ → Option ℕ → Boxes A → Option (Boxes A × Pc A) → Type 0
  Agrees k c b l s none = (promised k c (holder_of l)).1 ≡ waits
  Agrees k c b l s (some (t, p)) =
      ((promised k c (holder_of l)).0 ≡ holder_of (t.lock b))
      × ((promised k c (holder_of l)).1 ≢ waits)
      × ((e : Error) → (promised k c (holder_of l)).1 ≢ failed e)
      × ((d : ℕ) → d ≢ b → t.lock d ≡ s.lock d)

  locks-Agrees :
      (k : MutexType) (i b : ℕ) (l : Option ℕ) (s : Boxes A) (p : Pc A)
      → l ≢ some i
      → Agrees k (locks i) b l s (acquire l s b i p)
  locks-Agrees k i b none s p n = ground arith
  locks-Agrees k i b (some j) s p n = ground arith

  tries-Agrees :
      (k : MutexType) (i b : ℕ) (l : Option ℕ) (s : Boxes A) (p : Pc A)
      → s.lock b ≡ l
      → l ≢ some i
      → Agrees k (tries i) b l s (try_acquire l s b i p)
  tries-Agrees k i b none s p e n = ground arith
  tries-Agrees k i b (some j) s p e n = ground arith

  unlocks-Agrees :
      (k : MutexType) (i b : ℕ) (l : Option ℕ) (s : Boxes A) (p : Pc A)
      → l ≡ some i
      → Agrees k (unlocks i) b l s (some (released s b, p))
  unlocks-Agrees k i b l s p n = ground arith

  abbrev CallAgrees : MutexType → Boxes A → Option (Boxes A × Pc A) → Option (ℕ × Call) → Type 0
  CallAgrees k s r none = Unit
  CallAgrees k s r (some (b, c)) = Agrees k c b (s.lock b) s r

  -- A thread holds the locks that it is noted for and no other.
  abbrev Holding : ℕ → Pc A → Boxes A → Type 0
  Holding i q s =
      ((b : ℕ) → Holds q b → s.lock b ≡ some i) × ((b : ℕ) → s.lock b ≡ some i → Holds q b)

  step-Agrees :
      (k : MutexType) (i : ℕ) (q : Pc A) (s : Boxes A)
      → Fact q s
      → Holding i q s
      → CallAgrees k s (thread_step i q s) (mutex_call i q)
  unfolding thread_step
  step-Agrees k i (Pc.locking b f) s z (o, n) =
      locks-Agrees k i b (s.lock b) s (Pc.changing b f) (n b)
  step-Agrees k i (Pc.trying b f) s z (o, n) =
      tries-Agrees k i b (s.lock b) s (Pc.changing b f) refl (n b)
  step-Agrees k i (Pc.get_locking b) s z (o, n) =
      locks-Agrees k i b (s.lock b) s (Pc.getting b) (n b)
  step-Agrees k i (Pc.get_trying b) s z (o, n) =
      tries-Agrees k i b (s.lock b) s (Pc.getting b) refl (n b)
  step-Agrees k i (Pc.got b v) s z (o, n) = unlocks-Agrees k i b (s.lock b) s Pc.idle (o b refl)
  step-Agrees k i (Pc.assign_locking_other b d) s z (o, n) =
      locks-Agrees k i d (s.lock d) s (Pc.assign_locking_self b d) (n d)
  step-Agrees k i (Pc.assign_locking_self b d) s z (o, n) =
      locks-Agrees k i b (s.lock b) s (Pc.assign_reading b d) (λ l. z (n b l))
  step-Agrees k i (Pc.move_locking_other b d l) s z (o, n) =
      locks-Agrees k i d (s.lock d) s (Pc.move_locking_self b d l) (n d)
  step-Agrees k i (Pc.move_locking_self b d l) s z (o, n) =
      locks-Agrees k i b (s.lock b) s (Pc.move_reading b d l) (λ h. z (n b h))
  step-Agrees k i (Pc.assign_unlocking b d) s z (o, n) =
      unlocks-Agrees k i b (s.lock b) s (Pc.unlocking d) (o b (inl refl))
  step-Agrees k i (Pc.unlocking b) s z (o, n) = unlocks-Agrees k i b (s.lock b) s Pc.idle (o b refl)
  step-Agrees k i q s z (o, n) = tt

  module _ (p : Pthread) (k : MutexType) (doc : Documented p k) where
    open doc use {state}

    -- What the call gave, `m` being the mutex that it left, and what the step has done.
    abbrev pub Follows : ℕ → Boxes A → p.Native × Answer → Option (Boxes A × Pc A) → Type 0
    Follows b s (m, a) none = a ≡ waits
    Follows b s (m, a) (some (t, q)) =
        (holder (state m) ≡ holder_of (t.lock b))
        × (a ≢ waits)
        × ((e : Error) → a ≢ failed e)
        × ((d : ℕ) → d ≢ b → t.lock d ≡ s.lock d)

    Agrees-Follows :
        (c : Call) (b : ℕ) (m : p.Native) (s : Boxes A) (r : Option (Boxes A × Pc A))
        → IsSound (state m)
        → holder (state m) ≡ holder_of (s.lock b)
        → Agrees k c b (s.lock b) s r
        → Follows b s (performed p k doc c m) r
    Agrees-Follows c b m s none i h g =
        let (_, left, given) = performed-Keeps p k doc c m i in
        given ∙ (ap (λ x. (promised k c x).1) h ∙ g)
    Agrees-Follows c b m s (some (t, q)) i h (g, w, f, o) =
        let (_, left, given) = performed-Keeps p k doc c m i in
        let told = given ∙ ap (λ x. (promised k c x).1) h in
        (
          left ∙ (ap (λ x. (promised k c x).0) h ∙ g),
          λ a. w (sym told ∙ a),
          λ e a. f e (sym told ∙ a),
          o,
        )

    -- Boxes over mutexes of either type that do what is relied on of pthread: in every state that
    -- threads can reach, the call on the mutex of a box that a thread's next step makes throws
    -- nothing, and it waits exactly if the step is blocked; else it leaves the mutex held by whom
    -- the box's lock is then noted for, and the locks of the other boxes are as before. So no
    -- thread locks a mutex that it holds already, or unlocks one that it does not hold.
    pub box_locks_by_mutex :
        (first : ℕ → A) (s : System A)
        → Reach (initial first) s
        → (i b : ℕ) (c : Call) (m : p.Native) → mutex_call i (s.threads i) ≡ some (b, c)
        → IsSound (state m)
        → holder (state m) ≡ holder_of (s.boxes.lock b)
        → Follows b s.boxes (performed p k doc c m) (thread_step i (s.threads i) s.boxes)
    box_locks_by_mutex first s r i b c m e z h =
        let inv = Reach-Inv first s r in
        Agrees-Follows c b m s.boxes (thread_step i (s.threads i) s.boxes) z h (
          subst (CallAgrees k s.boxes (thread_step i (s.threads i) s.boxes)) e (
            step-Agrees k i (s.threads i) s.boxes (inv.fact i)
              (inv.owns i, Reach-Noted first s r i)))
