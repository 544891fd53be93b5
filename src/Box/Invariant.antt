-- ===== src/Box/Invariant.antt =====
-- Who holds which mutex, and what the values are.
use portage_realtime_tools_e.Base.{ℕ, ◌≡◌, refl, ◌≢◌, ◌⊎◌, some, List, [], ◌∷◌, update, arith}
use portage_realtime_tools_e.Box.{
  Pc, Call, Boxes, System, enter, thread_step, initial, Step, begins, runs, Reach, here, next,
}

-- The thread has the mutex of the box.
abbrev pub Holds : {A : Type 0} → Pc A → ℕ → Type 0
Holds (Pc.changing b f) c = c ≡ b
Holds (Pc.storing b f v) c = c ≡ b
Holds (Pc.getting b) c = c ≡ b
Holds (Pc.got b v) c = c ≡ b
Holds (Pc.assign_locking_self b o) c = c ≡ o
Holds (Pc.assign_reading b o) c = (c ≡ b) ⊎ (c ≡ o)
Holds (Pc.assign_storing b o v) c = (c ≡ b) ⊎ (c ≡ o)
Holds (Pc.assign_unlocking b o) c = (c ≡ b) ⊎ (c ≡ o)
Holds (Pc.move_locking_self b o left) c = c ≡ o
Holds (Pc.move_reading b o left) c = (c ≡ b) ⊎ (c ≡ o)
Holds (Pc.move_storing b o left v) c = (c ≡ b) ⊎ (c ≡ o)
Holds (Pc.move_leaving b o left) c = (c ≡ b) ⊎ (c ≡ o)
Holds (Pc.unlocking b) c = c ≡ b
Holds _ c = ⊥

-- The boxes that a thread works with.
abbrev box : {A : Type 0} → Pc A → ℕ
box (Pc.storing b f v) = b
box (Pc.got b v) = b
box (Pc.assign_storing b o v) = b
box (Pc.assign_unlocking b o) = b
box (Pc.move_storing b o left v) = b
box (Pc.move_leaving b o left) = b
box _ = 0

abbrev other_box : {A : Type 0} → Pc A → ℕ
other_box (Pc.assign_storing b o v) = o
other_box (Pc.assign_unlocking b o) = o
other_box (Pc.move_storing b o left v) = o
other_box (Pc.move_leaving b o left) = o
other_box _ = 0

module _ {A : Type 0} where
  -- The changes, the oldest first.
  abbrev pub change_all : List (A → A) → A → A
  change_all [] a = a
  change_all (f ∷ fs) a = f (change_all fs a)

  abbrev pub Fact : Pc A → Boxes A → Type 0
  Fact (Pc.storing b f v) s = v ≡ s.value b
  Fact (Pc.got b v) s = v ≡ s.value b
  Fact (Pc.assign_locking_other b o) s = b ≢ o
  Fact (Pc.assign_locking_self b o) s = b ≢ o
  Fact (Pc.assign_reading b o) s = b ≢ o
  Fact (Pc.assign_storing b o v) s = (b ≢ o) × (v ≡ s.value o)
  Fact (Pc.assign_unlocking b o) s = b ≢ o
  Fact (Pc.move_locking_other b o left) s = b ≢ o
  Fact (Pc.move_locking_self b o left) s = b ≢ o
  Fact (Pc.move_reading b o left) s = b ≢ o
  Fact (Pc.move_storing b o left v) s = (b ≢ o) × (v ≡ s.value o)
  Fact (Pc.move_leaving b o left) s = b ≢ o
  Fact _ s = Unit

  pub record Inv (first : ℕ → A) (s : System A) : Type 0 where
    pub owns : (i c : ℕ) → Holds (s.threads i) c → s.boxes.lock c ≡ some i
    pub fact : (i : ℕ) → Fact (s.threads i) s.boxes
    pub logged : (c : ℕ) → s.boxes.value c ≡ change_all (s.boxes.log c) (first c)

  Inv-initial : (first : ℕ → A) → Inv first (initial first)
  Inv-initial first = record { owns = λ i c h. elim h [ ]; fact = λ i. tt; logged = λ c. refl }

  begins-Inv :
      (first : ℕ → A) (s : System A) (i : ℕ) (c : Call A)
      → Inv first s
      → Inv first (record s { threads = update s.threads i (enter c) })
  unfolding enter
  begins-Inv first s i c inv = record {
    owns = λ j b h. ground (arith, inv.owns j b);
    fact = λ j. ground (arith, inv.fact j);
    logged = inv.logged;
  }

  runs-Inv :
      (first : ℕ → A) (s : System A) (i : ℕ) (q : Pc A) {t : Boxes A} {p : Pc A}
      → Inv first s
      → s.threads i ≡ q
      → thread_step i q s.boxes ≡ some (t, p)
      → Inv first (record { boxes = t; threads = update s.threads i p })
  unfolding thread_step
  runs-Inv first s i Pc.idle inv e h = ground arith
  runs-Inv first s i q inv e h = record {
    owns = λ j c o. ground (arith, inv.owns j c, inv.owns i c, inv.fact i);
    fact = λ j. ground (
      arith,
      inv.fact j,
      inv.fact i,
      inv.owns j (box (s.threads j)),
      inv.owns j (other_box (s.threads j)),
      inv.owns i (box q),
      inv.owns i (other_box q),
    );
    logged = λ c. ground (arith, inv.logged c, inv.fact i);
  }

  pub Step-Inv : (first : ℕ → A) (s t : System A) → Inv first s → Step s t → Inv first t
  Step-Inv first s _ inv (begins i c e) = begins-Inv first s i c inv
  Step-Inv first s _ inv (runs i h) = runs-Inv first s i (s.threads i) inv refl h

  pub Reach-Inv : (first : ℕ → A) (s : System A) → Reach (initial first) s → Inv first s
  Reach-Inv first _ here = Inv-initial first
  Reach-Inv first t (next {t = s} r st) = Step-Inv first s t (Reach-Inv first s r) st
