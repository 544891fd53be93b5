-- ===== src/Box/Deadlock.antt =====
-- Two assignments between the same two boxes, in opposite directions.
use portage_realtime_tools_e.Base.{ℕ, ◌≡◌, refl, ◌≢◌, none, some, update, arith}
use portage_realtime_tools_e.Box.{
  Pc, Boxes, assigns, System, enter, thread_step, initial, Step, begins, runs, Reach, here, next,
}
use portage_realtime_tools_e.Box.Invariant.{Inv, Reach-Inv, Step-Inv}

module _ {A : Type 0} where
  -- Each thread has the mutex that the other one waits for.
  abbrev pub Deadlocked : (i j b c : ℕ) → System A → Type 0
  Deadlocked i j b c s =
      (s.threads i ≡ Pc.assign_locking_self b c)
      × (s.threads j ≡ Pc.assign_locking_self c b)
      × (s.boxes.lock c ≡ some i)
      × (s.boxes.lock b ≡ some j)

  Reach-trans : {s t u : System A} → Reach s t → Reach t u → Reach s u
  Reach-trans r here = r
  Reach-trans r (next v st) = next (Reach-trans r v) st

  runs-Deadlocked :
      (first : ℕ → A) (i j b c k : ℕ) (q : Pc A) (s : System A) {t : Boxes A} {p : Pc A}
      → Inv first s
      → Deadlocked i j b c s
      → s.threads k ≡ q
      → thread_step k q s.boxes ≡ some (t, p)
      → Deadlocked i j b c (record { boxes = t; threads = update s.threads k p })
  unfolding thread_step
  runs-Deadlocked first i j b c k Pc.idle s inv d e h = ground arith
  runs-Deadlocked first i j b c k q s inv d e h = ground (arith, inv.owns k b, inv.owns k c)

  Step-Deadlocked :
      (first : ℕ → A) (i j b c : ℕ) (s t : System A)
      → Inv first s
      → Deadlocked i j b c s
      → Step s t
      → Deadlocked i j b c t
  Step-Deadlocked first i j b c s _ inv d (begins k call e) = ground arith
  Step-Deadlocked first i j b c s _ inv d (runs k h) =
      runs-Deadlocked first i j b c k (s.threads k) s inv d refl h

  Reach-Deadlocked :
      (first : ℕ → A) (i j b c : ℕ) (s t : System A)
      → Inv first s
      → Deadlocked i j b c s
      → Reach s t
      → Inv first t × Deadlocked i j b c t
  Reach-Deadlocked first i j b c s _ inv d here = (inv, d)
  Reach-Deadlocked first i j b c s u inv d (next {t = t} r st) =
      let (inv', d') = Reach-Deadlocked first i j b c s t inv d r in
      (Step-Inv first t u inv' st, Step-Deadlocked first i j b c t u inv' d' st)

  -- After both threads have taken the mutex of the other's box.
  abbrev crossed : (i j b c : ℕ) → System A → System A
  crossed i j b c s = record {
    boxes = record s.boxes { lock = update (update s.boxes.lock c (some i)) b (some j) };
    threads =
        update
          (update (update (update s.threads i (enter (assigns b c))) j (enter (assigns c b))) i
            (Pc.assign_locking_self b c))
          j (Pc.assign_locking_self c b);
  }

  cross :
      (i j b c : ℕ) (s : System A)
      → i ≢ j
      → b ≢ c
      → s.threads i ≡ Pc.idle
      → s.threads j ≡ Pc.idle
      → s.boxes.lock b ≡ none
      → s.boxes.lock c ≡ none
      → Reach s (crossed i j b c s)
  unfolding enter thread_step
  cross i j b c s n m e f g h =
      next
        (next (next (next here (begins i (assigns b c) e)) (begins j (assigns c b) (ground arith)))
          (runs i {t = record s.boxes { lock = update s.boxes.lock c (some i) }}
            {p = Pc.assign_locking_self b c} (ground arith)))
        (runs j {t = record s.boxes { lock = update (update s.boxes.lock c (some i)) b (some j) }}
          {p = Pc.assign_locking_self c b} (ground arith))

  -- Two idle threads that assign two boxes with free mutexes to one another, `a = b` and `b = a`, can
  -- block each other: a state can be reached in which each has the mutex that the other waits for,
  -- and whatever steps any threads take from there, it stays so.
  pub assignments_deadlock :
      (first : ℕ → A) (s : System A)
      → Reach (initial first) s
      → (i j b c : ℕ) → i ≢ j
      → b ≢ c
      → s.threads i ≡ Pc.idle
      → s.threads j ≡ Pc.idle
      → s.boxes.lock b ≡ none
      → s.boxes.lock c ≡ none
      → (t : System A) × Reach s t × ((u : System A) → Reach t u → Deadlocked i j b c u)
  assignments_deadlock first s r i j b c n m e f g h =
      let t = crossed i j b c s in
      let way = cross i j b c s n m e f g h in
      let inv = Reach-Inv first t (Reach-trans r way) in
      (t, way, λ u v. (Reach-Deadlocked first i j b c t u inv (ground arith) v).1)
