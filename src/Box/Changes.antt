-- ===== src/Box/Changes.antt =====
-- What the threads may rely on: exclusion, and that no change is lost.
use portage_realtime_tools_e.Base.{ℕ, ◌≡◌, ◌≢◌, ◌⊎◌, arith}
use portage_realtime_tools_e.Box.{Pc, System, initial, Reach}
use portage_realtime_tools_e.Box.Invariant.{Holds, change_all, Inv, Reach-Inv}

module _ {A : Type 0} where
  -- No two threads have the mutex of the same box, those that assign one box to another included.
  box_exclusion :
      (first : ℕ → A) (s : System A)
      → Reach (initial first) s
      → (i j b : ℕ) → i ≢ j
      → Holds (s.threads i) b
      → ¬ Holds (s.threads j) b
  box_exclusion first s r i j b n h =
      λ k. let inv = Reach-Inv first s r in ground (arith, inv.owns i b h, inv.owns j b k)

  -- No change is lost: the value of a box is at any time what the changes by `set`, by `try_set`
  -- where it got the lock, by assignments and by moves make of its first value one after another,
  -- although each reads the value and stores it in separate steps.
  pub no_lost_change :
      (first : ℕ → A) (s : System A)
      → Reach (initial first) s
      → (b : ℕ) → s.boxes.value b ≡ change_all (s.boxes.log b) (first b)
  no_lost_change first s r = Inv.logged (Reach-Inv first s r)

  -- What `get` and `try_get` return is the value that the box has when they return; and what an
  -- assignment stores is the value that the other box has when it is stored.
  got_is_current :
      (first : ℕ → A) (s : System A)
      → Reach (initial first) s
      → (i b o : ℕ) (v : A) → ((s.threads i ≡ Pc.got b v) ⊎ (s.threads i ≡ Pc.assign_storing o b v))
      → v ≡ s.boxes.value b
  got_is_current first s r i b o v h = let inv = Reach-Inv first s r in ground (arith, inv.fact i)
