-- ===== src/Base/Family.antt =====
-- Families indexed by thread number, changed at one index.
use Prim.Native.Nat.{ℕ}
use mathlib.Core.Logic.{ite, ◌≢◌}
use mathlib.Core.Bool.{Bool, true}
use mathlib.Core.Path.{◌≡◌, refl}
use mathlib.Core.List.{List, [], ◌∷◌}
use native.Mathlib.Decide.{ℕ_discrete}
use native.Mathlib.Omega.{arith}

abbrev pub update {ℓ} : {A : Type ℓ} → (ℕ → A) → ℕ → A → ℕ → A
update f i a j = ite (ℕ_discrete i j) a (f j)

-- The family after the values `ps` at `i`, one after another.
abbrev pub updates {ℓ} : {A : Type ℓ} → (ℕ → A) → ℕ → List A → ℕ → A
updates f i [] = f
updates f i (p ∷ ps) = updates (update f i p) i ps

updates-other {ℓ} :
    {A : Type ℓ} (f : ℕ → A) (i j : ℕ) (ps : List A) → i ≢ j → updates f i ps j ≡ f j
updates-other f i j [] n = refl
updates-other f i j (p ∷ ps) n = ground (arith, updates-other (update f i p) i j ps n)

pub update-keeps {ℓ} :
    {A : Type ℓ} (b : A → Bool) (f : ℕ → A) (i j : ℕ) (a : A)
    → b (f i) ≡ true
    → b (f j) ≡ b a
    → b (update f j a i) ≡ true
update-keeps b f i j a e g = ground arith

pub update-updates :
    {A : Type 0} (f : ℕ → A) (i j : ℕ) (ps : List A) (a : A)
    → f j ≡ a
    → update (updates f i ps) i a j ≡ a
update-updates f i j ps a e = ground (arith, updates-other f i j ps)
