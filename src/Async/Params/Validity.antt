-- ===== src/Async/Params/Validity.antt =====
-- What `validate` accepts.
use portage_realtime_tools_e.Base.{
  ◌≡◌, refl, ◌≢◌, ◌↔◌, ◌<◌, true, none, List, [], ◌∷◌, arith, ℤ, pos, ◌≤ℤ◌,
}
use portage_realtime_tools_e.Async.Policy.{unknown, detached}
use portage_realtime_tools_e.Async.Params.{
  Params, returns, throws, unknown_policy, cores_valid, validate,
}

abbrev pub All {ℓ} : {A : Type 0} → (A → Type ℓ) → List A → Type ℓ
All P [] = Unit
All P (x ∷ xs) = P x × All P xs

-- The documented conditions on the parameters.
pub record IsValid {C P : Type 0} (p : Params C P) : Type 0 where
  pub priority_low : pos 0 ≤ℤ p.thread_priority
  pub priority_high : p.thread_priority ≤ℤ pos 99
  pub policy_known : p.scheduling_policy ≢ unknown
  pub detached_clock : p.scheduling_policy ≡ detached → p.clock ≢ none
  pub detached_rate : p.scheduling_policy ≡ detached → 0 < p.exec_rate
  pub predicate : p.trigger_predicate ≢ none
  pub cores : All (λ c. pos 0 ≤ℤ c) p.cpu_affinity_cores

cores_valid_iff : (cs : List ℤ) → (cores_valid cs ≡ true) ↔ All (λ c. pos 0 ≤ℤ c) cs
unfolding cores_valid
cores_valid_iff [] = (λ h. tt, λ h. refl)
cores_valid_iff (c ∷ cs) =
    let (to, from) = cores_valid_iff cs in (λ h. ground arith, λ h. ground arith)

module _ {C P : Type 0} where
  validate→IsValid : (p : Params C P) → validate p ≡ returns true → IsValid p
  unfolding validate
  validate→IsValid p h = record {
    priority_low = ground arith;
    priority_high = ground arith;
    policy_known = ground arith;
    detached_clock = ground arith;
    detached_rate = ground arith;
    predicate = ground arith;
    cores = (cores_valid_iff p.cpu_affinity_cores).0 (ground arith);
  }

  IsValid→validate : (p : Params C P) → IsValid p → validate p ≡ returns true
  unfolding validate
  IsValid→validate p v = ground (arith, (cores_valid_iff p.cpu_affinity_cores).1 v.cores)

  -- `validate` returns true exactly for the parameters that meet the documented conditions: a
  -- priority from 0 to 99, a known policy, for a detached thread a clock and a positive rate, a
  -- trigger predicate, and no negative core.
  pub validate_iff : (p : Params C P) → (validate p ≡ returns true) ↔ IsValid p
  validate_iff p = (validate→IsValid p, IsValid→validate p)

  -- `validate` throws exactly for an unknown policy with a priority from 0 to 99.
  validate-throws :
      (p : Params C P)
      → (validate p ≡ throws unknown_policy) ↔ (
          (pos 0 ≤ℤ p.thread_priority)
          × (p.thread_priority ≤ℤ pos 99)
          × (p.scheduling_policy ≡ unknown))
  unfolding validate
  validate-throws p = (λ h. (ground arith, ground arith, ground arith), λ h. ground arith)
