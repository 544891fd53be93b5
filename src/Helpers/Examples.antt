-- ===== src/Helpers/Examples.antt =====
-- A system with two cores, and the theorem at it.
use portage_realtime_tools_e.Base.{
  ℕ, ◌≡◌, ◌↔◌, refl, Bool, true, false, ◌||◌, ◌&&◌, List, [], ◌∷◌, pos, negsuc, ltb, ◌==◌, arith,
  none, some, codes, if◌then◌else◌,
}
use portage_realtime_tools_e.Helpers.{
  Os, affinity_set, invalid_core_numbers, set_all, set_cores, requested, set_thread_affinity,
  set_thread_affinity_core, set_joinable_affinity,
}
use portage_realtime_tools_e.Helpers.Kernel.{
  KernelInfo, contains, has_realtime_kernel, TellsRealtime, has_realtime_kernel_iff,
}
use portage_realtime_tools_e.Helpers.Affinity.{CpuSets, set_thread_affinity_cases}

-- The state is the affinity that was set last.
abbrev two_cores : Os
two_cores = record {
  State = List ℕ;
  CpuSet = List ℕ;
  cpu_zero = [];
  cpu_set = λ j s. if ltb j 1024 then j ∷ s else s;
  number_of_available_processors = λ s. pos 2;
  pthread_setaffinity_np = λ t s. (t, 0);
  errno = λ s. 0;
}

abbrev has : ℕ → List ℕ → Bool
has i [] = false
has i (j ∷ s) = i == j || has i s

has-set :
    (i j : ℕ) (s : List ℕ)
    → has i (if ltb j 1024 then j ∷ s else s) ≡ ltb j 1024 && i == j || has i s
has-set i j s = ground arith

abbrev two_sets : CpuSets two_cores
two_sets = record {
  cpu_isset = has;
  cpu_setsize = 1024;
  zero_has_none = λ i. refl;
  set_adds = has-set;
}

affinity_test : set_thread_affinity two_cores (pos 1 ∷ []) [] ≡ (1 ∷ [], true, affinity_set)
unfolding set_thread_affinity requested set_cores
affinity_test = refl

reset_test : set_joinable_affinity two_cores true (negsuc 0) [] ≡ (1 ∷ 0 ∷ [], true, affinity_set)
unfolding set_joinable_affinity set_thread_affinity_core set_thread_affinity requested set_all
reset_test = refl

-- /sys/kernel/realtime does not open, and the version tells it.
abbrev by_version : KernelInfo
by_version = record {
  realtime_file = none;
  uname_version = some (codes "#1 SMP PREEMPT_RT Debian");
}

no_preempt_test :
    has_realtime_kernel
      (record by_version { uname_version = some (codes "#1 SMP PREEMPT_DYNAMIC") })
    ≡ false
unfolding has_realtime_kernel contains
no_preempt_test = refl

-- Core 2 does not exist.
set_thread_affinity_cases_example :
    set_thread_affinity two_cores (pos 0 ∷ pos 2 ∷ []) []
    ≡ ([], false, invalid_core_numbers (pos 0 ∷ pos 2 ∷ []) (pos 2))
set_thread_affinity_cases_example =
    set_thread_affinity_cases two_cores two_sets (pos 0 ∷ pos 2 ∷ []) [] (ground arith)

has_realtime_kernel_iff_example : (has_realtime_kernel by_version ≡ true) ↔ TellsRealtime by_version
has_realtime_kernel_iff_example = has_realtime_kernel_iff by_version
