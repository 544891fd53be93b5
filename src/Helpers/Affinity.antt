-- ===== src/Helpers/Affinity.antt =====
-- Which cores a thread is bound to.
use portage_realtime_tools_e.Base.{
  ℕ, zero, suc, ◌≡◌, refl, ◌≤◌, Bool, true, false, not, ◌&&◌, ◌||◌, none, some, List, [], ◌∷◌, ℤ,
  pos, ltb_ℤ, pos_part, ltb, ◌==◌, arith,
}
use portage_realtime_tools_e.Helpers.{
  Os, invalid_core_numbers, result_message, set_all, set_cores, requested, set_thread_affinity,
}

-- What is documented of `cpu_set_t`: `cpu_setsize` cores have a place in it, and `CPU_SET` of
-- another one does nothing.
pub record CpuSets (os : Os) : Type 0 where
  pub cpu_isset : ℕ → os.CpuSet → Bool
  pub cpu_setsize : ℕ
  pub zero_has_none : (i : ℕ) → cpu_isset i os.cpu_zero ≡ false
  pub set_adds :
      (i j : ℕ) (s : os.CpuSet)
      → cpu_isset i (os.cpu_set j s) ≡ ltb j cpu_setsize && i == j || cpu_isset i s

-- The core is one of the system's.
abbrev pub exists : ℤ → ℤ → Bool
exists number core = not (ltb_ℤ core (pos 0)) && ltb_ℤ core number

abbrev pub all_exist : ℤ → List ℤ → Bool
all_exist number [] = true
all_exist number (core ∷ cores) = exists number core && all_exist number cores

abbrev pub is_among : ℕ → List ℤ → Bool
is_among i [] = false
is_among i (core ∷ cores) = i == pos_part core || is_among i cores

-- The cores that are meant: no core stands for all that the system has.
abbrev pub wanted : ℤ → List ℤ → ℕ → Bool
wanted number [] i = ltb i (pos_part number)
wanted number cores i = is_among i cores

module _ (os : Os) (sets : CpuSets os) where
  open sets use {cpu_isset, cpu_setsize}

  set_all-isset : (n i : ℕ) → n ≤ cpu_setsize → cpu_isset i (set_all os n os.cpu_zero) ≡ ltb i n
  unfolding set_all
  set_all-isset zero i l = ground (arith, sets.zero_has_none i)
  set_all-isset (suc n) i l =
      ground (arith, set_all-isset n i (ground arith), sets.set_adds i n (set_all os n os.cpu_zero))

  set_cores-isset :
      (number : ℤ) (cores : List ℤ) (s : os.CpuSet)
      → pos_part number ≤ cpu_setsize
      → all_exist number cores ≡ true
      → (t : os.CpuSet) × (set_cores os number cores s ≡ some t)
        × ((i : ℕ) → cpu_isset i t ≡ is_among i cores || cpu_isset i s)
  unfolding set_cores
  set_cores-isset number [] s l e = (s, refl, λ i. refl)
  set_cores-isset number (core ∷ cores) s l e =
      let (t, f, g) =
        set_cores-isset number cores (os.cpu_set (pos_part core) s) l (ground arith) in
      (t, ground arith, λ i. ground (arith, g i, sets.set_adds i (pos_part core) s))

  set_cores-none :
      (number : ℤ) (cores : List ℤ) (s : os.CpuSet)
      → all_exist number cores ≡ false
      → set_cores os number cores s ≡ none
  unfolding set_cores
  set_cores-none number [] s e = ground arith
  set_cores-none number (core ∷ cores) s e =
      ground (arith, set_cores-none number cores (os.cpu_set (pos_part core) s))

  requested-isset :
      (number : ℤ) (cores : List ℤ)
      → pos_part number ≤ cpu_setsize
      → all_exist number cores ≡ true
      → (t : os.CpuSet) × (requested os number cores ≡ some t)
        × ((i : ℕ) → cpu_isset i t ≡ wanted number cores i)
  unfolding requested
  requested-isset number [] l e =
      (set_all os (pos_part number) os.cpu_zero, refl, λ i. set_all-isset (pos_part number) i l)
  requested-isset number (core ∷ cores) l e =
      let (t, f, g) = set_cores-isset number (core ∷ cores) os.cpu_zero l e in
      (t, f, λ i. ground (arith, g i, sets.zero_has_none i))

  requested-none :
      (number : ℤ) (cores : List ℤ)
      → all_exist number cores ≡ false
      → requested os number cores ≡ none
  unfolding requested
  requested-none number [] e = ground arith
  requested-none number (core ∷ cores) e = set_cores-none number (core ∷ cores) os.cpu_zero e

  -- The affinity is set to exactly the cores that are wanted, and the outcome is that of the call; or
  -- no call is made, and the result is false with a message that tells the cores and how many there
  -- are.
  abbrev pub Told : Bool → List ℤ → os.State → Type 0
  Told true cores s =
      (t : os.CpuSet) × ((i : ℕ)
        → cpu_isset i t ≡ wanted (os.number_of_available_processors s) cores i)
      × (set_thread_affinity os cores s ≡ result_message os (os.pthread_setaffinity_np t s))
  Told false cores s =
      set_thread_affinity os cores s
      ≡ (s, false, invalid_core_numbers cores (os.number_of_available_processors s))

  set_thread_affinity-Told :
      (b : Bool) (cores : List ℤ) (s : os.State)
      → pos_part (os.number_of_available_processors s) ≤ cpu_setsize
      → all_exist (os.number_of_available_processors s) cores ≡ b
      → Told b cores s
  unfolding set_thread_affinity
  set_thread_affinity-Told true cores s l e =
      let (t, f, g) = requested-isset (os.number_of_available_processors s) cores l e in
      (t, g, ground (arith, f))
  set_thread_affinity-Told false cores s l e =
      ground (arith, requested-none (os.number_of_available_processors s) cores e)

  -- On a system whose cores all have a place in `cpu_set_t`: if every core that is asked for exists,
  -- the affinity is set to exactly these cores, or to all of the system if none is asked for, and the
  -- outcome is that of this call; otherwise no call is made, and the result is false with a message
  -- that tells the cores and how many there are.
  pub set_thread_affinity_cases :
      (cores : List ℤ) (s : os.State)
      → pos_part (os.number_of_available_processors s) ≤ cpu_setsize
      → Told (all_exist (os.number_of_available_processors s) cores) cores s
  set_thread_affinity_cases cores s l =
      set_thread_affinity-Told (all_exist (os.number_of_available_processors s) cores) cores s l
        refl
