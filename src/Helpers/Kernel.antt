-- ===== src/Helpers/Kernel.antt =====
-- `has_realtime_kernel` and the scheduling calls of realtime_helpers.cpp, on Linux.
use portage_realtime_tools_e.Base.{
  ℕ, ◌≡◌, refl, ◌⊎◌, inl, inr, ◌↔◌, Bool, true, false, not, ◌&&◌, ◌||◌, Option, none, some, List,
  [], ◌∷◌, ◌++◌, ◌==◌, arith, if◌then◌else◌, codes, Bool-cases, Option-cases, ap, ◌∙◌, ℤ, pos,
  negsuc,
}

-- `find(pattern) != npos`
abbrev pub is_prefix : List ℕ → List ℕ → Bool
is_prefix [] xs = true
is_prefix (p ∷ ps) [] = false
is_prefix (p ∷ ps) (x ∷ xs) = p == x && is_prefix ps xs

unfoldable pub contains : List ℕ → List ℕ → Bool
contains pattern [] = is_prefix pattern []
contains pattern (x ∷ xs) = is_prefix pattern (x ∷ xs) || contains pattern xs

-- What the system shows: the value that `>>` reads from /sys/kernel/realtime, `none` if the file does
-- not open, and the version that `uname` gives, `none` if it fails.
pub record KernelInfo : Type 0 where
  pub realtime_file : Option Bool
  pub uname_version : Option (List ℕ)

abbrev pub preempt_rt : List ℕ
preempt_rt = codes "PREEMPT_RT"

abbrev read_flag : Option Bool → Bool
read_flag none = false
read_flag (some has_realtime) = has_realtime

abbrev by_version : Option (List ℕ) → Bool
by_version none = false
by_version (some version) = contains preempt_rt version

unfoldable pub has_realtime_kernel : KernelInfo → Bool
has_realtime_kernel info =
    if not (read_flag info.realtime_file) then by_version info.uname_version else true

-- The call gives 0, or -1 on an error.
abbrev pub is_done : ℤ → Bool
is_done (pos n) = n == 0
is_done (negsuc n) = false

abbrev pub sched_fifo : ℕ
sched_fifo = 1

abbrev pub sched_rr : ℕ
sched_rr = 2

module _ {S : Type 0} (sched_setscheduler : ℕ → ℤ → S → S × ℤ) where
  abbrev scheduled : S × ℤ → S × Bool
  scheduled (s, result) = (s, is_done result)

  unfoldable pub configure_sched_fifo : ℤ → S → S × Bool
  configure_sched_fifo priority s = scheduled (sched_setscheduler sched_fifo priority s)

  unfoldable pub configure_sched_rr : ℤ → S → S × Bool
  configure_sched_rr priority s = scheduled (sched_setscheduler sched_rr priority s)

is_prefix-append : (p b : List ℕ) → is_prefix p (p ++ b) ≡ true
is_prefix-append [] b = refl
is_prefix-append (x ∷ p) b = ground (arith, is_prefix-append p b)

contains-append : (a p b : List ℕ) → contains p (a ++ (p ++ b)) ≡ true
unfolding contains
contains-append [] [] [] = refl
contains-append [] [] (x ∷ b) = refl
contains-append [] (x ∷ p) b = ground (arith, is_prefix-append p b)
contains-append (x ∷ a) p b = ground (arith, contains-append a p b)

is_prefix-rest : (p xs : List ℕ) → is_prefix p xs ≡ true → (b : List ℕ) × (xs ≡ p ++ b)
is_prefix-rest [] xs e = (xs, refl)
is_prefix-rest (y ∷ p) [] e = absurd (ground arith)
is_prefix-rest (y ∷ p) (x ∷ xs) e =
    let (b, f) = is_prefix-rest p xs (ground arith) in (b, ground (arith, f))

contains-split :
    (p xs : List ℕ) → contains p xs ≡ true → (a : List ℕ) × (b : List ℕ) × (xs ≡ a ++ (p ++ b))
unfolding contains
contains-split p [] e = let (b, f) = is_prefix-rest p [] e in ([], b, f)
contains-split p (x ∷ xs) e = elim (Bool-cases (is_prefix p (x ∷ xs))) [
  | inl t ↦ let (b, f) = is_prefix-rest p (x ∷ xs) t in ([], b, f)
  | inr t ↦ let (a, b, f) = contains-split p xs (ground arith) in (x ∷ a, b, ap (x ∷◌) f)
]

-- The file tells a realtime kernel, or the kernel's version has PREEMPT_RT in it.
abbrev pub TellsRealtime : KernelInfo → Type 0
TellsRealtime info =
    (info.realtime_file ≡ some true)
    ⊎ ((a : List ℕ) × (b : List ℕ) × (info.uname_version ≡ some (a ++ (preempt_rt ++ b))))

has_realtime_kernel-Tells :
    (info : KernelInfo) → has_realtime_kernel info ≡ true → TellsRealtime info
unfolding has_realtime_kernel
has_realtime_kernel-Tells info e = elim (Option-cases info.uname_version) [
  | inl v ↦ inl (ground arith)
  | inr (version, v) ↦ elim (Bool-cases (contains preempt_rt version)) [
    | inl t ↦ let (a, b, f) = contains-split preempt_rt version t in inr (a, b, v ∙ ap some f)
    | inr t ↦ inl (ground arith)
  ]
]

-- `has_realtime_kernel` returns true exactly if /sys/kernel/realtime opens and is read as true, or
-- `uname` succeeds with a version that has PREEMPT_RT somewhere in it.
pub has_realtime_kernel_iff :
    (info : KernelInfo) → (has_realtime_kernel info ≡ true) ↔ TellsRealtime info
unfolding has_realtime_kernel
has_realtime_kernel_iff info = (
  has_realtime_kernel-Tells info,
  elim [ inl e ↦ ground arith | inr (a, b, e) ↦ ground (arith, contains-append a preempt_rt b) ],
)
