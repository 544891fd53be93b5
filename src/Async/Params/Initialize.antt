-- ===== src/Async/Params/Initialize.antt =====
-- What `initialize` makes of a node's parameters.
use Prim.Native.String.{String, ◌++◌}
use portage_realtime_tools_e.Base.{
  ℕ, ◌≡◌, refl, ◌<◌, ◌≤◌, ◌-◌, ◌%◌, ◌^◌, true, some, List, [], ◌∷◌, arith, ℤ, pos, map, ◌≤ℤ◌,
  if◌then◌else◌, negsuc, cast_int,
}
use portage_realtime_tools_e.Base
use portage_realtime_tools_e.Async.Policy.{detached, eq, to_string, of_string-to_string}
use portage_realtime_tools_e.Async.Params.{
  Params, Node, Reading, read, failed, ◌>>=◌, initialize, read_priority, read_cores, read_policy,
  read_rate, read_wait, read_warnings, read_name,
}
use portage_realtime_tools_e.Async.Params.Validity.{All}

-- A number that an `int` holds is kept by the conversion.
abbrev pub IsInt : ℤ → Type 0
IsInt z = (z ≤ℤ pos (2 ^ 31 - 1)) × (negsuc (2 ^ 31 - 1) ≤ℤ z)

cast_int-IsInt : (z : ℤ) → IsInt z → cast_int z ≡ z
unfolding cast_int
cast_int-IsInt (pos n) h = ground arith
cast_int-IsInt (negsuc n) h = ground arith

map-cast_int : (zs : List ℤ) → All IsInt zs → map cast_int zs ≡ zs
map-cast_int [] h = refl
map-cast_int (z ∷ zs) h = cc (cast_int-IsInt z h.0, map-cast_int zs h.1)

>>=-eq-read :
    {A : Type 0} (m : Reading A) (f : A → Reading A) (b : A)
    → (m >>= f) ≡ read b
    → (a : A) × (m ≡ read a) × (f a ≡ read b)
>>=-eq-read (read a) f b h = (a, refl, h)
>>=-eq-read (failed e a) f b h = cc

module _ {C P : Type 0} (node : Node) (prefix : String) where
  -- The readers that follow that of the rate leave it and the policy alone.
  abbrev SameRate : Params C P → Params C P → Type 0
  SameRate p q = (q.exec_rate ≡ p.exec_rate) × (q.scheduling_policy ≡ p.scheduling_policy)

  wait-SameRate : (p q : Params C P) → read_wait node prefix p ≡ read q → SameRate p q
  unfolding read_wait
  wait-SameRate p q h = ground arith

  warnings-SameRate : (p q : Params C P) → read_warnings node prefix p ≡ read q → SameRate p q
  unfolding read_warnings
  warnings-SameRate p q h = ground arith

  name-SameRate : (p q : Params C P) → read_name node prefix p ≡ read q → SameRate p q
  unfolding read_name
  name-SameRate p q h = ground arith

  rate-exec_rate :
      (p q : Params C P) (n : ℕ)
      → read_rate node prefix p ≡ read q
      → q.scheduling_policy ≡ detached
      → node.has_parameter (prefix ++ "execution_rate") ≡ true
      → node.as_int (prefix ++ "execution_rate") ≡ some (pos n)
      → (q.exec_rate ≡ n % 2 ^ 32) × (0 < q.exec_rate) × (q.exec_rate < 2 ^ 31)
  unfolding read_rate cast_int
  rate-exec_rate p q n h d has is = ground arith

  -- When `initialize` ends with the detached policy over a node whose `execution_rate` is `n`, the
  -- rate is positive and fits an `int`, and it is `n` modulo 2 ^ 32: a larger parameter is not
  -- refused, but cut to its low 32 bits.
  pub initialize-exec_rate :
      (p q : Params C P) (n : ℕ)
      → initialize node prefix p ≡ read q
      → q.scheduling_policy ≡ detached
      → node.has_parameter (prefix ++ "execution_rate") ≡ true
      → node.as_int (prefix ++ "execution_rate") ≡ some (pos n)
      → (q.exec_rate ≡ n % 2 ^ 32) × (0 < q.exec_rate) × (q.exec_rate < 2 ^ 31)
  unfolding initialize
  initialize-exec_rate p q n h d has is =
      let (p6, h6, k6) = >>=-eq-read _ (read_name node prefix) q h in
      let (p5, h5, k5) = >>=-eq-read _ (read_warnings node prefix) p6 h6 in
      let (p4, h4, k4) = >>=-eq-read _ (read_wait node prefix) p5 h5 in
      let (p3, h3, k3) = >>=-eq-read _ (read_rate node prefix) p4 h4 in
      ground (
        arith,
        name-SameRate p6 q k6,
        warnings-SameRate p5 p6 k5,
        wait-SameRate p4 p5 k4,
        rate-exec_rate p3 p4 n k3,
      )

  -- The node declares every parameter, with the values of `r`; the policy by its name.
  pub record Declares (r : Params C P) : Type 0 where
    pub has : (name : String) → node.has_parameter (prefix ++ name) ≡ true
    pub priority : node.as_int (prefix ++ "thread_priority") ≡ some r.thread_priority
    pub cores : node.as_integer_array (prefix ++ "cpu_affinity") ≡ some r.cpu_affinity_cores
    pub policy :
        node.as_string (prefix ++ "scheduling_policy") ≡ some (to_string r.scheduling_policy)
    pub rate : node.as_int (prefix ++ "execution_rate") ≡ some (pos r.exec_rate)
    pub wait :
        node.as_bool (prefix ++ "wait_until_initial_trigger") ≡ some r.wait_until_initial_trigger
    pub warnings : node.as_bool (prefix ++ "print_warnings") ≡ some r.print_warnings
    pub name : node.as_string (prefix ++ "thread_name") ≡ some r.thread_name

  module _ (r : Params C P) (d : Declares r) where
    priority_lem :
        (p : Params C P)
        → IsInt r.thread_priority
        → read_priority node prefix p ≡ read (record p { thread_priority = r.thread_priority })
    unfolding read_priority
    priority_lem p h =
        ground (arith, d.has "thread_priority", d.priority, cast_int-IsInt r.thread_priority h)

    cores_lem :
        (p : Params C P)
        → All IsInt r.cpu_affinity_cores
        → read_cores node prefix p
          ≡ read (record p {
            cpu_affinity_cores = Base.◌++◌ p.cpu_affinity_cores r.cpu_affinity_cores;
          })
    unfolding read_cores
    cores_lem p h = rw (d.has "cpu_affinity", d.cores, map-cast_int r.cpu_affinity_cores h)

    policy_lem :
        (p : Params C P)
        → read_policy node prefix p ≡ read (record p { scheduling_policy = r.scheduling_policy })
    unfolding read_policy
    policy_lem p =
        rw (d.has "scheduling_policy", d.policy, of_string-to_string.0 r.scheduling_policy)

    -- The rate is read only once the policy is known to be detached.
    abbrev rate_of : Params C P → ℕ
    rate_of p = if eq p.scheduling_policy detached then r.exec_rate else p.exec_rate

    rate_lem :
        (p : Params C P)
        → 0 < r.exec_rate
        → r.exec_rate < 2 ^ 31
        → read_rate node prefix p ≡ read (record p { exec_rate = rate_of p })
    unfolding read_rate
    rate_lem p h k = ground (
      arith,
      d.has "execution_rate",
      d.rate,
      cast_int-IsInt (pos r.exec_rate) (omega arith, omega arith),
    )

    wait_lem :
        (p : Params C P)
        → read_wait node prefix p
          ≡ read (record p { wait_until_initial_trigger = r.wait_until_initial_trigger })
    unfolding read_wait
    wait_lem p = rw (d.has "wait_until_initial_trigger", d.wait)

    warnings_lem :
        (p : Params C P)
        → read_warnings node prefix p ≡ read (record p { print_warnings = r.print_warnings })
    unfolding read_warnings
    warnings_lem p = rw (d.has "print_warnings", d.warnings)

    name_lem :
        (p : Params C P) → read_name node prefix p ≡ read (record p { thread_name = r.thread_name })
    unfolding read_name
    name_lem p = rw (d.has "thread_name", d.name)

    -- Over a node that declares every parameter with the values of `r`, all of which an `int` holds,
    -- `initialize` reads them all back: the cores are added behind those that are there, the rate
    -- is taken if `r` is detached, and the clock and the predicate stay as they are.
    pub initialize-Declares :
        (p : Params C P)
        → IsInt r.thread_priority
        → All IsInt r.cpu_affinity_cores
        → 0 < r.exec_rate
        → r.exec_rate < 2 ^ 31
        → initialize node prefix p
          ≡ read (record r {
            cpu_affinity_cores = Base.◌++◌ p.cpu_affinity_cores r.cpu_affinity_cores;
            exec_rate = if eq r.scheduling_policy detached then r.exec_rate else p.exec_rate;
            clock = p.clock;
            trigger_predicate = p.trigger_predicate;
          })
    unfolding initialize
    initialize-Declares p hp hc h k = rw (priority_lem p hp) (
        rw (cores_lem _ hc) (
          rw (policy_lem _)
            (rw (rate_lem _ h k) (rw (wait_lem _) (rw (warnings_lem _) (rw (name_lem _)))))))
