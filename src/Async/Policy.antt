-- ===== src/Async/Policy.antt =====
-- `AsyncSchedulingPolicy` of async_function_handler.hpp, and its names.
use Prim.Native.String.{String}
use text.Mathlib.Text.{◌==◌}
use text.Mathlib.TextEquality.{eq_iff}
use portage_realtime_tools_e.Base.{◌≡◌, refl, ◌≢◌, Bool, true, false, arith, if◌then◌else◌}

-- `Value`; the default is `unknown`.
pub data Policy : Type 0 where
  unknown synchronized detached : Policy

-- The constructor from a text, which `from_string` calls.
unfoldable pub of_string : String → Policy
of_string data_type =
    if data_type == "synchronized"
    then synchronized
    else if data_type == "detached"
    then detached
    else unknown

unfoldable pub to_string : Policy → String
to_string synchronized = "synchronized"
to_string detached = "detached"
to_string unknown = "unknown"

-- `operator==` and `operator!=`
abbrev pub eq : Policy → Policy → Bool
eq unknown unknown = true
eq synchronized synchronized = true
eq detached detached = true
eq _ _ = false

-- The name of a policy is read as that policy, and a text that is read as one of the two proper
-- policies is its name; any other text is read as `unknown`.
pub of_string-to_string :
    ((p : Policy) → of_string (to_string p) ≡ p)
    × ((s : String) → of_string s ≢ unknown → to_string (of_string s) ≡ s)
    × ((s : String) → s ≢ "synchronized" → s ≢ "detached" → of_string s ≡ unknown)
unfolding of_string to_string
of_string-to_string = (
  elim [ unknown ↦ refl | synchronized ↦ refl | detached ↦ refl ],
  λ s h. ground (arith, eq_iff s "synchronized", eq_iff s "detached"),
  λ s h k. ground (arith, eq_iff s "synchronized", eq_iff s "detached"),
)
