-- ===== src/Helpers/Naming.antt =====
-- `set_current_thread_name` of realtime_helpers.cpp, on Linux. A name is a list of bytes; `pthread_setname_np` is a parameter that gives 0 or an error.
use portage_realtime_tools_e.Base.{
  length, ℕ, zero, suc, ◌≡◌, refl, ◌≤◌, Bool, true, false, List, [], ◌∷◌, ltb, ◌==◌, arith,
  if◌then◌else◌,
}

pub data Message : Type 0 where
  empty_name : Message
  named truncated : List ℕ → Message
  not_named : ℕ → Message

-- `substr(0, n)`
abbrev pub take : ℕ → List ℕ → List ℕ
take zero xs = []
take (suc n) [] = []
take (suc n) (x ∷ xs) = x ∷ take n xs

module _ {S : Type 0} (pthread_setname_np : List ℕ → S → S × ℕ) where
  abbrev pub name_set : List ℕ → S × ℕ → S × Bool × Message
  name_set name (s, rc) =
      if rc == 0
      then (
        s,
        true,
        if ltb 15 (length name) then truncated (take 15 name) else named (take 15 name),
      )
      else (s, false, not_named rc)

  unfoldable pub set_current_thread_name : List ℕ → S → S × Bool × Message
  set_current_thread_name [] s = (s, false, empty_name)
  set_current_thread_name name s = name_set name (pthread_setname_np (take 15 name) s)

take-all : (n : ℕ) (xs : List ℕ) → length xs ≤ n → take n xs ≡ xs
take-all zero [] l = refl
take-all (suc n) [] l = refl
take-all zero (x ∷ xs) l = ground arith
take-all (suc n) (x ∷ xs) l = ground (arith, take-all n xs)

-- A name of at most 15 characters, and not empty, is given to the thread as it is.
pub short_name_is_kept :
    {S : Type 0} (pthread_setname_np : List ℕ → S → S × ℕ) (name : List ℕ) (s : S)
    → 1 ≤ length name
    → length name ≤ 15
    → (pthread_setname_np name s).1 ≡ 0
    → set_current_thread_name pthread_setname_np name s
      ≡ ((pthread_setname_np name s).0, true, named name)
unfolding set_current_thread_name
short_name_is_kept pthread_setname_np [] s o l e = ground arith
short_name_is_kept pthread_setname_np (x ∷ xs) s o l e = ground (arith, take-all 15 (x ∷ xs) l)
