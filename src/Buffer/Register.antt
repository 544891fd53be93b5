-- ===== src/Buffer/Register.antt =====
-- What the buffer promises: a register with the newest value, and the one that the realtime side sees.
use portage_realtime_tools_e.Base.{
  ◌≡◌, refl, ◌≢◌, Bool, true, false, List, [], ◌∷◌, Option, none, some, arith, if◌then◌else◌,
}
use portage_realtime_tools_e.Buffer.{
  Buffer, content, read_from_rt, read_from_non_rt, write_from_non_rt, init_rt, reset, copy,
  copy_from, make,
}

pub record Register (A : Type 0) : Type 0 where
  pub newest : A
  pub seen : A

-- A method, with the other side's choice and the values that it brings in.
pub data Call (A : Type 0) : Type 0 where
  read_rt : Bool → Call A
  read_non_rt : Call A
  write : A → Call A
  init : A → Call A
  reset_to : A → Call A
  assign_from : Option (Buffer A) → Call A

module _ {A : Type 0} where
  -- The two pointers lead to different objects.
  abbrev pub IsValid : Buffer A → Type 0
  IsValid b = b.realtime_data ≢ b.non_realtime_data

  abbrev pub register : Buffer A → Register A
  register b = record {
    newest = content b (if b.new_data_available then b.non_realtime_data else b.realtime_data);
    seen = content b b.realtime_data;
  }

  -- What the register does: a read of the realtime side that gets the lock sees the newest value.
  abbrev pub promised : Call A → Register A → Register A × Option A
  promised (read_rt true) r = (record { newest = r.newest; seen = r.newest }, some r.newest)
  promised (read_rt false) r = (r, some r.seen)
  promised read_non_rt r = (r, some r.newest)
  promised (write a) r = (record r { newest = a }, none)
  promised (init a) r = (record { newest = a; seen = a }, none)
  promised (reset_to a) r = (record { newest = a; seen = a }, none)
  promised (assign_from none) r = (r, none)
  promised (assign_from (some source)) r = (record r { newest = (register source).newest }, none)

  -- What the buffer does, and the value behind the pointer that it returns.
  abbrev pub done : Call A → Buffer A → Buffer A × Option A
  done (read_rt owns_lock) b = let (c, p) = read_from_rt owns_lock b in (c, some (content c p))
  done read_non_rt b = (b, some (content b (read_from_non_rt b)))
  done (write a) b = (write_from_non_rt a b, none)
  done (init a) b = (init_rt a b, none)
  done (reset_to a) b = (reset a b, none)
  done (assign_from source) b = (copy_from source b, none)

  abbrev pub all_promised : List (Call A) → Register A → List (Option A)
  all_promised [] r = []
  all_promised (c ∷ cs) r = let (r', o) = promised c r in o ∷ all_promised cs r'

  abbrev pub all_done : List (Call A) → Buffer A → List (Option A)
  all_done [] b = []
  all_done (c ∷ cs) b = let (b', o) = done c b in o ∷ all_done cs b'

  pub done-IsValid : (c : Call A) (b : Buffer A) → IsValid b → IsValid (done c b).0
  unfolding read_from_rt write_from_non_rt init_rt reset copy_from
  done-IsValid (read_rt true) b v = ground arith
  done-IsValid (assign_from none) b v = v
  done-IsValid c b v = ground arith

  pub done-promised :
      (c : Call A) (b : Buffer A)
      → IsValid b
      → promised c (register b) ≡ (register (done c b).0, (done c b).1)
  unfolding read_from_rt read_from_non_rt write_from_non_rt init_rt reset copy_from
  done-promised (read_rt true) b v = ground arith
  done-promised (assign_from none) b v = ground arith
  done-promised c b v = ground arith

  -- The buffer is the register: whatever methods are called on it, in any order and with any
  -- outcome of the `try_to_lock`, the values behind the pointers that they return are those that the
  -- register promises. In particular a realtime read that gets the lock sees the newest value that
  -- was written, and one that does not sees again what it saw last.
  pub buffer_is_register :
      (cs : List (Call A)) (b : Buffer A) → IsValid b → all_done cs b ≡ all_promised cs (register b)
  buffer_is_register [] b v = refl
  buffer_is_register (c ∷ cs) b v =
      ground (arith, done-promised c b v, buffer_is_register cs (done c b).0 (done-IsValid c b v))

  -- A copy is valid and holds the newest value of its source, although the copy constructor leaves
  -- `new_data_available_` uninitialized, whatever value that member has.
  pub copy-newest :
      (fresh : A) (garbage : Bool) (source : Buffer A)
      → IsValid (copy fresh garbage source)
        × ((register (copy fresh garbage source)).newest ≡ (register source).newest)
  unfolding copy write_from_non_rt read_from_non_rt make
  copy-newest fresh garbage source = ground arith
