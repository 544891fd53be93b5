-- ===== src/Buffer.antt =====
-- realtime_tools/include/realtime_tools/realtime_buffer.hpp: `RealtimeBuffer`, two objects that the
-- realtime thread and the others exchange by swapping pointers. Each method is a function; those
-- that take `mutex_` run alone, and the outcome of a `try_to_lock` is an argument.
pub mod Register
pub mod Steps
pub mod Memory
mod Examples
use portage_realtime_tools_e.Base.{Bool, true, false, Option, none, some, if◌then◌else◌}

-- The two objects that the pointers lead to, by the member that points to each at first.
pub data Object : Type 0 where
  one two : Object

pub record Buffer (A : Type 0) : Type 0 where
  pub at_one : A
  pub at_two : A
  pub realtime_data : Object
  pub non_realtime_data : Object
  pub new_data_available : Bool

module _ {A : Type 0} where
  -- `*p`
  abbrev pub content : Buffer A → Object → A
  content b one = b.at_one
  content b two = b.at_two

  -- `*p = a`
  abbrev pub assign : Object → A → Buffer A → Buffer A
  assign one a b = record b { at_one = a }
  assign two a b = record b { at_two = a }

  -- The constructors: with the value of `T()`, or with `data`.
  unfoldable pub make : A → Buffer A
  make a = record {
    at_one = a;
    at_two = a;
    realtime_data = two;
    non_realtime_data = one;
    new_data_available = false;
  }

  -- What stands under `owns_lock()` of `readFromRT`.
  unfoldable pub swap_pointers : Buffer A → Buffer A
  swap_pointers b =
      if b.new_data_available
      then record b {
        realtime_data = b.non_realtime_data;
        non_realtime_data = b.realtime_data;
        new_data_available = false;
      }
      else b

  -- `owns_lock` is the outcome of the `try_to_lock`; the pointer is what is returned.
  unfoldable pub read_from_rt : Bool → Buffer A → Buffer A × Object
  unfolding swap_pointers
  read_from_rt owns_lock b =
      let c = if owns_lock then swap_pointers b else b in (c, c.realtime_data)

  unfoldable pub read_from_non_rt : Buffer A → Object
  read_from_non_rt b = if b.new_data_available then b.non_realtime_data else b.realtime_data

  unfoldable pub write_from_non_rt : A → Buffer A → Buffer A
  write_from_non_rt a b = record (assign b.non_realtime_data a b) { new_data_available = true }

  unfoldable pub init_rt : A → Buffer A → Buffer A
  init_rt a b = assign b.realtime_data a (assign b.non_realtime_data a b)

  -- `fresh` is the value of `T()`, in two new objects; the flag is not touched.
  unfoldable pub reset : A → Buffer A → Buffer A
  reset fresh b = record {
    at_one = fresh;
    at_two = fresh;
    realtime_data = two;
    non_realtime_data = one;
    new_data_available = b.new_data_available;
  }

  -- The copy constructor; it does not initialize the flag, whose value is `garbage` until the write.
  unfoldable pub copy : A → Bool → Buffer A → Buffer A
  unfolding write_from_non_rt read_from_non_rt make
  copy fresh garbage source =
      write_from_non_rt (content source (read_from_non_rt source))
        (record (make fresh) { new_data_available = garbage })

  -- `operator=`; `none` stands for the buffer itself.
  unfoldable pub copy_from : Option (Buffer A) → Buffer A → Buffer A
  unfolding write_from_non_rt read_from_non_rt
  copy_from none b = b
  copy_from (some source) b = write_from_non_rt (content source (read_from_non_rt source)) b
