-- ===== src/Queue/Documented.antt =====
-- What boost::lockfree documents of its containers, for calls that do not overlap.
use portage_realtime_tools_e.Base.{
  ℕ, ◌≡◌, Bool, true, false, Option, none, some, List, [], ◌∷◌, ◌++◌, ltb, length, ◌==◌,
  if◌then◌else◌,
}
use portage_realtime_tools_e.Queue.{Container}
use portage_realtime_tools_e.Queue.Traits.{is_spsc_queue}

-- The elements, the oldest first, and for how many there is room.
pub record Contents (T : Type 0) : Type 0 where
  pub items : List T
  pub limit : ℕ

module _ {T : Type 0} where
  -- An element is added at the end, if there is room.
  abbrev pub add : T → Contents T → Contents T × Bool
  add x s =
      if ltb (length s.items) s.limit
      then (record s { items = s.items ++ x ∷ [] }, true)
      else (s, false)

  -- The oldest element goes, if there is one.
  abbrev pub without_first : List T → List T
  without_first [] = []
  without_first (_ ∷ xs) = xs

  abbrev pub first_of : List T → Option T
  first_of [] = none
  first_of (x ∷ _) = some x

  abbrev pub take_first : Contents T → Contents T × Option T
  take_first s = (record s { items = without_first s.items }, first_of s.items)

  -- The result of a method, with the contents in place of the container.
  abbrev pub seen : {Q B : Type 0} → (Q → Contents T) → Q × B → Contents T × B
  seen contents (q, b) = (contents q, b)

  pub record Documented (c : Container T) : Type 0 where
    pub contents : c.Queue → Contents T
    pub push_adds :
        is_spsc_queue c.kind ≡ true
        → (x : T) (q : c.Queue) → seen contents (c.push x q) ≡ add x (contents q)
    pub bounded_push_adds :
        is_spsc_queue c.kind ≡ false
        → (x : T) (q : c.Queue) → seen contents (c.bounded_push x q) ≡ add x (contents q)
    pub pop_takes : (q : c.Queue) → seen contents (c.pop q) ≡ take_first (contents q)
    pub consume_all_takes :
        (q : c.Queue)
        → seen contents (c.consume_all q) ≡ (record (contents q) { items = [] }, (contents q).items)
    pub read_available_counts :
        is_spsc_queue c.kind ≡ true → (q : c.Queue) → c.read_available q ≡ length (contents q).items
    pub empty_tests :
        is_spsc_queue c.kind ≡ false → (q : c.Queue) → c.empty q ≡ (length (contents q).items == 0)
