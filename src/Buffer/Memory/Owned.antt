-- ===== src/Buffer/Memory/Owned.antt =====
-- The buffer owns its two objects: each pointer leads to a live object of its own, nothing else
-- lives, and the values are those of the buffer without the heap.
use portage_realtime_tools_e.Base.{ℕ, ◌<◌, ◌≡◌, ◌≢◌, refl, Bool, true, none, some, update, arith}
use portage_realtime_tools_e.Buffer
use portage_realtime_tools_e.Buffer.{Buffer, Object, one, two, content, assign, make}
use portage_realtime_tools_e.Buffer.Memory.{
  Heap, HeapBuffer, empty_heap, load, store, construct, write_from_non_rt,
}

abbrev pub place : ℕ → ℕ → Object → ℕ
place p q one = p
place p q two = q

module _ {A : Type 0} where
  -- `place` gives the addresses of the two objects.
  pub record Represents (h : HeapBuffer A) (b : Buffer A) : Type 0 where
    pub place_one : ℕ
    pub place_two : ℕ
    pub distinct : place_one ≢ place_two
    pub proper : (place_one ≢ 0) × (place_two ≢ 0)
    pub taken : (place_one < h.heap.next_address) × (place_two < h.heap.next_address)
    pub holds : (h.heap.cells place_one ≡ some b.at_one) × (h.heap.cells place_two ≡ some b.at_two)
    pub only : (p : ℕ) → p ≢ place_one → p ≢ place_two → h.heap.cells p ≡ none
    pub realtime : h.realtime_data ≡ place place_one place_two b.realtime_data
    pub non_realtime : h.non_realtime_data ≡ place place_one place_two b.non_realtime_data
    pub flag : h.new_data_available ≡ b.new_data_available

  pub construct-Represents : (a : A) → Represents (construct a empty_heap) (make a)
  unfolding construct make
  construct-Represents a = record {
    place_one = 1;
    place_two = 2;
    distinct = ground arith;
    proper = ground arith;
    taken = ground arith;
    holds = ground arith;
    only = λ p n m. ground arith;
    realtime = refl;
    non_realtime = refl;
    flag = refl;
  }

  pub flag-Represents :
      (f : Bool) (h : HeapBuffer A) (b : Buffer A)
      → Represents h b
      → Represents (record h { new_data_available = f }) (record b { new_data_available = f })
  flag-Represents f h b r = record {
    place_one = r.place_one;
    place_two = r.place_two;
    distinct = r.distinct;
    proper = r.proper;
    taken = r.taken;
    holds = r.holds;
    only = r.only;
    realtime = r.realtime;
    non_realtime = r.non_realtime;
    flag = refl;
  }

  -- The heap with the object `o` changed.
  abbrev put : ℕ → A → Heap A → Heap A
  put p a g = record g { cells = update g.cells p (some a) }

  pub store-Represents :
      (o : Object) (a : A) (h : HeapBuffer A) (b : Buffer A) (r : Represents h b)
      → let p = place r.place_one r.place_two o in
        (store p a h.heap ≡ some (put p a h.heap))
        × Represents (record h { heap = put p a h.heap }) (assign o a b)
  unfolding store
  store-Represents one a h b r = (
    ground (arith, r.holds),
    record {
      place_one = r.place_one;
      place_two = r.place_two;
      distinct = r.distinct;
      proper = r.proper;
      taken = r.taken;
      holds = ground (arith, r.holds, r.distinct);
      only = λ p n m. ground (arith, r.only p n m);
      realtime = r.realtime;
      non_realtime = r.non_realtime;
      flag = r.flag;
    },
  )
  store-Represents two a h b r = (
    ground (arith, r.holds),
    record {
      place_one = r.place_one;
      place_two = r.place_two;
      distinct = r.distinct;
      proper = r.proper;
      taken = r.taken;
      holds = ground (arith, r.holds, r.distinct);
      only = λ p n m. ground (arith, r.only p n m);
      realtime = r.realtime;
      non_realtime = r.non_realtime;
      flag = r.flag;
    },
  )

  pub write-Represents :
      (a : A) (h : HeapBuffer A) (b : Buffer A)
      → Represents h b
      → (g : HeapBuffer A) × (write_from_non_rt a h ≡ some g)
        × Represents g (Buffer.write_from_non_rt a b)
  unfolding write_from_non_rt Buffer.write_from_non_rt
  write-Represents a h b r =
      let (e, s) = store-Represents b.non_realtime_data a h b r in
      (_, ground (arith, r.non_realtime), flag-Represents true _ _ s)

  pub load-content :
      (o : Object) (h : HeapBuffer A) (b : Buffer A) (r : Represents h b)
      → load (place r.place_one r.place_two o) h.heap ≡ some (content b o)
  unfolding load
  load-content one h b r = r.holds.0
  load-content two h b r = r.holds.1
