-- ===== src/Buffer/Memory/Methods.antt =====
-- Each method of the buffer keeps its objects, and does to them what it does without the heap.
use portage_realtime_tools_e.Base.{ℕ, ◌+◌, ◌≡◌, ◌≢◌, refl, sym, Bool, none, some, update, arith}
use portage_realtime_tools_e.Buffer
use portage_realtime_tools_e.Buffer.{Buffer, Object, one, two, content, make, copy}
use portage_realtime_tools_e.Buffer.Register.{
  Call, read_rt, read_non_rt, write, init, reset_to, assign_from, IsValid, done, register,
}
use portage_realtime_tools_e.Buffer.Memory.{
  Heap, HeapBuffer, empty_heap, allocate, load, delete_if, construct, destroy, reset, read_from_rt,
  read_pointer, init_rt, copy_construct, done_on_heap,
}
use portage_realtime_tools_e.Buffer.Memory.Owned.{
  place, Represents, store-Represents, write-Represents, load-content, construct-Represents,
  flag-Represents,
}

module _ {A : Type 0} where
  init-Represents :
      (a : A) (h : HeapBuffer A) (b : Buffer A)
      → Represents h b
      → (g : HeapBuffer A) × (init_rt a h ≡ some g) × Represents g (Buffer.init_rt a b)
  unfolding init_rt Buffer.init_rt
  init-Represents a h b r =
      let (e, s) = store-Represents b.non_realtime_data a h b r in
      let (e', s') = store-Represents b.realtime_data a _ _ s in
      (_, ground (arith, r.non_realtime, r.realtime), s')

  abbrev pub emptied : ℕ → ℕ → Heap A → Heap A
  emptied p q g = record g { cells = update (update g.cells p none) q none }

  destroy-places :
      (o o' : Object) (h : HeapBuffer A) (b : Buffer A) (r : Represents h b)
      → o ≢ o'
      → h.non_realtime_data ≡ place r.place_one r.place_two o
      → h.realtime_data ≡ place r.place_one r.place_two o'
      → let g = emptied h.non_realtime_data h.realtime_data h.heap in
        (destroy h ≡ some g) × ((p : ℕ) → g.cells p ≡ none)
  unfolding destroy delete_if
  destroy-places one one h b r n e e' = absurd (n refl)
  destroy-places two two h b r n e e' = absurd (n refl)
  destroy-places one two h b r n e e' =
      (ground (arith, r.holds, r.distinct, r.proper), λ p. ground (arith, r.only p))
  destroy-places two one h b r n e e' =
      (ground (arith, r.holds, r.distinct, r.proper), λ p. ground (arith, r.only p))

  pub destroy-empty :
      (h : HeapBuffer A) (b : Buffer A)
      → Represents h b
      → IsValid b
      → let g = emptied h.non_realtime_data h.realtime_data h.heap in
        (destroy h ≡ some g) × ((p : ℕ) → g.cells p ≡ none)
  destroy-empty h b r v =
      destroy-places b.non_realtime_data b.realtime_data h b r (λ e. v (sym e)) r.non_realtime
        r.realtime

  -- Two objects in a heap that is empty.
  allocated-Represents :
      (a : A) (f : Bool) (g : Heap A)
      → ((p : ℕ) → g.cells p ≡ none)
      → g.next_address ≢ 0
      → (let (g1, n) = allocate a g in
          let (g2, m) = allocate a g1 in
          Represents
            (record { heap = g2; realtime_data = m; non_realtime_data = n; new_data_available = f })
            (record (make a) { new_data_available = f }))
  unfolding allocate make
  allocated-Represents a f g e n = record {
    place_one = g.next_address;
    place_two = g.next_address + 1;
    distinct = ground arith;
    proper = ground arith;
    taken = ground arith;
    holds = ground arith;
    only = λ p n m. ground (arith, e p);
    realtime = refl;
    non_realtime = refl;
    flag = refl;
  }

  reset-Represents :
      (a : A) (h : HeapBuffer A) (b : Buffer A)
      → Represents h b
      → IsValid b
      → (g : HeapBuffer A) × (reset a h ≡ some g) × Represents g (Buffer.reset a b)
  unfolding reset Buffer.reset make
  reset-Represents a h b r v =
      let (e, z) = destroy-empty h b r v in
      let s =
        allocated-Represents a b.new_data_available
          (emptied h.non_realtime_data h.realtime_data h.heap) z (ground (arith, r.taken)) in
      (_, ground (arith, r.flag), s)

  read-Represents :
      (l : Bool) (h : HeapBuffer A) (b : Buffer A)
      → Represents h b
      → Represents (read_from_rt l h).0 (Buffer.read_from_rt l b).0
  unfolding read_from_rt Buffer.read_from_rt
  read-Represents l h b r = record {
    place_one = r.place_one;
    place_two = r.place_two;
    distinct = r.distinct;
    proper = r.proper;
    taken = ground (arith, r.taken);
    holds = ground (arith, r.holds);
    only = λ p n m. ground (arith, r.only p n m);
    realtime = ground (arith, r.realtime, r.non_realtime, r.flag);
    non_realtime = ground (arith, r.realtime, r.non_realtime, r.flag);
    flag = ground (arith, r.flag);
  }

  pub copy-Represents :
      (fresh : A) (garbage : Bool) (source : Buffer A)
      → (g : HeapBuffer A) × (copy_construct fresh garbage (register source).newest empty_heap
          ≡ some g)
        × Represents g (copy fresh garbage source)
  unfolding copy_construct copy Buffer.read_from_non_rt
  copy-Represents fresh garbage source =
      write-Represents (register source).newest
        (record (construct fresh empty_heap) { new_data_available = garbage })
        (record (make fresh) { new_data_available = garbage })
        (flag-Represents garbage _ _ (construct-Represents fresh))

  loads :
      (h : HeapBuffer A) (b : Buffer A) (r : Represents h b)
      → (load h.realtime_data h.heap ≡ some (content b b.realtime_data))
        × (load (read_pointer h) h.heap ≡ some (content b (Buffer.read_from_non_rt b)))
  unfolding read_pointer Buffer.read_from_non_rt
  loads h b r = (
    ground (arith, r.realtime, load-content b.realtime_data h b r),
    ground (
      arith,
      r.realtime,
      r.non_realtime,
      r.flag,
      load-content b.realtime_data h b r,
      load-content b.non_realtime_data h b r,
    ),
  )

  abbrev pub Done : Call A → HeapBuffer A → Buffer A → Type 0
  Done c h b =
      (g : HeapBuffer A) × (done_on_heap c h ≡ some (g, (done c b).1)) × Represents g (done c b).0

  read-Done : (l : Bool) (h : HeapBuffer A) (b : Buffer A) → Represents h b → Done (read_rt l) h b
  unfolding read_from_rt Buffer.read_from_rt
  read-Done l h b r =
      let s = read-Represents l h b r in
      (
        (read_from_rt l h).0,
        ground (arith, loads (read_from_rt l h).0 (Buffer.read_from_rt l b).0 s),
        s,
      )

  assign-Done :
      (source : Buffer A) (h : HeapBuffer A) (b : Buffer A)
      → Represents h b
      → Done (assign_from (some source)) h b
  unfolding Buffer.copy_from Buffer.read_from_non_rt
  assign-Done source h b r =
      let (g, e, s) = write-Represents (register source).newest h b r in (g, ground arith, s)

  self-Done : (h : HeapBuffer A) (b : Buffer A) → Represents h b → Done (assign_from none) h b
  unfolding Buffer.copy_from
  self-Done h b r = (h, refl, r)

  pub done-Done :
      (c : Call A) (h : HeapBuffer A) (b : Buffer A) → Represents h b → IsValid b → Done c h b
  done-Done (read_rt l) h b r v = read-Done l h b r
  done-Done read_non_rt h b r v = (h, ground (arith, loads h b r), r)
  done-Done (write a) h b r v = let (g, e, s) = write-Represents a h b r in (g, ground arith, s)
  done-Done (init a) h b r v = let (g, e, s) = init-Represents a h b r in (g, ground arith, s)
  done-Done (reset_to a) h b r v =
      let (g, e, s) = reset-Represents a h b r v in (g, ground arith, s)
  done-Done (assign_from none) h b r v = self-Done h b r
  done-Done (assign_from (some source)) h b r v = assign-Done source h b r
