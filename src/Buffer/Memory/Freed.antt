-- ===== src/Buffer/Memory/Freed.antt =====
-- The buffer from its construction to its destructor.
use portage_realtime_tools_e.Base.{ℕ, ◌≡◌, Bool, none, some, List, [], ◌∷◌, arith}
use portage_realtime_tools_e.Buffer.{Buffer, make, copy}
use portage_realtime_tools_e.Buffer.Register.{
  Call, IsValid, done, done-IsValid, all_done, register, copy-newest,
}
use portage_realtime_tools_e.Buffer.Memory.{
  Heap, HeapBuffer, empty_heap, construct, copy_construct, life_of,
}
use portage_realtime_tools_e.Buffer.Memory.Owned.{Represents, construct-Represents}
use portage_realtime_tools_e.Buffer.Memory.Methods.{
  emptied, done-Done, copy-Represents, destroy-empty,
}

module _ {A : Type 0} where
  -- The calls and the destructor have an outcome, with the values of the buffer without the heap,
  -- and no object lives after them.
  abbrev pub Frees : List (Call A) → HeapBuffer A → Buffer A → Type 0
  Frees cs h b =
      (g : Heap A) × (life_of cs h ≡ some (all_done cs b, g)) × ((p : ℕ) → g.cells p ≡ none)

  life_of-Frees :
      (cs : List (Call A)) (h : HeapBuffer A) (b : Buffer A)
      → Represents h b
      → IsValid b
      → Frees cs h b
  life_of-Frees [] h b r v =
      let (e, z) = destroy-empty h b r v in
      (emptied h.non_realtime_data h.realtime_data h.heap, ground arith, z)
  life_of-Frees (c ∷ cs) h b r v =
      let (h', e, r') = done-Done c h b r v in
      let (g, e', z) = life_of-Frees cs h' (done c b).0 r' (done-IsValid c b v) in
      (g, ground arith, z)

  -- Whatever methods are called on a buffer, in any order and with any outcome of the `try_to_lock`,
  -- from its construction or its copy construction to its destructor, no object is used after it was
  -- deleted, none is deleted twice, the methods return the values that `buffer_is_register` is
  -- about, and every object that was allocated has been deleted in the end.
  pub objects_are_freed :
      (cs : List (Call A)) (a : A) (garbage : Bool) (source : Buffer A)
      → Frees cs (construct a empty_heap) (make a)
        × ((h : HeapBuffer A) × (copy_construct a garbage (register source).newest empty_heap
              ≡ some h)
            × Frees cs h (copy a garbage source))
  unfolding make
  objects_are_freed cs a garbage source =
      let (h, e, r) = copy-Represents a garbage source in
      (
        life_of-Frees cs _ (make a) (construct-Represents a) (λ e. ground arith),
        (h, e, life_of-Frees cs h _ r (copy-newest a garbage source).0),
      )
