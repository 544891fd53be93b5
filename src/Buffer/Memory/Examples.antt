-- ===== src/Buffer/Memory/Examples.antt =====
-- The life of a buffer with its memory by evaluation, and the theorem at it.
use portage_realtime_tools_e.Base.{
  ℕ, ◌≡◌, refl, true, false, Option, none, some, List, [], ◌∷◌, ℕ_discrete, ◌>>=◌,
}
use portage_realtime_tools_e.Buffer.{make, copy}
use portage_realtime_tools_e.Buffer.Register.{Call, read_rt, read_non_rt, write, reset_to, register}
use portage_realtime_tools_e.Buffer.Memory.{
  Heap, HeapBuffer, empty_heap, allocate, load, store, delete_if, construct, destroy, reset,
  read_from_rt, read_pointer, write_from_non_rt, copy_construct, life_of,
}
use portage_realtime_tools_e.Buffer.Memory.Freed.{Frees, objects_are_freed}

abbrev calls : List (Call ℕ)
calls =
    write 4 ∷ read_rt true ∷ reset_to 7 ∷ read_non_rt ∷ write 5 ∷ read_rt false ∷ read_rt true ∷ []

abbrev answers : Option (List (Option ℕ) × Heap ℕ) → List (Option ℕ)
answers none = []
answers (some (os, h)) = os

calls_test :
    answers (life_of calls (construct 0 empty_heap))
    ≡ none ∷ some 4 ∷ none ∷ some 7 ∷ none ∷ some 7 ∷ some 5 ∷ []
unfolding construct allocate load store delete_if destroy reset read_from_rt read_pointer
    write_from_non_rt ℕ_discrete
calls_test = refl

-- A second destructor would delete a dead object.
double_delete_test :
    (do
      h ← destroy (construct {A = ℕ} 0 empty_heap)
      destroy (record (construct {A = ℕ} 0 empty_heap) { heap = h }))
    ≡ none
unfolding construct allocate delete_if destroy ℕ_discrete
double_delete_test = refl

objects_are_freed_example :
    Frees calls (construct 0 empty_heap) (make 0)
    × ((h : HeapBuffer ℕ) × (copy_construct 0 true (register (make 3)).newest empty_heap ≡ some h)
        × Frees calls h (copy 0 true (make 3)))
objects_are_freed_example = objects_are_freed calls 0 true (make 3)
