-- ===== src/Queue/Threads/Conserved.antt =====
-- That no element is lost or doubled among threads.
use mathlib.Core.List.{append_assoc}
use portage_realtime_tools_e.Base.{
  ◌≡◌, refl, ◌⊎◌, inl, inr, List, [], ◌∷◌, ◌++◌, length, ltb, ◌≤◌, arith, Bool-cases,
}
use portage_realtime_tools_e.Queue.{Container, push}
use portage_realtime_tools_e.Queue.Documented.{Contents, Documented}
use portage_realtime_tools_e.Queue.Fifo.{fifo, push-adds, length-add}
use portage_realtime_tools_e.Queue.Threads.{Pc, Shared, push_step, pop_step, thread_step}

List-cases : {T : Type 0} (xs : List T) → (xs ≡ []) ⊎ ((y : T) × (ys : List T) × (xs ≡ y ∷ ys))
List-cases [] = inl refl
List-cases (y ∷ ys) = inr (y, ys, refl)

module _ {T : Type 0} (c : Container T) (doc : Documented c) where
  -- The elements in the queue.
  abbrev pub inside : Shared T c.Queue → Contents T
  inside s = fifo c doc s.queue

  -- What was added is what was removed and then what is in the queue, which has room for it.
  abbrev pub Conserves : Shared T c.Queue → Type 0
  Conserves s =
      (s.added ≡ s.removed ++ (inside s).items) × (length (inside s).items ≤ (inside s).limit)

  push_step-full :
      (x : T) (s : Shared T c.Queue)
      → (push_step c x s).1 ≡ ltb (length (inside s).items) (inside s).limit
  push_step-full x s = ground (arith, push-adds c doc x s.queue)

  push_step-Conserves : (x : T) (s : Shared T c.Queue) → Conserves s → Conserves (push_step c x s).0
  push_step-Conserves x s (e, l) = elim (Bool-cases (push c x s.queue).1) [
    | inl b ↦ (
      ground (
        arith,
        push-adds c doc x s.queue,
        length-add (inside s).items x,
        append_assoc s.removed (inside s).items (x ∷ []),
      ),
      ground (
        arith,
        push-adds c doc x s.queue,
        length-add (inside s).items x,
        append_assoc s.removed (inside s).items (x ∷ []),
      ),
    )
    | inr b ↦ (ground (arith, push-adds c doc x s.queue), ground (arith, push-adds c doc x s.queue))
  ]

  pop_step-Conserves : (s : Shared T c.Queue) → Conserves s → Conserves (pop_step c s).0
  pop_step-Conserves s (e, l) = elim (List-cases (inside s).items) [
    | inl n ↦ (
      ground (arith, doc.pop_takes s.queue.data_queue),
      ground (arith, doc.pop_takes s.queue.data_queue),
    )
    | inr (y, ys, n) ↦ (
      ground (arith, doc.pop_takes s.queue.data_queue, append_assoc s.removed (y ∷ []) ys),
      ground (arith, doc.pop_takes s.queue.data_queue),
    )
  ]

  pub thread_step-Conserves :
      (p : Pc T) (s : Shared T c.Queue) → Conserves s → Conserves (thread_step c p s).0
  unfolding thread_step
  thread_step-Conserves (Pc.pushing x) s z = push_step-Conserves x s z
  thread_step-Conserves (Pc.first_pushing x) s z = push_step-Conserves x s z
  thread_step-Conserves (Pc.second_pushing x) s z = push_step-Conserves x s z
  thread_step-Conserves (Pc.making_room x) s z = pop_step-Conserves s z
  thread_step-Conserves Pc.popping s z = pop_step-Conserves s z
  thread_step-Conserves (Pc.consuming o) s z = pop_step-Conserves s z
  thread_step-Conserves p s z = z
