-- ===== src/Queue/Window.antt =====
-- A queue that is filled by `bounded_push` alone.
use mathlib.Core.Path.{subst}
use portage_realtime_tools_e.Base.{
  length, ◌+◌, ◌≡◌, refl, sym, ap, ◌∙◌, ◌≢◌, ◌⊎◌, inl, List, [], ◌∷◌, ◌++◌, ltb, if◌then◌else◌,
  arith,
}
use portage_realtime_tools_e.Queue.{Container, LockFreeQueue, bounded_push}
use portage_realtime_tools_e.Queue.Documented.{Contents, without_first, Documented}
use portage_realtime_tools_e.Queue.Fifo.{
  Fits, fifo, promised, calls_bounded_push, length-without_first, promised-Fits, done-promised,
}

module _ {T : Type 0} where
  pub append_assoc : (xs ys zs : List T) → (xs ++ ys) ++ zs ≡ xs ++ (ys ++ zs)
  append_assoc [] ys zs = refl
  append_assoc (x ∷ xs) ys zs = ground (arith, append_assoc xs ys zs)

  append_nil : (xs : List T) → xs ++ [] ≡ xs
  append_nil [] = refl
  append_nil (x ∷ xs) = ground (arith, append_nil xs)

  length-append : (xs ys : List T) → length (xs ++ ys) ≡ length xs + length ys
  length-append [] ys = ground arith
  length-append (x ∷ xs) ys = ground (arith, length-append xs ys)

  -- What goes out for a new element.
  abbrev first_only : List T → List T
  first_only [] = []
  first_only (x ∷ xs) = x ∷ []

  first_only-without_first : (xs : List T) → xs ≡ first_only xs ++ without_first xs
  first_only-without_first [] = refl
  first_only-without_first (x ∷ xs) = refl

  -- `before` and then `added` is `dropped` and then what is there `after`, which is full if anything
  -- was dropped.
  pub record Window (before added : List T) (after : Contents T) : Type 0 where
    pub dropped : List T
    pub in_order : before ++ added ≡ dropped ++ after.items
    pub only_if_full : (dropped ≡ []) ⊎ (length after.items ≡ after.limit)

  promised-Window :
      (x : T) (s : Contents T)
      → Fits s
      → s.limit ≢ 0
      → Window s.items (x ∷ []) (promised (calls_bounded_push x) s).0
  promised-Window x s f n = record {
    dropped = if ltb (length s.items) s.limit then [] else first_only s.items;
    in_order = ground (
      arith,
      first_only-without_first s.items,
      append_assoc (first_only s.items) (without_first s.items) (x ∷ []),
    );
    only_if_full =
        ground
          (arith, length-append (without_first s.items) (x ∷ []), length-without_first s.items);
  }

  -- Two windows in a row.
  Window-trans :
      (before xs ys : List T) (middle after : Contents T)
      → middle.limit ≡ after.limit
      → Fits after
      → Window before xs middle
      → Window middle.items ys after
      → Window before (xs ++ ys) after
  Window-trans before xs ys middle after l f v w = record {
    dropped = v.dropped ++ w.dropped;
    in_order =
        sym (append_assoc before xs ys)
        ∙ ap (λ z. z ++ ys) v.in_order
        ∙ append_assoc v.dropped middle.items ys
        ∙ ap (λ z. v.dropped ++ z) w.in_order
        ∙ sym (append_assoc v.dropped w.dropped after.items);
    only_if_full = ground (
      arith,
      v.in_order,
      w.in_order,
      v.only_if_full,
      w.only_if_full,
      length-append middle.items ys,
    );
  }

  bounded_push-limit :
      (x : T) (s : Contents T) → (promised (calls_bounded_push x) s).0.limit ≡ s.limit
  bounded_push-limit x s = ground arith

  module _ (c : Container T) (doc : Documented c) where
    abbrev pub bounded_push_all : List T → LockFreeQueue c.Queue → LockFreeQueue c.Queue
    bounded_push_all [] q = q
    bounded_push_all (x ∷ xs) q = bounded_push_all xs (bounded_push c x q).0

    bounded_push-contents :
        (x : T) (q : LockFreeQueue c.Queue)
        → Fits (fifo c doc q)
        → (promised (calls_bounded_push x) (fifo c doc q)).0 ≡ fifo c doc (bounded_push c x q).0
    bounded_push-contents x q f = (done-promised c doc (calls_bounded_push x) q f).0

    -- However many elements are pushed by `bounded_push` into a queue with room for at least one, what
    -- is in the queue then is the newest of what was there and what was pushed, in order: nothing but
    -- the oldest is dropped, and only if the queue is full in the end.
    pub bounded_pushes_keep_newest :
        (xs : List T) (q : LockFreeQueue c.Queue)
        → Fits (fifo c doc q)
        → (fifo c doc q).limit ≢ 0
        → Window (fifo c doc q).items xs (fifo c doc (bounded_push_all xs q))
          × Fits (fifo c doc (bounded_push_all xs q))
          × ((fifo c doc (bounded_push_all xs q)).limit ≡ (fifo c doc q).limit)
    bounded_pushes_keep_newest [] q f n = (
      record { dropped = []; in_order = append_nil (fifo c doc q).items; only_if_full = inl refl },
      f,
      refl,
    )
    bounded_pushes_keep_newest (x ∷ xs) q f n =
        let s = fifo c doc q in
        let r = (bounded_push c x q).0 in
        let e = bounded_push-contents x q f in
        let l = sym (ap (λ z. z.limit) e) ∙ bounded_push-limit x s in
        let g = subst Fits e (promised-Fits (calls_bounded_push x) s f) in
        let (w, h, k) = bounded_pushes_keep_newest xs r g (λ z. n (sym l ∙ z)) in
        let v = subst (Window s.items (x ∷ [])) e (promised-Window x s f n) in
        (
          Window-trans s.items (x ∷ []) xs (fifo c doc r) (fifo c doc (bounded_push_all xs r))
              (sym k) h v w,
          h,
          k ∙ l,
        )
