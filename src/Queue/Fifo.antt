-- ===== src/Queue/Fifo.antt =====
-- What the queue promises when calls do not overlap: a row of elements with a limit, in which
-- `bounded_push` gives up the oldest element for the newest.
use portage_realtime_tools_e.Base.{
  length, ◌+◌, ◌≡◌, refl, ◌⊎◌, Bool, true, false, not, List, [], ◌∷◌, ◌++◌, Option, none, some, inl,
  inr, ltb, ◌==◌, ◌≤◌, arith, if◌then◌else◌,
}
use portage_realtime_tools_e.Queue.{
  Container, LockFreeQueue, push, pop, bounded_push, get_latest, empty, last_of,
}
use portage_realtime_tools_e.Queue.Traits.{is_spsc_queue}
use portage_realtime_tools_e.Queue.Documented.{Contents, add, without_first, Documented}

pub data Call (T : Type 0) : Type 0 where
  calls_push : T → Call T
  calls_pop : T → Call T
  calls_bounded_push : T → Call T
  calls_get_latest : T → Call T
  calls_empty : Call T

-- What a call returns: its truth value, and the data that it leaves in the caller's object.
pub record Answer (T : Type 0) : Type 0 where
  pub status : Bool
  pub data_ : Option T

module _ {T : Type 0} where
  abbrev pub returns : Bool → Answer T
  returns b = record { status = b; data_ = none }

  abbrev pub returns_data : T × Bool → Answer T
  returns_data (x, b) = record { status = b; data_ = some x }

  abbrev pub popped : T → List T → T × Bool
  popped x [] = (x, false)
  popped x (y ∷ _) = (y, true)

  -- What is promised of each call.
  abbrev pub promised : Call T → Contents T → Contents T × Answer T
  promised (calls_push x) s =
      if ltb (length s.items) s.limit
      then (record s { items = s.items ++ x ∷ [] }, returns true)
      else (s, returns false)
  promised (calls_pop x) s =
      (record s { items = without_first s.items }, returns_data (popped x s.items))
  promised (calls_bounded_push x) s =
      if ltb (length s.items) s.limit
      then (record s { items = s.items ++ x ∷ [] }, returns true)
      else if s.limit == 0
      then (s, returns false)
      else (record s { items = without_first s.items ++ x ∷ [] }, returns true)
  promised (calls_get_latest x) s =
      (record s { items = [] }, returns_data (last_of x s.items, not (length s.items == 0)))
  promised calls_empty s = (s, returns (length s.items == 0))

  -- No more elements than there is room for.
  abbrev pub Fits : Contents T → Type 0
  Fits s = length s.items ≤ s.limit

  pub length-add : (xs : List T) (x : T) → length (xs ++ x ∷ []) ≡ length xs + 1
  length-add [] x = refl
  length-add (y ∷ xs) x = ground (arith, length-add xs x)

  pub length-without_first :
      (xs : List T)
      → (length (without_first xs) ≡ 0) × (length xs ≡ 0)
        ⊎ (length xs ≡ length (without_first xs) + 1)
  length-without_first [] = inl (refl, refl)
  length-without_first (x ∷ xs) = inr (ground arith)

  pub promised-Fits : (k : Call T) (s : Contents T) → Fits s → Fits (promised k s).0
  promised-Fits (calls_push x) s f = ground (arith, length-add s.items x)
  promised-Fits (calls_pop x) s f = ground (arith, length-without_first s.items)
  promised-Fits (calls_bounded_push x) s f = ground (
    arith,
    length-add s.items x,
    length-add (without_first s.items) x,
    length-without_first s.items,
  )
  promised-Fits (calls_get_latest x) s f = ground arith
  promised-Fits calls_empty s f = f

  abbrev pub all_promised : List (Call T) → Contents T → List (Answer T)
  all_promised [] s = []
  all_promised (k ∷ ks) s = let (s', a) = promised k s in a ∷ all_promised ks s'

  module _ (c : Container T) (doc : Documented c) where
    open doc use {contents}

    -- The elements of the queue, and the limit of its container.
    abbrev pub fifo : LockFreeQueue c.Queue → Contents T
    fifo q = contents q.data_queue

    -- What the queue does.
    abbrev pub done : Call T → LockFreeQueue c.Queue → LockFreeQueue c.Queue × Answer T
    done (calls_push x) q = let (r, b) = push c x q in (r, returns b)
    done (calls_pop x) q = let (r, y, b) = pop c x q in (r, returns_data (y, b))
    done (calls_bounded_push x) q = let (r, b) = bounded_push c x q in (r, returns b)
    done (calls_get_latest x) q = let (r, y, b) = get_latest c x q in (r, returns_data (y, b))
    done calls_empty q = (q, returns (empty c q))

    push-adds-if :
        (b : Bool) (x : T) (q : LockFreeQueue c.Queue)
        → is_spsc_queue c.kind ≡ b
        → (fifo (push c x q).0 ≡ (add x (fifo q)).0) × ((push c x q).1 ≡ (add x (fifo q)).1)
    unfolding push
    push-adds-if true x q e = ground (arith, doc.push_adds e x q.data_queue)
    push-adds-if false x q e = ground (arith, doc.bounded_push_adds e x q.data_queue)

    -- Whichever container it is, `push` adds the element if there is room.
    pub push-adds :
        (x : T) (q : LockFreeQueue c.Queue)
        → (fifo (push c x q).0 ≡ (add x (fifo q)).0) × ((push c x q).1 ≡ (add x (fifo q)).1)
    push-adds x q = push-adds-if (is_spsc_queue c.kind) x q refl

    pop-popped :
        (x : T) (q : LockFreeQueue c.Queue)
        → (fifo (pop c x q).0 ≡ record (fifo q) { items = without_first (fifo q).items })
          × (((pop c x q).1, (pop c x q).2) ≡ popped x (fifo q).items)
    unfolding pop
    pop-popped x q = ground (arith, doc.pop_takes q.data_queue)

    empty-if :
        (b : Bool) (q : LockFreeQueue c.Queue)
        → is_spsc_queue c.kind ≡ b
        → empty c q ≡ (length (fifo q).items == 0)
    unfolding empty
    empty-if true q e = ground (arith, doc.read_available_counts e q.data_queue)
    empty-if false q e = ground (arith, doc.empty_tests e q.data_queue)

    pub empty-length : (q : LockFreeQueue c.Queue) → empty c q ≡ (length (fifo q).items == 0)
    empty-length q = empty-if (is_spsc_queue c.kind) q refl

    pub done-promised :
        (k : Call T) (q : LockFreeQueue c.Queue)
        → Fits (fifo q)
        → ((promised k (fifo q)).0 ≡ fifo (done k q).0) × ((promised k (fifo q)).1 ≡ (done k q).1)
    unfolding bounded_push get_latest
    done-promised (calls_push x) q f = ground (arith, push-adds x q)
    done-promised (calls_pop x) q f = ground (arith, pop-popped x q)
    done-promised (calls_bounded_push x) q f =
        let r = (push c x q).0 in
        ground (
          arith,
          push-adds x q,
          doc.pop_takes r.data_queue,
          push-adds x (record r { data_queue = (c.pop r.data_queue).0 }),
          length-without_first (fifo q).items,
        )
    done-promised (calls_get_latest x) q f = ground (arith, doc.consume_all_takes q.data_queue)
    done-promised calls_empty q f = ground (arith, empty-length q)

    abbrev pub all_done : List (Call T) → LockFreeQueue c.Queue → List (Answer T)
    all_done [] q = []
    all_done (k ∷ ks) q = let (r, a) = done k q in a ∷ all_done ks r

    done-Fits : (k : Call T) (q : LockFreeQueue c.Queue) → Fits (fifo q) → Fits (fifo (done k q).0)
    done-Fits k q f = ground (arith, promised-Fits k (fifo q) f, done-promised k q f)

    -- Over a container that does what boost documents, single-producer or not, any row of calls that
    -- do not overlap returns what the row of elements with a limit promises: first in, first out,
    -- `push` fails only when it is full, `bounded_push` gives up the oldest element for the newest,
    -- and fails only for the limit 0, `get_latest` leaves the newest element, if there is one, and an
    -- empty queue.
    pub queue_is_fifo :
        (ks : List (Call T)) (q : LockFreeQueue c.Queue)
        → Fits (fifo q)
        → all_done ks q ≡ all_promised ks (fifo q)
    queue_is_fifo [] q f = refl
    queue_is_fifo (k ∷ ks) q f =
        ground (arith, done-promised k q f, queue_is_fifo ks (done k q).0 (done-Fits k q f))
