-- ===== src/DataQueue/Fifo.antt =====
-- The operations of IODataQueueClient.c implement a first-in first-out queue of byte strings.
use iokit_user.Prelude.{
  ◌∙◌, sym, ◌↔◌, zero, Option-cases, ◌==◌, suc, ◌++◌, ◌⊎◌, ◌≢◌, ◌≤◌, arith, refl, true, false, inr,
  ap, [], inl, if◌then◌else◌, leb, Bool-cases, some, ◌^◌, length, ◌+◌, none, ◌∷◌, ◌≡◌, ◌<◌, Option,
  Bool, ℕ, List,
}
use iokit_user.DataQueue.{
  put_at_start, put_at_tail, placed, overrun, send_notification, peek, wrap, data_available,
  enqueue, finish_enqueue, of_kern, wraps_around, no_space, bad_argument, success, take_entry,
  dequeue, underrun, Dequeued, IoReturn, Queue,
}
use iokit_user.DataQueue.Contents.{IsQueue, EntryAt}
use iokit_user.DataQueue.Enqueue.{placed-IsQueue}
use iokit_user.DataQueue.Dequeue.{entry_offset, First, Holds-First, Holds-nil}

-- What a call of dequeue does to a list of byte strings.
pub record Popped : Type 0 where
  pub result : IoReturn
  pub contents : List (List ℕ)
  pub copied : Option (List ℕ)
  pub data_size : Option ℕ

-- The specification: an empty list is an underrun; without `data` the first string is dropped;
-- with `data` it is copied if `*dataSize` has room for it, and otherwise stays. Its size is reported
-- whenever there is a `dataSize`.
abbrev pub pop : List (List ℕ) → Bool → Option ℕ → Popped
pop [] has_data size = record { result = underrun; contents = []; copied = none; data_size = size }
pop (d ∷ ds) false size = record {
  result = success;
  contents = ds;
  copied = none;
  data_size = elim size [ none ↦ none | some n ↦ some (length d) ];
}
pop (d ∷ ds) true none = record {
  result = bad_argument;
  contents = d ∷ ds;
  copied = none;
  data_size = none;
}
pop (d ∷ ds) true (some n) =
    if leb (length d) n
    then record { result = success; contents = ds; copied = some d; data_size = some (length d) }
    else record { result = no_space; contents = d ∷ ds; copied = none; data_size = some (length d) }

-- A call does to the queue what the specification does to its contents.
pub record Agrees (header_size : ℕ) (r : Dequeued) (p : Popped) : Type 0 where
  pub result : r.result ≡ p.result
  pub contents : IsQueue header_size r.queue p.contents
  pub copied : r.copied ≡ p.copied
  pub data_size : r.data_size ≡ p.data_size

module _ (header_size : ℕ) (positive : 0 < header_size) (q : Queue) where
  dequeue-take_entry :
      (d : List ℕ) (ds : List (List ℕ)) (has_data : Bool) (size : Option ℕ)
      → q.queue_size + header_size < 2 ^ 32
      → First header_size q d ds
      → dequeue header_size q has_data size
        ≡ take_entry header_size q
            (entry_offset header_size q)
            (length d)
            (entry_offset header_size q + header_size + length d)
            has_data
            size
  unfolding dequeue
  dequeue-take_entry d ds has_data size sized f = elim (Bool-cases (wraps_around header_size q)) [
    | inl e ↦
        let size_there = rw e at (f.entry.0) in
        let inside = rw e at (f.inside) in
        let next : wrap (length d + header_size) ≡ 0 + header_size + length d = omega arith in
        rw (f.not_empty, e, size_there, next)
    | inr e ↦
        let size_there = rw e at (f.entry.0) in
        let inside = rw e at (f.inside) in
        let next : wrap (wrap (q.head + length d) + header_size) ≡ q.head + header_size + length d =
          omega arith in
        rw (f.not_empty, e, size_there, next)
  ]

  take_entry-Agrees :
      (d : List ℕ) (ds : List (List ℕ)) (has_data : Bool) (size : Option ℕ)
      → IsQueue header_size q (d ∷ ds)
      → First header_size q d ds
      → Agrees header_size
          (take_entry header_size q
            (entry_offset header_size q)
            (length d)
            (entry_offset header_size q + header_size + length d)
            has_data
            size)
          (pop (d ∷ ds) has_data size)
  unfolding take_entry
  take_entry-Agrees d ds false size w f = record {
    result = refl;
    contents = record { sized = w.sized; backed = w.backed; holds = f.rest };
    copied = refl;
    data_size = refl;
  }
  take_entry-Agrees d ds true none w f = record {
    result = refl;
    contents = w;
    copied = refl;
    data_size = refl;
  }
  take_entry-Agrees d ds true (some n) w f = elim (Bool-cases (leb (length d) n)) [
    | inl e ↦ rw e (record {
      result = refl;
      contents = record { sized = w.sized; backed = w.backed; holds = f.rest };
      copied = ap some f.entry.1;
      data_size = refl;
    })
    | inr e ↦ rw e (record { result = refl; contents = w; copied = refl; data_size = refl })
  ]

  dequeue_empty :
      (has_data : Bool) (size : Option ℕ)
      → q.head ≡ q.tail
      → dequeue header_size q has_data size
        ≡ record { result = underrun; queue = q; copied = none; data_size = size }
  unfolding dequeue
  dequeue_empty has_data size e = ground arith

-- Dequeuing from a queue does to its contents what the specification does, on every branch: with and
-- without a place for the data, with and without a size, and on an empty queue.
pub dequeue-pop :
    (header_size : ℕ) (q : Queue) (ds : List (List ℕ)) (has_data : Bool) (size : Option ℕ)
    → 0 < header_size
    → IsQueue header_size q ds
    → Agrees header_size (dequeue header_size q has_data size) (pop ds has_data size)
dequeue-pop h q [] has_data size g w =
    rw (dequeue_empty h g q has_data size (Holds-nil h q w.holds))
      (record { result = refl; contents = w; copied = refl; data_size = refl })
dequeue-pop h q (d ∷ ds) has_data size g w =
    let f : First h q d ds = Holds-First h q d ds g w.sized w.holds in
    rw (dequeue-take_entry h g q d ds has_data size w.sized f)
      (take_entry-Agrees h g q d ds has_data size w f)

-- Data is available exactly if the queue holds an entry, and peek then gives the offset at which the
-- first entry stands.
pub peek-IsQueue :
    (header_size : ℕ) (q : Queue) (ds : List (List ℕ))
    → 0 < header_size
    → IsQueue header_size q ds
    → ((ds ≡ []) × (data_available (some q) ≡ false) × (peek header_size (some q) ≡ none))
      ⊎ ((d : List ℕ) × (rest : List (List ℕ)) × (a : ℕ) × (ds ≡ d ∷ rest)
          × (data_available (some q) ≡ true)
          × (peek header_size (some q) ≡ some a)
          × EntryAt header_size q.memory a d
          × (a + header_size + length d ≤ q.queue_size))
unfolding data_available peek
peek-IsQueue h q [] g w =
    let e : (q.head == q.tail) ≡ true = ground (arith, Holds-nil h q w.holds) in
    inl (refl, rw e, rw e)
peek-IsQueue h q (d ∷ ds) g w =
    let f : First h q d ds = Holds-First h q d ds g w.sized w.holds in
    inr (d, ds, entry_offset h q, refl, rw f.not_empty, rw f.not_empty, f.entry, f.inside)

of_kern-ne-overrun : (k : ℕ) → of_kern k ≢ overrun
of_kern-ne-overrun zero e = cc
of_kern-ne-overrun (suc k) e = cc

finish-ne-overrun : (m : ℕ → ℕ) (q q' : Queue) → (finish_enqueue m q (some q')).result ≢ overrun
unfolding finish_enqueue send_notification
finish-ne-overrun m q q' = ground (arith, of_kern-ne-overrun (m q'.port))

queue-finish_enqueue : (m : ℕ → ℕ) (q q' : Queue) → (finish_enqueue m q (some q')).queue ≡ q'
unfolding finish_enqueue
queue-finish_enqueue m q q' = ground arith

-- Enqueuing an entry of a size at which no sum wraps around either fails with an overrun and leaves
-- the queue as it was, or puts the entry behind the contents; then the result is success or the
-- kernel's error for the notification.
pub enqueue-IsQueue :
    (mach_send : ℕ → ℕ) (header_size : ℕ) (q : Queue) (d : List ℕ) (ds : List (List ℕ))
    → 4 ≤ header_size
    → q.queue_size + header_size + length d < 2 ^ 32
    → IsQueue header_size q ds
    → (((enqueue mach_send header_size q d).result ≡ overrun)
        × ((enqueue mach_send header_size q d).queue ≡ q))
      ⊎ (((enqueue mach_send header_size q d).result ≢ overrun)
          × IsQueue header_size (enqueue mach_send header_size q d).queue (ds ++ d ∷ []))
unfolding enqueue
enqueue-IsQueue m h q d ds g fits w = elim (Option-cases (placed h q d)) [
  | inl e ↦ rw e (inl (unfold finish_enqueue in (refl, refl)))
  | inr (q', e) ↦
      let kept : IsQueue h q' (ds ++ d ∷ []) = placed-IsQueue h q q' d ds g fits w e in
      rw e (inr (finish-ne-overrun m q q', rw (queue-finish_enqueue m q q') kept))
]

head-placed : (h : ℕ) (q q' : Queue) (d : List ℕ) → placed h q d ≡ some q' → q'.head ≡ q.head
unfolding placed put_at_tail put_at_start
head-placed h q q' d e = ground arith

notified-finish :
    (m : ℕ → ℕ) (q q' : Queue)
    → q'.head ≡ q.head
    → (finish_enqueue m q (some q')).notified ≡ (q.head == q.tail)
unfolding finish_enqueue
notified-finish m q q' e = ground arith

empty_iff :
    (h : ℕ) (q : Queue) (ds : List (List ℕ))
    → 0 < h
    → IsQueue h q ds
    → ((q.head == q.tail) ≡ true) ↔ (ds ≡ [])
empty_iff h q [] g w = ((λ e. refl), (λ e. ground (arith, Holds-nil h q w.holds)))
empty_iff h q (d ∷ ds) g w =
    let f : First h q d ds = Holds-First h q d ds g w.sized w.holds in
    ((λ e. cc (f.not_empty)), (λ e. cc))

notified-nil :
    (m : ℕ → ℕ) (h : ℕ) (q q' : Queue) (d : List ℕ) (ds : List (List ℕ))
    → 0 < h
    → IsQueue h q ds
    → placed h q d ≡ some q'
    → ((finish_enqueue m q (some q')).notified ≡ true) ↔ ((some q' ≡ none) ⊎ (ds ≡ []))
notified-nil m h q q' d ds g w e =
    let n = notified-finish m q q' (head-placed h q q' d e) in
    let nil = empty_iff h q ds g w in
    ((λ t. inr (nil.0 (sym n ∙ t))), elim [ inl x ↦ cc | inr x ↦ n ∙ nil.1 x ])

-- The kernel is notified of an entry that is placed exactly if the queue was empty, and of every
-- overrun.
pub notified-enqueue :
    (mach_send : ℕ → ℕ) (header_size : ℕ) (q : Queue) (d : List ℕ) (ds : List (List ℕ))
    → 0 < header_size
    → IsQueue header_size q ds
    → ((enqueue mach_send header_size q d).notified ≡ true)
      ↔ ((placed header_size q d ≡ none) ⊎ (ds ≡ []))
unfolding enqueue
notified-enqueue m h q d ds g w = elim (Option-cases (placed h q d)) [
  | inl e ↦ rw e (unfold finish_enqueue in ((λ n. inl refl), (λ n. refl)))
  | inr (q', e) ↦ rw e (notified-nil m h q q' d ds g w e)
]
