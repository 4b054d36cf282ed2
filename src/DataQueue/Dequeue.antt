-- ===== src/DataQueue/Dequeue.antt =====
-- The reader of IODataQueueClient.c: `IODataQueuePeek` and `IODataQueueDequeue` find the first entry.
use mathlib.Core.Path.{subst}
use iokit_user.Prelude.Memory.{load_word}
use iokit_user.Prelude.{
  sym, refl, ◌++◌, [], inr, inl, true, ◌∷◌, arith, ◌≢◌, false, length, ◌≤◌, ◌≡◌, ◌^◌, ◌+◌,
  if◌then◌else◌, ◌==◌, ◌<◌, ℕ, List,
}
use iokit_user.DataQueue.{wraps_around, Queue}
use iokit_user.DataQueue.Contents
use iokit_user.DataQueue.Contents.{EntryAt}

module _ (header_size : ℕ) where
  abbrev pub entry_offset : Queue → ℕ
  entry_offset q = if wraps_around header_size q then 0 else q.head

  -- The first entry stands where the reader looks for it, and what is behind it stays in the queue.
  pub record First (q : Queue) (d : List ℕ) (ds : List (List ℕ)) : Type 0 where
    pub not_empty : (q.head == q.tail) ≡ false
    pub entry : EntryAt header_size q.memory (entry_offset q) d
    pub inside : entry_offset q + header_size + length d ≤ q.queue_size
    pub rest :
        Contents.Holds header_size (record q { head = entry_offset q + header_size + length d }) ds

  reads_at_head :
      (q : Queue) (d : List ℕ)
      → q.queue_size + header_size < 2 ^ 32
      → EntryAt header_size q.memory q.head d
      → q.head + header_size + length d ≤ q.queue_size
      → wraps_around header_size q ≡ false
  unfolding wraps_around
  reads_at_head q d sized e h =
      let size : load_word q.memory q.head ≡ length d = e.0 in rw size (ground arith)

  reads_at_start :
      (q : Queue)
      → q.queue_size + header_size < 2 ^ 32
      → q.head ≤ q.queue_size
      → Contents.Marked header_size q q.head
      → wraps_around header_size q ≡ true
  unfolding wraps_around
  reads_at_start q sized h (inl m) = ground arith
  reads_at_start q sized h (inr m) = ground arith

  at_head-First :
      (q : Queue) (d : List ℕ) (ds : List (List ℕ))
      → q.queue_size + header_size < 2 ^ 32
      → q.head ≢ q.tail
      → EntryAt header_size q.memory q.head d
      → q.head + header_size + length d ≤ q.queue_size
      → Contents.Holds header_size (record q { head = q.head + header_size + length d }) ds
      → First q d ds
  at_head-First q d ds sized ne e h r =
      let here : wraps_around header_size q ≡ false = reads_at_head q d sized e h in
      record {
        not_empty = ground arith;
        entry = rw here (e.0, e.1);
        inside = rw here h;
        rest = rw here r;
      }

  linear-First :
      (q : Queue) (d : List ℕ) (ds : List (List ℕ))
      → 0 < header_size
      → q.queue_size + header_size < 2 ^ 32
      → q.tail ≤ q.queue_size
      → Contents.Segment header_size q.memory q.head q.tail (d ∷ ds)
      → First q d ds
  linear-First q d ds g sized inside s =
      let le : q.head + header_size + length d ≤ q.tail =
        Contents.Segment-le header_size _ _ _ ds s.2 in
      at_head-First q d ds sized (omega arith) s.0 (omega arith) (Contents.linear le inside s.2)

  -- The part before the wrap still has an entry.
  front-First :
      (q : Queue) (d : List ℕ) (ds front back : List (List ℕ)) (e : ℕ)
      → q.queue_size + header_size < 2 ^ 32
      → ds ≡ front ++ back
      → back ≢ []
      → q.tail < q.head
      → e ≤ q.queue_size
      → Contents.Segment header_size q.memory q.head e (d ∷ front)
      → Contents.Segment header_size q.memory 0 q.tail back
      → Contents.Marked header_size q e
      → First q d ds
  front-First q d ds front back e sized eq ne lt es sf sb mk =
      let le : q.head + header_size + length d ≤ e =
        Contents.Segment-le header_size _ _ _ front sf.2 in
      at_head-First q d ds sized (omega arith) sf.0 (omega arith)
        (Contents.wrapped e front back eq ne (omega arith) le es sf.2 sb mk)

  -- Only the part at the start is left.
  back-First :
      (q : Queue) (d : List ℕ) (ds : List (List ℕ))
      → q.queue_size + header_size < 2 ^ 32
      → q.tail < q.head
      → q.head ≤ q.queue_size
      → Contents.Segment header_size q.memory 0 q.tail (d ∷ ds)
      → Contents.Marked header_size q q.head
      → First q d ds
  back-First q d ds sized lt es sb mk =
      let there : wraps_around header_size q ≡ true = reads_at_start q sized es mk in
      let le : 0 + header_size + length d ≤ q.tail =
        Contents.Segment-le header_size _ _ _ ds sb.2 in
      record {
        not_empty = ground arith;
        entry = rw there (sb.0.0, sb.0.1);
        inside = rw there (omega arith);
        rest = rw there (Contents.linear le (omega arith) sb.2);
      }

  pub Holds-First :
      (q : Queue) (d : List ℕ) (ds : List (List ℕ))
      → 0 < header_size
      → q.queue_size + header_size < 2 ^ 32
      → Contents.Holds header_size q (d ∷ ds)
      → First q d ds
  Holds-First q d ds g sized (Contents.linear le inside s) = linear-First q d ds g sized inside s
  Holds-First q d ds g sized (Contents.wrapped e (x ∷ front) back eq ne lt he es sf sb mk) =
      let same_entry : d ≡ x = cc in
      rw same_entry (front-First q x ds front back e sized (cc) ne lt es sf sb mk)
  Holds-First q d ds g sized (Contents.wrapped e [] [] eq ne lt he es sf sb mk) = absurd (ne refl)
  Holds-First q d ds g sized (Contents.wrapped e [] (x ∷ back) eq ne lt he es sf sb mk) =
      let same_entry : d ≡ x = cc in
      let others : ds ≡ back = cc in
      rw (same_entry, others)
        (back-First q x back sized lt (omega arith) sb
          (subst (Contents.Marked header_size q) (sym sf) mk))

  -- An empty queue has its head at its tail.
  pub Holds-nil : (q : Queue) → Contents.Holds header_size q [] → q.head ≡ q.tail
  Holds-nil q (Contents.linear le inside s) = s
  Holds-nil q (Contents.wrapped e [] [] eq ne lt he es sf sb mk) = absurd (ne refl)
  Holds-nil q (Contents.wrapped e [] (x ∷ back) eq ne lt he es sf sb mk) = cc
  Holds-nil q (Contents.wrapped e (x ∷ front) back eq ne lt he es sf sb mk) = cc
