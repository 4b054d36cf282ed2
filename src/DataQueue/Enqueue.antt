-- ===== src/DataQueue/Enqueue.antt =====
-- `IODataQueueEnqueue` of IODataQueueClient.c adds its entry at the end of the contents.
use mathlib.Core.List.{concat-ne-nil}
use iokit_user.Prelude.Memory.{
  load_word-store_after, read-store_self, store, load_word, word_bytes, read-store_after,
  length-store, load_word-store_self,
}
use iokit_user.Prelude.{
  leb, refl, inr, Bool-cases, ◌-◌, inl, append_assoc, [], ◌⊎◌, some, ◌∷◌, ◌++◌, length, ℕ, ◌∙◌,
  arith, ◌≡◌, ◌+◌, ◌^◌, ◌<◌, ◌≤◌, List,
}
use iokit_user.DataQueue.{put_at_start, wrap, entry_size_of, put_at_tail, placed, put_entry, Queue}
use iokit_user.DataQueue.Contents
use iokit_user.DataQueue.Contents.{EntryAt, Segment}

module _ (header_size : ℕ) (room : 4 ≤ header_size) where
  -- An entry that was put where there is memory for it stands there.
  put_entry-EntryAt :
      (m d : List ℕ) (a : ℕ)
      → a + header_size + length d ≤ length m
      → length d < 2 ^ 32
      → EntryAt header_size (put_entry header_size m a d) a d
  unfolding put_entry
  put_entry-EntryAt m d a h b = (
    load_word-store_self (store m (a + header_size) d) a (length d)
        (omega (arith, length-store m (a + header_size) d)) b,
    read-store_after (store m (a + header_size) d) a (a + header_size) (length d)
          (word_bytes (length d)) (unfold word_bytes in omega arith)
        ∙ read-store_self m (a + header_size) d (omega arith),
  )

  put_entry-Segment_before :
      (m d : List ℕ) (i a b : ℕ) (ds : List (List ℕ))
      → b ≤ i
      → Segment header_size m a b ds
      → Segment header_size (put_entry header_size m i d) a b ds
  unfolding put_entry
  put_entry-Segment_before m d i a b ds h s =
      Contents.Segment-store_before header_size _ (word_bytes (length d)) i a b ds room h (
        Contents.Segment-store_before header_size m d (i + header_size) a b ds room (omega arith) s)

  put_entry-Segment_after :
      (m d : List ℕ) (i a b : ℕ) (ds : List (List ℕ))
      → i + header_size + length d ≤ a
      → Segment header_size m a b ds
      → Segment header_size (put_entry header_size m i d) a b ds
  unfolding put_entry word_bytes
  put_entry-Segment_after m d i a b ds h s =
      Contents.Segment-store_after header_size _ (word_bytes (length d)) i a b ds (omega arith)
        (Contents.Segment-store_after header_size m d (i + header_size) a b ds (omega arith) s)

  length-put_entry : (m d : List ℕ) (i : ℕ) → length (put_entry header_size m i d) ≡ length m
  unfolding put_entry
  length-put_entry m d i = length-store _ i _ ∙ length-store m (i + header_size) d

  put_entry-load_word :
      (m d : List ℕ) (i e : ℕ)
      → i + header_size + length d ≤ e
      → load_word (put_entry header_size m i d) e ≡ load_word m e
  unfolding put_entry word_bytes
  put_entry-load_word m d i e h =
      load_word-store_after _ i e (word_bytes (length d)) (omega arith)
      ∙ load_word-store_after m (i + header_size) e d (omega arith)

  -- With sizes that do not wrap around, the tail moves by the entry's size.
  module _ (q : Queue) (d : List ℕ) (fits : q.queue_size + header_size + length d < 2 ^ 32) where
    abbrev at_tail : Queue
    at_tail = record q {
      memory = put_entry header_size q.memory q.tail d;
      tail = q.tail + header_size + length d;
    }

    entry_size_of_lem : entry_size_of header_size d ≡ length d + header_size
    unfolding entry_size_of
    entry_size_of_lem = omega arith

    put_at_tail-eq :
        q.tail + header_size + length d < 2 ^ 32 → put_at_tail header_size q d ≡ at_tail
    unfolding put_at_tail
    put_at_tail-eq h =
        let e : wrap (q.tail + (length d + header_size)) ≡ q.tail + header_size + length d =
          omega arith in
        rw (entry_size_of_lem, e)

    -- Which way the entry was placed.
    placed-cases :
        (q' : Queue)
        → q.tail ≤ q.queue_size
        → placed header_size q d ≡ some q'
        → ((q.head ≤ q.tail)
            × (q.tail + header_size + length d ≤ q.queue_size)
            × (q' ≡ put_at_tail header_size q d))
          ⊎ ((q.head ≤ q.tail)
              × (q.queue_size < q.tail + header_size + length d)
              × (header_size + length d < q.head)
              × (q' ≡ put_at_start header_size q d))
          ⊎ ((q.tail < q.head)
              × (q.tail + header_size + length d < q.head)
              × (q' ≡ put_at_tail header_size q d))
    unfolding placed
    placed-cases q' b h = ground (arith, entry_size_of_lem)

    placed_linear :
        (ds : List (List ℕ))
        → q.queue_size ≤ length q.memory
        → q.head ≤ q.tail
        → q.tail + header_size + length d ≤ q.queue_size
        → Segment header_size q.memory q.head q.tail ds
        → Contents.Holds header_size at_tail (ds ++ d ∷ [])
    placed_linear ds m le h s = Contents.linear (omega arith) h (
        Contents.Segment-append header_size _ d q.head q.tail ds
          (put_entry-Segment_before q.memory d q.tail q.head q.tail ds (omega arith) s)
          (put_entry-EntryAt q.memory d q.tail (omega arith) (omega arith)))

    placed_wrapped :
        (e : ℕ) (front back : List (List ℕ))
        → q.queue_size ≤ length q.memory
        → q.tail + header_size + length d < q.head
        → q.head ≤ e
        → e ≤ q.queue_size
        → Segment header_size q.memory q.head e front
        → Segment header_size q.memory 0 q.tail back
        → Contents.Marked header_size q e
        → Contents.Holds header_size at_tail ((front ++ back) ++ d ∷ [])
    placed_wrapped e front back m h he es sf sb mk =
        Contents.wrapped e front (back ++ d ∷ []) (append_assoc front back (d ∷ []))
          (concat-ne-nil d back) h he es
          (put_entry-Segment_after q.memory d q.tail q.head e front (omega arith) sf)
          (Contents.Segment-append header_size _ d 0 q.tail back
            (put_entry-Segment_before q.memory d q.tail 0 q.tail back (omega arith) sb)
            (put_entry-EntryAt q.memory d q.tail (omega arith) (omega arith)))
          (omega (arith, put_entry-load_word q.memory d q.tail e (omega arith)))

    abbrev at_start : List ℕ → Queue
    at_start m = record q { memory = m; tail = length d + header_size }

    put_at_start-eq :
        q.tail ≤ q.queue_size
        → ((header_size ≤ q.queue_size - q.tail)
            × (put_at_start header_size q d
                ≡ at_start
                    (store (put_entry header_size q.memory 0 d) q.tail (word_bytes (length d)))))
          ⊎ ((q.queue_size < q.tail + header_size)
              × (put_at_start header_size q d ≡ at_start (put_entry header_size q.memory 0 d)))
    unfolding put_at_start
    put_at_start-eq h =
        elim (Bool-cases (leb header_size (wrap (q.queue_size + 2 ^ 32 - q.tail)))) [
          | inl e ↦ inl (ground arith, rw (entry_size_of_lem, e))
          | inr e ↦ inr (ground arith, rw (entry_size_of_lem, e))
        ]

    module _ (ds : List (List ℕ)) (backed : q.queue_size ≤ length q.memory) (le : q.head ≤ q.tail)
        (inside : q.tail ≤ q.queue_size) (full : q.queue_size < q.tail + header_size + length d)
        (free : header_size + length d < q.head)
        (s : Segment header_size q.memory q.head q.tail ds) where
      first_entry :
          Segment header_size
            (put_entry header_size q.memory 0 d)
            0
            (length d + header_size)
            (d ∷ [])
      first_entry =
          (put_entry-EntryAt q.memory d 0 (omega arith) (omega arith), omega arith, omega arith)

      others : Segment header_size (put_entry header_size q.memory 0 d) q.head q.tail ds
      others = put_entry-Segment_after q.memory d 0 q.head q.tail ds (omega arith) s

      placed_start : Contents.Holds header_size (put_at_start header_size q d) (ds ++ d ∷ [])
      placed_start = elim (put_at_start-eq inside) [
        | inl (r, e) ↦ rw e (
            Contents.wrapped q.tail ds (d ∷ []) refl (concat-ne-nil d []) (omega arith) le inside
              (Contents.Segment-store_before header_size _ _ q.tail q.head q.tail ds room
                (omega arith) others)
              (Contents.Segment-store_before header_size _ _ q.tail 0 _ (d ∷ []) room (omega arith)
                first_entry)
              (inr (
                omega (
                  arith,
                  load_word-store_self (put_entry header_size q.memory 0 d) q.tail (length d)
                      (omega (arith, length-put_entry q.memory d 0)) (omega arith),
                ))))
        | inr (r, e) ↦ rw e (
            Contents.wrapped q.tail ds (d ∷ []) refl (concat-ne-nil d []) (omega arith) le inside
              others first_entry (inl r))
      ]

tail-le-size :
    (header_size : ℕ) (q : Queue) (ds : List (List ℕ))
    → Contents.Holds header_size q ds
    → q.tail ≤ q.queue_size
tail-le-size header_size q ds (Contents.linear le inside s) = inside
tail-le-size header_size q ds (Contents.wrapped e front back eq ne lt he es sf sb mk) = omega arith

module _ (header_size : ℕ) (room : 4 ≤ header_size) (q : Queue) (d : List ℕ)
    (fits : q.queue_size + header_size + length d < 2 ^ 32)
    (backed : q.queue_size ≤ length q.memory) where
  at_tail-Holds :
      (ds : List (List ℕ))
      → Contents.Holds header_size q ds
      → ((q.head ≤ q.tail) × (q.tail + header_size + length d ≤ q.queue_size))
        ⊎ ((q.tail < q.head) × (q.tail + header_size + length d < q.head))
      → Contents.Holds header_size (put_at_tail header_size q d) (ds ++ d ∷ [])
  at_tail-Holds ds (Contents.linear le inside s) c =
      rw (put_at_tail-eq header_size room q d fits (omega arith))
        (placed_linear header_size room q d fits ds backed le (omega arith) s)
  at_tail-Holds ds (Contents.wrapped e front back eq ne lt he es sf sb mk) c =
      rw (put_at_tail-eq header_size room q d fits (omega arith), eq)
        (placed_wrapped header_size room q d fits e front back backed (omega arith) he es sf sb mk)

  at_start-Holds :
      (ds : List (List ℕ))
      → Contents.Holds header_size q ds
      → q.head ≤ q.tail
      → q.queue_size < q.tail + header_size + length d
      → header_size + length d < q.head
      → Contents.Holds header_size (put_at_start header_size q d) (ds ++ d ∷ [])
  at_start-Holds ds (Contents.linear le inside s) l full free =
      placed_start header_size room q d fits ds backed le inside full free s
  at_start-Holds ds (Contents.wrapped e front back eq ne lt he es sf sb mk) l full free =
      absurd (omega arith)

  length-put_at_start : length (put_at_start header_size q d).memory ≡ length q.memory
  unfolding put_at_start
  length-put_at_start = ground (
    arith,
    length-put_entry header_size room q.memory d 0,
    length-store (put_entry header_size q.memory 0 d) q.tail (word_bytes (length d)),
  )

  length-put_at_tail : length (put_at_tail header_size q d).memory ≡ length q.memory
  unfolding put_at_tail
  length-put_at_tail = length-put_entry header_size room q.memory d q.tail

  queue_size-put :
      ((put_at_tail header_size q d).queue_size ≡ q.queue_size)
      × ((put_at_start header_size q d).queue_size ≡ q.queue_size)
  unfolding put_at_tail put_at_start
  queue_size-put = (refl, refl)

-- An entry that is placed, of a size at which no sum wraps around, comes last in the contents.
pub placed-IsQueue :
    (header_size : ℕ) (q q' : Queue) (d : List ℕ) (ds : List (List ℕ))
    → 4 ≤ header_size
    → q.queue_size + header_size + length d < 2 ^ 32
    → Contents.IsQueue header_size q ds
    → placed header_size q d ≡ some q'
    → Contents.IsQueue header_size q' (ds ++ d ∷ [])
placed-IsQueue h q q' d ds g fits w p =
    elim (placed-cases h g q d fits q' (tail-le-size h q ds w.holds) p) [
      | inl (a, b, e) ↦ rw e (at_tail (inl (a, b)))
      | inr (inl (a, b, c, e)) ↦ rw e (record {
        sized = omega (arith, size.1, w.sized);
        backed = omega (arith, size.1, length-put_at_start h g q d fits w.backed, w.backed);
        holds = at_start-Holds h g q d fits w.backed ds w.holds a b c;
      })
      | inr (inr (a, b, e)) ↦ rw e (at_tail (inr (a, b)))
    ]
  where
    size :
        ((put_at_tail h q d).queue_size ≡ q.queue_size)
        × ((put_at_start h q d).queue_size ≡ q.queue_size)
    size = queue_size-put h g q d fits w.backed

    at_tail :
        ((q.head ≤ q.tail) × (q.tail + h + length d ≤ q.queue_size))
          ⊎ ((q.tail < q.head) × (q.tail + h + length d < q.head))
        → Contents.IsQueue h (put_at_tail h q d) (ds ++ d ∷ [])
    at_tail c = record {
      sized = omega (arith, size.0, w.sized);
      backed = omega (arith, size.0, length-put_at_tail h g q d fits w.backed, w.backed);
      holds = at_tail-Holds h g q d fits w.backed ds w.holds c;
    }
