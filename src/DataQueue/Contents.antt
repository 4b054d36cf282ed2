-- ===== src/DataQueue/Contents.antt =====
-- Which entries a queue of IODataQueueClient.c holds, from its head to its tail.
use iokit_user.DataQueue.{read, store, length, Queue}
use iokit_user.Prelude.Memory.{
  read-store_after, read-store_before, load_word-store_after, load_word-store_before, load_word,
}
use iokit_user.Prelude.{◌∙◌, refl, ◌^◌, ◌≢◌, ◌⊎◌, [], ◌++◌, ◌<◌, arith, ◌∷◌, ◌≤◌, ◌+◌, ◌≡◌, ℕ, List}

module _ (header_size : ℕ) where
  -- An entry with its size and its data stands at an offset.
  abbrev pub EntryAt : List ℕ → ℕ → List ℕ → Type 0
  EntryAt m a d = (load_word m a ≡ length d) × (read m (a + header_size) (length d) ≡ d)

  -- Entries stand one behind another between two offsets.
  abbrev pub Segment : List ℕ → ℕ → ℕ → List (List ℕ) → Type 0
  Segment m a b [] = a ≡ b
  Segment m a b (d ∷ ds) =
      EntryAt m a d × (a + header_size + length d ≤ b) × Segment m (a + header_size + length d) b ds

  -- The reader sees at `e` that the next entry is at the start of the queue.
  abbrev pub Marked : Queue → ℕ → Type 0
  Marked q e =
      (q.queue_size < e + header_size)
      ⊎ ((q.queue_size < e + load_word q.memory e + header_size)
          × (e + load_word q.memory e + header_size < 2 ^ 32))

  -- The entries lie in one run, or run up to `e` and go on at the start of the queue.
  pub data Holds (q : Queue) (ds : List (List ℕ)) : Type 0 where
    linear :
        q.head ≤ q.tail → q.tail ≤ q.queue_size → Segment q.memory q.head q.tail ds → Holds q ds
    wrapped :
        (e : ℕ) (front back : List (List ℕ))
        → ds ≡ front ++ back
        → back ≢ []
        → q.tail < q.head
        → q.head ≤ e
        → e ≤ q.queue_size
        → Segment q.memory q.head e front
        → Segment q.memory 0 q.tail back
        → Marked q e
        → Holds q ds

  -- The queue's size is a UInt32 to which the header can be added, and its memory is there.
  pub record IsQueue (q : Queue) (ds : List (List ℕ)) : Type 0 where
    pub sized : q.queue_size + header_size < 2 ^ 32
    pub backed : q.queue_size ≤ length q.memory
    pub holds : Holds q ds

  pub Segment-le : (m : List ℕ) (a b : ℕ) (ds : List (List ℕ)) → Segment m a b ds → a ≤ b
  Segment-le m a b [] h = omega arith
  Segment-le m a b (d ∷ ds) h = omega arith

  -- A write behind a segment, or in front of it, leaves it alone.
  pub Segment-store_before :
      (m bs : List ℕ) (i a b : ℕ) (ds : List (List ℕ))
      → 4 ≤ header_size
      → b ≤ i
      → Segment m a b ds
      → Segment (store m i bs) a b ds
  Segment-store_before m bs i a b [] g h s = s
  Segment-store_before m bs i a b (d ∷ ds) g h s = (
    (
      load_word-store_before m i a bs (omega arith) ∙ s.0.0,
      read-store_before m i (a + header_size) (length d) bs (omega arith) ∙ s.0.1,
    ),
    s.1,
    Segment-store_before m bs i (a + header_size + length d) b ds g h s.2,
  )

  pub Segment-store_after :
      (m bs : List ℕ) (i a b : ℕ) (ds : List (List ℕ))
      → i + length bs ≤ a
      → Segment m a b ds
      → Segment (store m i bs) a b ds
  Segment-store_after m bs i a b [] h s = s
  Segment-store_after m bs i a b (d ∷ ds) h s = (
    (
      load_word-store_after m i a bs h ∙ s.0.0,
      read-store_after m i (a + header_size) (length d) bs (omega arith) ∙ s.0.1,
    ),
    s.1,
    Segment-store_after m bs i (a + header_size + length d) b ds (omega arith) s.2,
  )

  pub Segment-append :
      (m d : List ℕ) (a b : ℕ) (ds : List (List ℕ))
      → Segment m a b ds
      → EntryAt m b d
      → Segment m a (b + header_size + length d) (ds ++ d ∷ [])
  Segment-append m d a b [] s e = rw s ((e.0, e.1), omega arith, refl)
  Segment-append m d a b (x ∷ ds) s e =
      (s.0, omega arith, Segment-append m d (a + header_size + length x) b ds s.2 e)
