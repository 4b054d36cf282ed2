-- ===== src/DataQueue/Tests.antt =====
-- Runs of the queue of IODataQueueClient.c with a header of four bytes, and the theorems at them.
use iokit_user.Prelude.Memory.{bytes_value, read, load_word, word_bytes, store}
use iokit_user.Prelude.{
  ◌≤◌, length, ◌+◌, ◌++◌, ◌≢◌, false, ◌⊎◌, none, ◌≡◌, some, true, refl, ◌∷◌, arith, replicate, List,
  ℕ, [],
}
use iokit_user.DataQueue.{
  peek, data_available, overrun, send_notification, take_entry, wraps_around, dequeue, put_entry,
  entry_size_of, put_at_tail, placed, finish_enqueue, enqueue, Queue,
}
use iokit_user.DataQueue.Contents.{IsQueue, linear, EntryAt}
use iokit_user.DataQueue.Fifo.{Agrees, pop, dequeue-pop, enqueue-IsQueue, peek-IsQueue}

abbrev empty : Queue
empty = record { queue_size = 32; head = 0; tail = 0; memory = replicate 32 0; port = 7 }

abbrev always : ℕ → ℕ
always p = 0

abbrev first : List ℕ
first = 1 ∷ 2 ∷ 3 ∷ 4 ∷ 5 ∷ 6 ∷ 7 ∷ 8 ∷ []

abbrev second : List ℕ
second = 9 ∷ 10 ∷ []

abbrev holding : Queue
holding = (enqueue always 4 (enqueue always 4 empty first).queue second).queue

empty-IsQueue : IsQueue 4 empty []
empty-IsQueue = record {
  sized = omega arith;
  backed = omega arith;
  holds = linear (omega arith) (omega arith) refl;
}

first_read : (dequeue 4 holding true (some 8)).copied ≡ some first
unfolding enqueue finish_enqueue placed put_at_tail entry_size_of put_entry store word_bytes dequeue
    wraps_around take_entry load_word read bytes_value send_notification
first_read = refl

first-IsQueue : IsQueue 4 (enqueue always 4 empty first).queue (first ∷ [])
unfolding enqueue finish_enqueue placed put_at_tail entry_size_of put_entry store word_bytes
    load_word read bytes_value
first-IsQueue = record {
  sized = omega arith;
  backed = omega arith;
  holds = linear (omega arith) (omega arith) ((refl, refl), omega arith, refl);
}

enqueue-IsQueue_example :
    (((enqueue always 4 empty first).result ≡ overrun)
      × ((enqueue always 4 empty first).queue ≡ empty))
    ⊎ (((enqueue always 4 empty first).result ≢ overrun)
        × IsQueue 4 (enqueue always 4 empty first).queue ([] ++ first ∷ []))
enqueue-IsQueue_example =
    enqueue-IsQueue always 4 empty first [] (omega arith) (omega arith) empty-IsQueue

dequeue-pop_example :
    Agrees 4
      (dequeue 4 (enqueue always 4 empty first).queue true (some 8))
      (pop (first ∷ []) true (some 8))
dequeue-pop_example =
    dequeue-pop 4 (enqueue always 4 empty first).queue (first ∷ []) true (some 8) (omega arith)
      first-IsQueue

abbrev nothing : List (List ℕ)
nothing = []

abbrev one : List (List ℕ)
one = first ∷ []

peek-IsQueue_example :
    ((one ≡ [])
      × (data_available (some (enqueue always 4 empty first).queue) ≡ false)
      × (peek 4 (some (enqueue always 4 empty first).queue) ≡ none))
    ⊎ ((d : List ℕ) × (rest : List (List ℕ)) × (a : ℕ) × (one ≡ d ∷ rest)
        × (data_available (some (enqueue always 4 empty first).queue) ≡ true)
        × (peek 4 (some (enqueue always 4 empty first).queue) ≡ some a)
        × EntryAt 4 (enqueue always 4 empty first).queue.memory a d
        × (a + 4 + length d ≤ (enqueue always 4 empty first).queue.queue_size))
peek-IsQueue_example =
    peek-IsQueue 4 (enqueue always 4 empty first).queue one (omega arith) first-IsQueue
