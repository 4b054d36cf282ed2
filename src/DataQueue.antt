-- ===== src/DataQueue.antt =====
-- IODataQueueClient.c: the queue of variable-length entries in memory shared with the kernel.
-- An entry is a UInt32 with the size of its data and, `header_size` bytes from its start, the data.
-- `header_size` (DATA_QUEUE_ENTRY_HEADER_SIZE) is declared by the system and is a parameter, as is
-- the kernel's answer when the notification message is sent. UInt32 arithmetic wraps.
pub mod Contents
mod Enqueue
mod Dequeue
pub mod Fifo
mod Tests
use iokit_user.Prelude.{
  zero, suc, ℕ, ◌+◌, ◌-◌, ◌%◌, ◌^◌, Bool, true, false, not, ◌||◌, Option, none, some, List, ltb,
  leb, ◌==◌, if◌then◌else◌, length,
}
use iokit_user.Prelude.Memory.{store, read, word_bytes, load_word}

pub data IoReturn : Type 0 where
  success no_space bad_argument underrun overrun : IoReturn
  kern : ℕ → IoReturn

-- `memory` is the region behind the header, `port` the notification port of the appendix (0 for none).
pub record Queue : Type 0 where
  pub queue_size : ℕ
  pub head : ℕ
  pub tail : ℕ
  pub memory : List ℕ
  pub port : ℕ

abbrev pub wrap : ℕ → ℕ
wrap n = n % 2 ^ 32

-- `IODataQueueDataAvailable`; `none` is the null pointer.
pub data_available : Option Queue → Bool
data_available none = false
data_available (some q) = not (q.head == q.tail)

-- What `IODataQueueDequeue` gives back: its result, the queue, the bytes copied to `data`, and
-- the value left in `*dataSize`.
pub record Dequeued : Type 0 where
  pub result : IoReturn
  pub queue : Queue
  pub copied : Option (List ℕ)
  pub data_size : Option ℕ

module _ (header_size : ℕ) where
  -- Whether the entry at the head lies at the start of the queue, for want of room at the end.
  pub wraps_around : Queue → Bool
  wraps_around q =
      ltb q.queue_size (wrap (q.head + header_size))
      || ltb q.queue_size (wrap (wrap (q.head + load_word q.memory q.head) + header_size))

  -- `IODataQueuePeek`: the offset of the entry.
  pub peek : Option Queue → Option ℕ
  peek none = none
  peek (some q) =
      if not (q.head == q.tail) then some (if wraps_around q then 0 else q.head) else none

  -- The part behind the choice of the entry, at an offset, with the next head.
  take_entry : Queue → ℕ → ℕ → ℕ → Bool → Option ℕ → Dequeued
  take_entry q entry entry_size new_head false size = record {
    result = success;
    queue = record q { head = new_head };
    copied = none;
    data_size = elim size [ none ↦ none | some n ↦ some entry_size ];
  }
  take_entry q entry entry_size new_head true none = record {
    result = bad_argument;
    queue = q;
    copied = none;
    data_size = none;
  }
  take_entry q entry entry_size new_head true (some n) =
      if leb entry_size n
      then record {
        result = success;
        queue = record q { head = new_head };
        copied = some (read q.memory (entry + header_size) entry_size);
        data_size = some entry_size;
      }
      else record { result = no_space; queue = q; copied = none; data_size = some entry_size }

  -- `IODataQueueDequeue` of a queue that is there; the second argument says whether `data` is there,
  -- the third is `*dataSize`, if `dataSize` is there.
  pub dequeue : Queue → Bool → Option ℕ → Dequeued
  dequeue q has_data size =
      if not (q.head == q.tail)
      then (if wraps_around q
          then take_entry q 0 (load_word q.memory 0) (wrap (load_word q.memory 0 + header_size))
              has_data size
          else take_entry q q.head (load_word q.memory q.head)
              (wrap (wrap (q.head + load_word q.memory q.head) + header_size)) has_data size)
      else record { result = underrun; queue = q; copied = none; data_size = size }

  -- The entry's data and its size, written at an offset.
  put_entry : List ℕ → ℕ → List ℕ → List ℕ
  put_entry m at payload =
      store (store m (at + header_size) payload) at (word_bytes (length payload))

  -- The UInt32 `dataSize + DATA_QUEUE_ENTRY_HEADER_SIZE`.
  pub entry_size_of : List ℕ → ℕ
  entry_size_of payload = wrap (length payload + header_size)

  -- `dataQueue->tail += entrySize` behind an entry written at the tail.
  put_at_tail : Queue → List ℕ → Queue
  put_at_tail q payload = record q {
    memory = put_entry q.memory q.tail payload;
    tail = wrap (q.tail + entry_size_of payload);
  }

  -- An entry written at the start, with its size left at the old tail too, if there is room.
  put_at_start : Queue → List ℕ → Queue
  put_at_start q payload = record q {
    memory =
        if leb header_size (wrap (q.queue_size + 2 ^ 32 - q.tail))
        then store (put_entry q.memory 0 payload) q.tail (word_bytes (length payload))
        else put_entry q.memory 0 payload;
    tail = entry_size_of payload;
  }

  -- The tests on head and tail; `none` is an overrun.
  pub placed : Queue → List ℕ → Option Queue
  placed q payload =
      if leb q.head q.tail
      then (if leb (wrap (q.tail + entry_size_of payload)) q.queue_size
          then some (put_at_tail q payload)
          else if ltb (entry_size_of payload) q.head
          then some (put_at_start q payload)
          else none)
      else if ltb (entry_size_of payload) (q.head - q.tail)
      then some (put_at_tail q payload)
      else none

-- What `IODataQueueEnqueue` gives back: its result, the queue, and whether it tried to notify.
pub record Enqueued : Type 0 where
  pub result : IoReturn
  pub queue : Queue
  pub notified : Bool

-- The kernel's return codes, 0 for success.
abbrev pub of_kern : ℕ → IoReturn
of_kern zero = success
of_kern (suc n) = kern (suc n)

module _ (mach_send : ℕ → ℕ) where
  -- `_IODataQueueSendDataAvailableNotification`; `mach_send` is the kernel's answer to a message.
  pub send_notification : Queue → IoReturn
  send_notification q = if q.port == 0 then success else of_kern (mach_send q.port)

  -- The end of `IODataQueueEnqueue`, for the queue before it and the queue with the entry, if it fits.
  finish_enqueue : Queue → Option Queue → Enqueued
  finish_enqueue q (some q') =
      if q.head == q.tail || q'.head == q.tail
      then record { result = send_notification q'; queue = q'; notified = true }
      else record { result = success; queue = q'; notified = false }
  finish_enqueue q none = record { result = overrun; queue = q; notified = true }

  -- `IODataQueueEnqueue`
  pub enqueue : ℕ → Queue → List ℕ → Enqueued
  enqueue header_size q payload = finish_enqueue q (placed header_size q payload)

-- `IODataQueueSetNotificationPort`; `none` is the null pointer.
pub set_notification_port : Option Queue → ℕ → IoReturn × Option Queue
set_notification_port none p = (bad_argument, none)
set_notification_port (some q) p = (success, some (record q { port = p }))
