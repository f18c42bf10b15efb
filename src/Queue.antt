-- ===== src/Queue.antt =====
-- kernel/queue.c: the circular buffer of a queue, with the memcpy of kernel/flint_libc.c. A pointer
-- into the storage is its distance from `pcHead`.
pub mod Slots
pub mod Deque
pub mod Receive
use mathlib.Core.Option
use flint_rtos.Base.{
  ℕ, zero, suc, ◌+◌, ◌-◌, ◌*◌, ◌%◌, ◌^◌, Bool, ◌==◌, ltb, leb, if◌then◌else◌, update,
}
use flint_rtos.Base.{Option, none, some}

-- The fields of the buffer, and what the storage holds.
pub record Queue : Type 0 where
  pub store : ℕ → ℕ
  pub tail : ℕ
  pub write_to : ℕ
  pub read_from : ℕ
  pub length : ℕ
  pub item_size : ℕ
  pub messages_waiting : ℕ

-- The storage of `dest` after `n` rounds of the loop of `memcpy`.
unfoldable pub copy_bytes : ℕ → ℕ → (ℕ → ℕ) → (ℕ → ℕ) → ℕ → ℕ
copy_bytes zero dest src m = m
copy_bytes (suc n) dest src m = update (copy_bytes n dest src m) (dest + n) (src n)

-- The fields that `xQueueCreate` sets, on a storage that it does not write.
unfoldable pub create : (ℕ → ℕ) → ℕ → ℕ → Queue
create store slots item_size = record {
  store = store;
  tail = slots * item_size % 2 ^ 64;
  write_to = 0;
  read_from = (slots - 1) * (if ltb 0 item_size then item_size else 1) % 2 ^ 64;
  length = slots;
  item_size = item_size;
  messages_waiting = 0;
}

unfoldable pub put_back : (ℕ → ℕ) → Queue → Queue
unfolding copy_bytes
put_back item q =
    let next = q.write_to + q.item_size in
    record q {
      store = copy_bytes q.item_size q.write_to item q.store;
      write_to = if leb q.tail next then 0 else next;
    }

unfoldable pub put_front : (ℕ → ℕ) → Queue → Queue
unfolding copy_bytes
put_front item q = record q {
  store = copy_bytes q.item_size q.read_from item q.store;
  read_from = if q.read_from == 0 then q.tail - q.item_size else q.read_from - q.item_size;
}

-- `uxMessagesWaiting++`.
abbrev pub counted : Queue → Queue
counted q = record q { messages_waiting = (q.messages_waiting + 1) % 2 ^ 64 }

-- `prvCopyIn`, where the item is `none` for NULL.
unfoldable pub copy_in : Option (ℕ → ℕ) → Bool → Queue → Queue
unfolding put_back put_front
copy_in none to_front q = counted q
copy_in (some item) to_front q =
    counted
      (if ltb 0 q.item_size then (if to_front then put_front item q else put_back item q) else q)

-- `prvCopyOut` into the buffer.
unfoldable pub copy_out : (ℕ → ℕ) → Queue → (ℕ → ℕ) × Queue
unfolding copy_bytes
copy_out buffer q =
    let next = q.read_from + q.item_size in
    let from = if leb q.tail next then 0 else next in
    let left = (q.messages_waiting + 2 ^ 64 - 1) % 2 ^ 64 in
    if ltb 0 q.item_size
    then (
      copy_bytes q.item_size 0 (λ i. q.store (from + i)) buffer,
      record q { read_from = from; messages_waiting = left },
    )
    else (buffer, record q { messages_waiting = left })
