-- ===== src/Queue/Receive.antt =====
-- Taking an item out of the circular buffer, and the empty buffer.
use flint_rtos.Base.{
  ℕ, suc, ◌+◌, ◌-◌, ◌*◌, ◌^◌, ◌≤◌, ◌<◌, ◌≡◌, arith, refl, ◌∙◌, true, ltb, leb, if◌then◌else◌,
}
use flint_rtos.Queue.{Queue, copy_bytes, create, copy_out}
use flint_rtos.Queue.Slots.{at-copy_bytes, wrap, advance_lem, mul_mono}
use flint_rtos.Queue.Deque.{Contains}

-- A new queue with slots of at least one byte, whose storage can be addressed, is empty.
pub create-Contains :
    (store : ℕ → ℕ) (slots item_size : ℕ) (items : ℕ → ℕ → ℕ)
    → 0 < slots
    → 0 < item_size
    → slots * item_size < 2 ^ 64
    → slots < 2 ^ 64
    → Contains (create store slots item_size) 0 items
unfolding create
create-Contains store slots item_size items pos sized fits word =
    let some_size : ltb 0 item_size ≡ true = ground (arith, sized) in
    let less : (slots - 1) * item_size ≤ slots * item_size =
      mul_mono (slots - 1) slots item_size (omega arith) in
    record {
      read = slots - 1;
      write = 0;
      sized = sized;
      word = word;
      tail = omega arith;
      read_from = rw some_size (omega (arith, less, fits));
      write_to = omega arith;
      read_in = omega arith;
      waiting = refl;
      room = omega arith;
      order = ground arith;
      bytes = λ j i lt small. absurd (omega arith);
    }

module _ {q : Queue} {n : ℕ} {items : ℕ → ℕ → ℕ} (c : Contains q (suc n) items)
    (buffer : ℕ → ℕ) where
  abbrev size : ℕ
  size = q.item_size

  abbrev next_slot : ℕ
  next_slot = wrap q.length (c.read + 1)

  next_read : (if leb q.tail (q.read_from + size) then 0 else q.read_from + size) ≡ next_slot * size
  next_read = rw (c.tail, c.read_from) (advance_lem c.read size q.length c.sized c.read_in)

  moves :
      (j : ℕ)
      → j < n
      → wrap q.length (wrap q.length (next_slot + 1) + j) ≡ wrap q.length (next_slot + (j + 1))
  moves j lt = ground (arith, c.read_in, c.room)

  read_bytes :
      (i : ℕ)
      → i < size
      → copy_bytes size 0 (λ i. q.store (next_slot * size + i)) buffer i ≡ items 0 i
  read_bytes i lt =
      let first : wrap q.length (next_slot + 0) ≡ next_slot = ground (arith, c.read_in) in
      let front = c.bytes 0 i (omega arith) lt in
      let read : q.store (next_slot * size + i) ≡ items 0 i = rw first at front in
      let same : i - 0 ≡ i = omega arith in
      at-copy_bytes size 0 (λ i. q.store (next_slot * size + i)) buffer i
      ∙ rw same (ground (arith, read))

  -- A receive from a queue that is not empty copies the bytes of its front item into the buffer, and leaves
  -- the items behind it in their order.
  pub copy_out-Contains :
      Contains (copy_out buffer q).1 n (λ j. items (j + 1))
      × ((i : ℕ) → i < size → (copy_out buffer q).0 i ≡ items 0 i)
  unfolding copy_out
  copy_out-Contains =
      let some_size : ltb 0 size ≡ true = ground (arith, c.sized) in
      rw (some_size, next_read)
        (
          record {
            read = next_slot;
            write = c.write;
            sized = c.sized;
            word = c.word;
            tail = c.tail;
            read_from = refl;
            write_to = c.write_to;
            read_in = ground (arith, c.read_in);
            waiting = ground (arith, c.waiting, c.word, c.room);
            room = omega (arith, c.room);
            order = ground (arith, c.order, c.read_in, c.room);
            bytes = λ j i lt small. rw (moves j lt) (c.bytes (j + 1) i (omega arith) small);
          },
          read_bytes,
        )
