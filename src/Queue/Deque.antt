-- ===== src/Queue/Deque.antt =====
-- The circular buffer as a double-ended queue of items.
use flint_rtos.Base.{
  ℕ, ◌+◌, ◌-◌, ◌*◌, ◌^◌, ◌≤◌, ◌<◌, ◌≡◌, ◌≢◌, ◌⊎◌, arith, refl, ◌∙◌, true, false, ◌==◌, ◌&&◌, ltb,
  leb, if◌then◌else◌, Bool-cases, ==_decides, inl, inr, some,
}
use flint_rtos.Queue.{Queue, copy_bytes, put_back, put_front, copy_in}
use flint_rtos.Queue.Slots.{at-copy_bytes, slot-covers, wrap, advance_lem, back, retreat_lem}

-- Of the queue with `n` items, `read` is the slot read last and `write` the one written next; the
-- item `j`, from the front, has the bytes `items j`.
pub record Contains (q : Queue) (n : ℕ) (items : ℕ → ℕ → ℕ) : Type 0 where
  pub read : ℕ
  pub write : ℕ
  pub sized : 0 < q.item_size
  pub word : q.length < 2 ^ 64
  pub tail : q.tail ≡ q.length * q.item_size
  pub read_from : q.read_from ≡ read * q.item_size
  pub write_to : q.write_to ≡ write * q.item_size
  pub read_in : read < q.length
  pub waiting : q.messages_waiting ≡ n
  pub room : n ≤ q.length
  pub order : write ≡ wrap q.length (wrap q.length (read + 1) + n)
  pub bytes :
      (j i : ℕ)
      → j < n
      → i < q.item_size
      → q.store (wrap q.length (wrap q.length (read + 1) + j) * q.item_size + i) ≡ items j i

-- Writing an item to slot `a`.
at_slot :
    (size a b : ℕ) (item m : ℕ → ℕ) (i : ℕ)
    → i < size
    → copy_bytes size (a * size) item m (b * size + i)
      ≡ (if a == b then item i else m (b * size + i))
at_slot size a b item m i lt =
    at-copy_bytes size (a * size) item m (b * size + i) ∙ chosen (==_decides a b)
  where
    chosen :
        (a ≡ b) ⊎ (a ≢ b)
        → (if leb (a * size) (b * size + i) && ltb (b * size + i) (a * size + size)
            then item (b * size + i - a * size)
            else m (b * size + i))
          ≡ (if a == b then item i else m (b * size + i))
    chosen d = rw (slot-covers a b size i lt) (same d)
      where
        same :
            (a ≡ b) ⊎ (a ≢ b)
            → (if a == b then item (b * size + i - a * size) else m (b * size + i))
              ≡ (if a == b then item i else m (b * size + i))
        same (inl e) = let off : b * size + i - b * size ≡ i = omega arith in rw (e, off) refl
        same (inr ne) = ground arith

module _ {q : Queue} {n : ℕ} {items : ℕ → ℕ → ℕ} (c : Contains q n items) where
  abbrev size : ℕ
  size = q.item_size

  -- The slot of item `j`.
  abbrev slot : ℕ → ℕ
  slot j = wrap q.length (wrap q.length (c.read + 1) + j)

  write_in : n ≤ q.length → c.write < q.length
  write_in le = ground (arith, c.order, c.read_in)

  module _ (item : ℕ → ℕ) (room : n < q.length) where
    next_write :
        (if leb q.tail (q.write_to + size) then 0 else q.write_to + size)
        ≡ wrap q.length (c.write + 1) * size
    next_write =
        rw (c.tail, c.write_to) (advance_lem c.write size q.length c.sized (write_in c.room))

    back-hits : (j : ℕ) → j < n + 1 → (c.write == slot j) ≡ (j == n)
    back-hits j lt = ground (arith, c.order, c.read_in)

    back_bytes :
        (j i : ℕ)
        → j < n + 1
        → i < size
        → copy_bytes size q.write_to item q.store (slot j * size + i)
          ≡ (if j == n then item else items j) i
    back_bytes j i lt small =
        rw c.write_to (at_slot size c.write (slot j) item q.store i small ∙ same)
      where
        same :
            (if c.write == slot j then item i else q.store (slot j * size + i))
            ≡ (if j == n then item else items j) i
        same = elim (Bool-cases (j == n)) [
          | inl e ↦ rw (back-hits j lt, e) refl
          | inr ne ↦ rw (back-hits j lt, ne) (c.bytes j i (ground arith) small)
        ]

    -- With room left, a send to the back puts the item behind the others.
    pub copy_in-back :
        Contains (copy_in (some item) false q) (n + 1) (λ j. if j == n then item else items j)
    unfolding copy_in put_back
    copy_in-back =
        let some_size : ltb 0 size ≡ true = ground (arith, c.sized) in
        rw some_size (record {
          read = c.read;
          write = wrap q.length (c.write + 1);
          sized = c.sized;
          word = c.word;
          tail = c.tail;
          read_from = c.read_from;
          write_to = next_write;
          read_in = c.read_in;
          waiting = ground (arith, c.waiting, c.word);
          room = omega arith;
          order = ground (arith, c.order, c.read_in);
          bytes = back_bytes;
        })

    next_read :
        (if q.read_from == 0 then q.tail - size else q.read_from - size)
        ≡ back q.length c.read * size
    next_read = rw (c.tail, c.read_from) (retreat_lem c.read size q.length c.sized c.read_in)

    -- The slot of item `j` afterwards.
    abbrev front_slot : ℕ → ℕ
    front_slot j = wrap q.length (wrap q.length (back q.length c.read + 1) + j)

    front-hits : (j : ℕ) → j < n + 1 → (c.read == front_slot j) ≡ (j == 0)
    front-hits j lt = ground (arith, c.read_in)

    front-moves : (j : ℕ) → 0 < j → j < n + 1 → front_slot j ≡ slot (j - 1)
    front-moves j pos lt = ground (arith, c.read_in)

    front_bytes :
        (j i : ℕ)
        → j < n + 1
        → i < size
        → copy_bytes size q.read_from item q.store (front_slot j * size + i)
          ≡ (if j == 0 then item else items (j - 1)) i
    front_bytes j i lt small =
        rw c.read_from (at_slot size c.read (front_slot j) item q.store i small ∙ same)
      where
        same :
            (if c.read == front_slot j then item i else q.store (front_slot j * size + i))
            ≡ (if j == 0 then item else items (j - 1)) i
        same = elim (Bool-cases (j == 0)) [
          | inl e ↦ rw (front-hits j lt, e) refl
          | inr ne ↦
              rw (front-hits j lt, ne, front-moves j (ground arith) lt)
                (c.bytes (j - 1) i (ground arith) small)
        ]

    -- With room left, a send to the front puts the item before the others.
    pub copy_in-front :
        Contains (copy_in (some item) true q) (n + 1) (λ j. if j == 0 then item else items (j - 1))
    unfolding copy_in put_front
    copy_in-front =
        let some_size : ltb 0 size ≡ true = ground (arith, c.sized) in
        rw some_size (record {
          read = back q.length c.read;
          write = c.write;
          sized = c.sized;
          word = c.word;
          tail = c.tail;
          read_from = next_read;
          write_to = c.write_to;
          read_in = ground (arith, c.read_in);
          waiting = ground (arith, c.waiting, c.word);
          room = omega arith;
          order = ground (arith, c.order, c.read_in);
          bytes = front_bytes;
        })
