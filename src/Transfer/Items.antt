-- ===== src/Transfer/Items.antt =====
-- What sends and receives do to the items of a queue.
use flint_rtos.Base.{
  ℕ, zero, suc, subst, ◌+◌, ◌-◌, ◌<◌, ◌≡◌, inl, inr, arith, Bool, true, false, ◌==◌, if◌then◌else◌,
  Bool-cases, some,
}
use flint_rtos.Queue.Deque.{Contains, copy_in-back, copy_in-front}
use flint_rtos.Queue.Receive.{copy_out-Contains}
use flint_rtos.Transfer.{
  System, pass, queue_full, queue_empty, has_space, has_item, give_way, send_now, try_send, send,
  receive_now, try_receive, receive, inherits,
}
use flint_rtos.Transfer.Attempt.{CanBlock, Last, at_once, later, send-Last, receive-Last}

-- The buffer holds `n` items.
pub record Stores (s : System) : Type 0 where
  pub n : ℕ
  pub items : ℕ → ℕ → ℕ
  pub contains : Contains s.buffer n items

-- The items when one more comes, behind the others or before them.
abbrev pub with_item : Bool → ℕ → (ℕ → ℕ) → (ℕ → ℕ → ℕ) → ℕ → ℕ → ℕ
with_item to_front n item items j =
    if to_front
    then (if j == 0 then item else items (j - 1))
    else (if j == n then item else items j)

send_now-Contains :
    (item : ℕ → ℕ) (to_front : Bool) (s : System) (n : ℕ) (items : ℕ → ℕ → ℕ)
    → Contains s.buffer n items
    → n < s.buffer.length
    → Contains (send_now (some item) to_front s).1.buffer (n + 1) (with_item to_front n item items)
unfolding send_now
send_now-Contains item true s n items c room = copy_in-front c item room
send_now-Contains item false s n items c room = copy_in-back c item room

receive_now-Contains :
    (into : ℕ → ℕ) (s : System) (n : ℕ) (items : ℕ → ℕ → ℕ)
    → Contains s.buffer (suc n) items
    → Contains (receive_now into s).2.buffer n (λ j. items (j + 1))
      × ((i : ℕ) → i < s.buffer.item_size → (receive_now into s).0 i ≡ items 0 i)
unfolding receive_now
receive_now-Contains into s n items c = copy_out-Contains c into

module _ (others : ℕ → System → System) where
  -- How a send of `item`, made in `s`, ends.
  pub data Sent (item : ℕ → ℕ) (to_front : Bool) (s : System) : ℕ → System → Type 0 where
    accepted :
        (s0 s1 : System) (yields : Bool) (n : ℕ) (items : ℕ → ℕ → ℕ)
        → Last others s s0
        → Contains s0.buffer n items
        → Contains s1.buffer (n + 1) (with_item to_front n item items)
        → Sent item to_front s pass (give_way yields others s1)
    full :
        (s0 : System) (items : ℕ → ℕ → ℕ)
        → Last others s s0
        → Contains s0.buffer s0.buffer.length items
        → Sent item to_front s queue_full s0

  -- How a receive, made in `s` with the buffer `into`, ends.
  pub data Received (into : ℕ → ℕ) (s : System) : ℕ → (ℕ → ℕ) → System → Type 0 where
    taken :
        (s0 s1 : System) (yields : Bool) (n : ℕ) (items : ℕ → ℕ → ℕ) (bytes : ℕ → ℕ)
        → Last others s s0
        → Contains s0.buffer (suc n) items
        → Contains s1.buffer n (λ j. items (j + 1))
        → ((i : ℕ) → i < s0.buffer.item_size → bytes i ≡ items 0 i)
        → Received into s pass bytes (give_way yields others s1)
    empty :
        (s0 : System) (items : ℕ → ℕ → ℕ)
        → Last others s s0
        → Contains s0.buffer 0 items
        → Received into s queue_empty into s0

module _ (others : ℕ → System → System)
    (kept : (i : ℕ) (s : System) → Stores s → Stores (others i s)) where
  wait-Stores : (s s0 : System) → Stores s → Last others s s0 → Stores s0
  wait-Stores s _ t at_once = t
  wait-Stores s s0 t (later r) =
      let before = kept 0 s t in
      simp (r.same)
        (kept 1 _ (record { n = before.n; items = before.items; contains = before.contains }))

  try_send-Sent :
      (item : ℕ → ℕ) (to_front : Bool) (s s0 : System)
      → Last others s s0
      → Stores s0
      → Sent others item to_front s
          (try_send others (some item) to_front s0).0
          (try_send others (some item) to_front s0).1
  unfolding try_send
  try_send-Sent item to_front s s0 last t = elim (Bool-cases (has_space s0)) [
    | inl e ↦
        let room : t.n < s0.buffer.length = ground (arith, t.contains.waiting) in
        rw e (
          accepted s0 (send_now (some item) to_front s0).1 (send_now (some item) to_front s0).0 t.n
            t.items last t.contains
            (send_now-Contains item to_front s0 t.n t.items t.contains room))
    | inr e ↦
        let same : t.n ≡ s0.buffer.length = ground (arith, t.contains.waiting, t.contains.room) in
        rw e (full s0 t.items last (subst (λ m. Contains s0.buffer m t.items) same t.contains))
  ]

  -- If the other tasks keep what the buffer stores well formed, then a send by a task that can wait ends
  -- with an answer: either the item went behind the items that the buffer then held, or before them for
  -- a send to the front, or the answer is errQUEUE_FULL and the last attempt found as many items as the
  -- queue is long.
  pub send-Sent :
      (item : ℕ → ℕ) (ticks : ℕ) (to_front : Bool) (s : System)
      → Stores s
      → CanBlock (others 0 s).kernel (others 0 s).to_send
      → (r : ℕ) × (s' : System) × (send others (some item) ticks to_front s ≡ some (r, s'))
        × Sent others item to_front s r s'
  send-Sent item ticks to_front s t can =
      let (s0, last, e) = send-Last others (some item) ticks to_front s can in
      (_, _, e, try_send-Sent item to_front s s0 last (wait-Stores s s0 t last))

  received :
      (into : ℕ → ℕ) (s s0 : System) (n : ℕ) (items : ℕ → ℕ → ℕ)
      → Last others s s0
      → Contains s0.buffer n items
      → Received others into s
          (try_receive others into s0).0
          (try_receive others into s0).1
          (try_receive others into s0).2
  unfolding try_receive
  received into s s0 zero items last c =
      let none_there : has_item s0 ≡ false = ground (arith, c.waiting) in
      rw none_there (empty s0 items last c)
  received into s s0 (suc n) items last c =
      let some_there : has_item s0 ≡ true = ground (arith, c.waiting) in
      let (rest, read) = receive_now-Contains into s0 n items c in
      rw some_there (
        taken s0 (receive_now into s0).2 (receive_now into s0).1 n items (receive_now into s0).0
          last c rest read)

  -- If the other tasks keep what the buffer stores well formed, then a receive by a task that can wait
  -- ends with an answer: either its bytes are those of the front item that the buffer then held, and
  -- the items behind it are left in their order, or the answer is errQUEUE_EMPTY, the last attempt found
  -- no item and the bytes are as before.
  pub receive-Received :
      (into : ℕ → ℕ) (ticks : ℕ) (s : System)
      → Stores s
      → CanBlock (inherits (others 0 s)) (others 0 s).to_receive
      → (r : ℕ) × (bytes : ℕ → ℕ) × (s' : System) × (receive others into ticks s
          ≡ some (r, bytes, s'))
        × Received others into s r bytes s'
  receive-Received into ticks s t can =
      let (s0, last, e) = receive-Last others into ticks s can in
      let after = wait-Stores s s0 t last in
      (_, _, _, e, received into s s0 after.n after.items last after.contains)
