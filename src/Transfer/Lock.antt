-- ===== src/Transfer/Lock.antt =====
-- A mutex: it is available, or one task holds it.
use flint_rtos.Base.{
  ℕ, ◌+◌, ◌*◌, ◌%◌, ◌^◌, ◌<◌, ◌≡◌, ◌⊎◌, inl, inr, refl, arith, ◌∙◌, Bool, true, false, ◌==◌, none,
  some,
}
use flint_rtos.Queue.{create, copy_in, copy_out}
use flint_rtos.Tasks.{Kernel, priority_disinherit, remove_from_event_list}
use flint_rtos.Transfer.Running.{disinherit-current, remove-current}
use flint_rtos.KernelList.{initialise, is_empty}
use flint_rtos.Transfer.{
  System, pass, queue_empty, with_kernel, has_space, has_item, give_way, send_now, try_send, send,
  receive_now, try_receive, receive, inherits, create_queue, create_mutex,
}
use flint_rtos.Transfer.Attempt.{CanBlock, Last, at_once, later, receive-Last}

-- The queue is a mutex, and some task runs.
pub record IsShaped (s : System) : Type 0 where
  pub mutex : s.is_mutex ≡ true
  pub one : s.buffer.length ≡ 1
  pub plain : s.buffer.item_size ≡ 0
  pub running : 0 < s.kernel.current

-- The mutex is available with no holder, or taken with one.
pub record IsLock (s : System) : Type 0 where
  pub shape : IsShaped s
  pub state :
      ((s.buffer.messages_waiting ≡ 1) × (s.holder ≡ 0))
      ⊎ ((s.buffer.messages_waiting ≡ 0) × (0 < s.holder))

-- The mutex is handed back.
send_now-IsLock :
    (s : System)
    → IsShaped s
    → s.buffer.messages_waiting ≡ 0
    → IsLock (send_now none false s).1 × ((send_now none false s).1.holder ≡ 0)
unfolding send_now copy_in
send_now-IsLock s k taken =
    let same =
      remove-current s.to_receive (priority_disinherit s.holder s.kernel).1
      ∙ disinherit-current s.holder s.kernel in
    simp (k.mutex) (
      record {
        shape = record {
          mutex = refl;
          one = k.one;
          plain = k.plain;
          running = omega (arith, same, k.running);
        };
        state = inl (omega (arith, taken), refl);
      },
      refl,
    )

receive_now-IsLock :
    (into : ℕ → ℕ) (s : System)
    → IsLock s
    → s.buffer.messages_waiting ≡ 1
    → IsLock (receive_now into s).2 × ((receive_now into s).2.holder ≡ s.kernel.current)
unfolding receive_now copy_out
receive_now-IsLock into s k there =
    let same = remove-current s.to_send s.kernel in
    simp (k.shape.mutex, k.shape.plain)
      (
        record {
          shape = record {
            mutex = refl;
            one = k.shape.one;
            plain = refl;
            running = omega (arith, same, k.shape.running);
          };
          state = inr (omega (arith, there), k.shape.running);
        },
        refl,
      )

module _ (others : ℕ → System → System) where
  -- How a call that takes the mutex, made in `s`, ends.
  pub data Taken (s : System) : ℕ → System → Type 0 where
    taken :
        (s0 s1 : System) (yields : Bool)
        → Last others s s0
        → s0.holder ≡ 0
        → s1.holder ≡ s0.kernel.current
        → IsLock s1
        → Taken s pass (give_way yields others s1)
    refused : (s0 : System) → Last others s s0 → 0 < s0.holder → Taken s queue_empty s0

module _ (others : ℕ → System → System)
    (kept : (i : ℕ) (s : System) → IsLock s → IsLock (others i s)) where
  give_way-IsLock : (yields : Bool) (s : System) → IsLock s → IsLock (give_way yields others s)
  give_way-IsLock true s k = kept 2 s k
  give_way-IsLock false s k = k

  -- If the other tasks keep a mutex well formed, then a send to one that some task holds succeeds at once,
  -- whatever the time to wait: before the caller gives way no task holds it, and it stays well formed.
  pub send-IsLock :
      (s : System) (ticks : ℕ)
      → IsLock s
      → 0 < s.holder
      → (s1 : System) × (yields : Bool) × (send others none ticks false s
          ≡ some (pass, give_way yields others s1))
        × (s1.holder ≡ 0)
        × IsLock s1
        × IsLock (give_way yields others s1)
  unfolding send try_send
  send-IsLock s ticks k held =
      let taken : s.buffer.messages_waiting ≡ 0 = ground (arith, k.state) in
      let space : has_space s ≡ true = ground (arith, taken, k.shape.one) in
      let (after, free) = send_now-IsLock s k.shape taken in
      (
        (send_now none false s).1,
        (send_now none false s).0,
        rw space refl,
        free,
        after,
        give_way-IsLock (send_now none false s).0 (send_now none false s).1 after,
      )

  wait-IsLock : (s s0 : System) → IsLock s → Last others s s0 → IsLock s0
  wait-IsLock s _ k at_once = k
  wait-IsLock s s0 k (later r) =
      let before = kept 0 s k in
      let asleep : IsLock (with_kernel r.kernel (others 0 s)) = record {
        shape = record {
          mutex = before.shape.mutex;
          one = before.shape.one;
          plain = before.shape.plain;
          running = omega (arith, r.stays, before.shape.running);
        };
        state = before.state;
      } in
      simp (r.same) (kept 1 (with_kernel r.kernel (others 0 s)) asleep)

  try_receive-Taken :
      (into : ℕ → ℕ) (s s0 : System)
      → Last others s s0
      → IsLock s0
      → Taken others s (try_receive others into s0).0 (try_receive others into s0).2
        × IsLock (try_receive others into s0).2
  unfolding try_receive
  try_receive-Taken into s s0 last k = elim (k.state) [
    | inl (there, free) ↦
        let item : has_item s0 ≡ true = ground (arith, there) in
        let (after, mine) = receive_now-IsLock into s0 k there in
        rw item (
          taken s0 (receive_now into s0).2 (receive_now into s0).1 last free mine after,
          give_way-IsLock (receive_now into s0).1 (receive_now into s0).2 after,
        )
    | inr (gone, held) ↦
        let item : has_item s0 ≡ false = ground (arith, gone) in simp item (refused s0 last held, k)
  ]

  -- If the other tasks keep a mutex well formed, then a receive from one, by a task that can wait, ends
  -- with an answer and keeps it well formed: either no task held it in the last attempt, and the task that
  -- runs holds it until the caller gives way, or the answer is errQUEUE_EMPTY and a task holds it.
  pub receive-IsLock :
      (into : ℕ → ℕ) (ticks : ℕ) (s : System)
      → IsLock s
      → CanBlock (inherits (others 0 s)) (others 0 s).to_receive
      → (r : ℕ) × (bytes : ℕ → ℕ) × (s' : System) × (receive others into ticks s
          ≡ some (r, bytes, s'))
        × Taken others s r s'
        × IsLock s'
  receive-IsLock into ticks s k can =
      let (s0, last, e) = receive-Last others into ticks s can in
      let (how, after) = try_receive-Taken into s s0 last (wait-IsLock s s0 k last) in
      (_, _, _, e, how, after)

-- A mutex that was just made.
fresh-send :
    (others : ℕ → System → System) (s : System)
    → IsShaped s
    → s.buffer.messages_waiting ≡ 0
    → is_empty s.to_receive s.kernel.mem ≡ true
    → s.holder ≡ 0
    → send others none 0 false s ≡ some (pass, (send_now none false s).1)
unfolding send try_send send_now priority_disinherit remove_from_event_list
fresh-send others s k empty alone free =
    let space : has_space s ≡ true = ground (arith, empty, k.one) in
    simp (space, k.mutex, free, alone) refl

-- On a valid pointer from the allocator and while a task runs, xQueueCreateMutex makes a well-formed mutex
-- that no task holds.
pub create_mutex-IsLock :
    (others : ℕ → System → System) (malloc : ℕ → ℕ) (fields : ℕ) (store : ℕ → ℕ)
    (to_send to_receive : ℕ) (k : Kernel)
    → 0 < malloc (fields % 2 ^ 64)
    → 0 < k.current
    → (s : System) × (create_mutex others malloc fields store to_send to_receive k ≡ some s)
      × IsLock s
      × (s.holder ≡ 0)
unfolding create_mutex create_queue create initialise is_empty
create_mutex-IsLock others malloc fields store to_send to_receive k some_block running =
    let some_block' : (malloc ((fields + 1 * 0 % 2 ^ 64) % 2 ^ 64) == 0) ≡ false = ground arith in
    let fresh : System = record {
      kernel = record k { mem = initialise to_receive (initialise to_send k.mem) };
      buffer = create store 1 0;
      is_mutex = true;
      holder = 0;
      to_send = to_send;
      to_receive = to_receive;
    } in
    let shape : IsShaped fresh = record {
      mutex = refl;
      one = refl;
      plain = refl;
      running = running;
    } in
    let (after, free) = send_now-IsLock fresh shape refl in
    rw (some_block', fresh-send others fresh shape refl (ground arith) refl) (_, refl, after, free)
