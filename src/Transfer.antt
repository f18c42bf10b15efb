-- ===== src/Transfer.antt =====
-- kernel/queue.c and include/FlintRTOS/semphr.h: sending and receiving over the scheduler. A queue
-- is its circular buffer with its two waiting lists, each known by its number, and the holder of a
-- mutex, 0 for NULL. The function `others` says what interrupts and the other tasks do to the system
-- until the caller runs again: 0 between the two critical sections of a call that must wait, 1 while
-- it waits, and 2 when it gives way after the item is passed.
pub mod Running
pub mod Attempt
pub mod Lock
pub mod Items
use mathlib.Core.Option
use flint_rtos.Base.{
  ℕ, ◌+◌, ◌-◌, ◌*◌, ◌%◌, ◌^◌, Bool, true, false, ◌==◌, ◌||◌, ltb, if◌then◌else◌, Option, none, some,
}
use flint_rtos.KernelList.{initialise}
use flint_rtos.Tasks.{
  Kernel, ◌>>=◌, priority_inherit, priority_disinherit, place_on_event_list, remove_from_event_list,
}
use flint_rtos.Queue.{Queue, create, copy_in, copy_out}

abbrev pub pass : ℕ
pass = 1

abbrev pub queue_full : ℕ
queue_full = 0

abbrev pub queue_empty : ℕ
queue_empty = 0

pub record System : Type 0 where
  pub kernel : Kernel
  pub buffer : Queue
  pub is_mutex : Bool
  pub holder : ℕ
  pub to_send : ℕ
  pub to_receive : ℕ

abbrev pub with_kernel : Kernel → System → System
with_kernel k s = record s { kernel = k }

-- `xQueueCreate` with the allocator, the size of the queue's own fields, and what the new storage
-- holds.
unfoldable pub create_queue : (ℕ → ℕ) → ℕ → (ℕ → ℕ) → ℕ → ℕ → ℕ → ℕ → Kernel → Option System
create_queue malloc fields store slots item_size to_send to_receive k =
    if slots == 0
    then none
    else if malloc ((fields + slots * item_size % 2 ^ 64) % 2 ^ 64) == 0
    then none
    else some (record {
      kernel = record k { mem = initialise to_receive (initialise to_send k.mem) };
      buffer = create store slots item_size;
      is_mutex = false;
      holder = 0;
      to_send = to_send;
      to_receive = to_receive;
    })

abbrev pub has_space : System → Bool
has_space s = ltb s.buffer.messages_waiting s.buffer.length

abbrev pub has_item : System → Bool
has_item s = ltb 0 s.buffer.messages_waiting

-- `taskYIELD` if a task of higher priority is ready now.
abbrev pub give_way : Bool → (ℕ → System → System) → System → System
give_way yields others s = if yields then others 2 s else s

-- The critical section of `prvSend` when there is space; the answer is `xYield`.
unfoldable pub send_now : Option (ℕ → ℕ) → Bool → System → Bool × System
send_now item to_front s =
    let k = if s.is_mutex then (priority_disinherit s.holder s.kernel).1 else s.kernel in
    let (yields, k') = remove_from_event_list s.to_receive k in
    (
      yields,
      record s {
        buffer = copy_in item to_front s.buffer;
        holder = if s.is_mutex then 0 else s.holder;
        kernel = k';
      },
    )

-- One attempt to send.
unfoldable pub try_send : (ℕ → System → System) → Option (ℕ → ℕ) → Bool → System → ℕ × System
try_send others item to_front s =
    let (yields, s') = send_now item to_front s in
    if has_space s then (pass, give_way yields others s') else (queue_full, s)

-- `prvSend`: one attempt, and a second one after the wait.
unfoldable pub send :
    (ℕ → System → System) → Option (ℕ → ℕ) → ℕ → Bool → System → Option (ℕ × System)
send others item ticks to_front s =
    let s0 = others 0 s in
    let waited = place_on_event_list s0.to_send ticks s0.kernel >>= λ k.
    some (try_send others item to_front (others 1 (with_kernel k s0))) in
    if has_space s || ticks == 0 then some (try_send others item to_front s) else waited

-- The critical section of `xQueueReceive` when there is an item, into the buffer `into`.
unfoldable pub receive_now : (ℕ → ℕ) → System → (ℕ → ℕ) × Bool × System
receive_now into s =
    let (bytes, b) = copy_out into s.buffer in
    let (yields, k) = remove_from_event_list s.to_send s.kernel in
    (
      bytes,
      yields,
      record s {
        buffer = b;
        holder = if s.is_mutex then s.kernel.current else s.holder;
        kernel = k;
      },
    )

unfoldable pub try_receive : (ℕ → System → System) → (ℕ → ℕ) → System → ℕ × (ℕ → ℕ) × System
try_receive others into s =
    let (bytes, yields, s') = receive_now into s in
    if has_item s then (pass, bytes, give_way yields others s') else (queue_empty, into, s)

-- The holder of a mutex inherits the priority of the task that is about to wait.
unfoldable pub inherits : System → Kernel
inherits s = if s.is_mutex then priority_inherit s.holder s.kernel else s.kernel

unfoldable pub receive :
    (ℕ → System → System) → (ℕ → ℕ) → ℕ → System → Option (ℕ × (ℕ → ℕ) × System)
receive others into ticks s =
    let s0 = others 0 s in
    let waited = place_on_event_list s0.to_receive ticks (inherits s0) >>= λ k.
    some (try_receive others into (others 1 (with_kernel k s0))) in
    if has_item s || ticks == 0 then some (try_receive others into s) else waited

abbrev pub with_count : ℕ → System → System
with_count n s = record s { buffer = record s.buffer { messages_waiting = n } }

unfoldable pub create_counting : (ℕ → ℕ) → ℕ → (ℕ → ℕ) → ℕ → ℕ → ℕ → ℕ → Kernel → Option System
create_counting malloc fields store max_count initial_count to_send to_receive k =
    Option.map (with_count initial_count)
      (create_queue malloc fields store max_count 0 to_send to_receive k)

-- A mutex starts available.
unfoldable pub create_mutex :
    (ℕ → System → System) → (ℕ → ℕ) → ℕ → (ℕ → ℕ) → ℕ → ℕ → Kernel → Option System
create_mutex others malloc fields store to_send to_receive k =
    create_queue malloc fields store 1 0 to_send to_receive k >>= λ s.
    send others none 0 false (record s { is_mutex = true }) >>= λ r. some r.1

unfoldable pub spaces_available : System → ℕ
spaces_available s = (s.buffer.length + 2 ^ 64 - s.buffer.messages_waiting) % 2 ^ 64
