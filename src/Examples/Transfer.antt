-- ===== src/Examples/Transfer.antt =====
-- A queue of one slot of one byte and a mutex, in the scheduler of Examples/Waiting.antt, where no
-- other task interferes.
use flint_rtos.Base.{ℕ, ◌-◌, ◌^◌, ◌≡◌, inl, inr, refl, arith, true, false, Bool, none, some}
use flint_rtos.Tasks.{priority_inherit, add_to_ready}
use flint_rtos.Queue.{Queue, create, copy_in}
use flint_rtos.Queue.Deque.{Contains, copy_in-back}
use flint_rtos.Queue.Receive.{create-Contains}
use flint_rtos.Transfer.{System, pass, give_way, send, receive, inherits, spaces_available}
use flint_rtos.Transfer.Attempt.{CanBlock}
use flint_rtos.Transfer.Lock.{IsLock, Taken, send-IsLock, receive-IsLock}
use flint_rtos.Transfer.Items.{Stores, Sent, Received, send-Sent, receive-Received}
use flint_rtos.Examples.Waiting.{
  running, running_held, running-IsValid, running-HasRoom, running_listed, event_free, event_owned,
}

abbrev quiet : ℕ → System → System
quiet i s = s

abbrev with_buffer : Queue → Bool → ℕ → System
with_buffer b is_mutex holder = record {
  kernel = running;
  buffer = b;
  is_mutex = is_mutex;
  holder = holder;
  to_send = 35;
  to_receive = 35;
}

running-CanBlock : CanBlock running 35
unfolding add_to_ready
running-CanBlock = record {
  bound = 36;
  held = running_held;
  valid = running-IsValid;
  room = running-HasRoom;
  running = omega arith;
  listed = running_listed;
  high = omega arith;
  low = omega arith;
  no_event = event_free;
  owner = event_owned;
}

abbrev slot : Queue
slot = create (λ a. 0) 1 1

abbrev filled : Queue
filled = copy_in (some (λ i. 9)) false slot

slot-Contains : Contains slot 0 (λ j i. 0)
slot-Contains =
    create-Contains (λ a. 0) 1 1 (λ j i. 0) (omega arith) (omega arith) (omega arith) (omega arith)

filled-Stores : Stores (with_buffer filled false 0)
unfolding create
filled-Stores = record {
  n = 1;
  items = _;
  contains = copy_in-back slot-Contains (λ i. 9) (omega arith);
}

send-Sent_example :
    (r : ℕ) × (s' : System) × (send quiet (some (λ i. 7)) 10 false (with_buffer filled false 0)
      ≡ some (r, s'))
    × Sent quiet (λ i. 7) false (with_buffer filled false 0) r s'
send-Sent_example =
    send-Sent quiet (λ i s t. t) (λ i. 7) 10 false (with_buffer filled false 0) filled-Stores
      running-CanBlock

plain_running : inherits (with_buffer filled false 0) ≡ running
unfolding inherits
plain_running = refl

receive-Received_example :
    (r : ℕ) × (bytes : ℕ → ℕ) × (s' : System) × (receive quiet
        (λ i. 0)
        10
        (with_buffer filled false 0)
      ≡ some (r, bytes, s'))
    × Received quiet (λ i. 0) (with_buffer filled false 0) r bytes s'
unfolding inherits
receive-Received_example =
    receive-Received quiet (λ i s t. t) (λ i. 0) 10 (with_buffer filled false 0) filled-Stores
      running-CanBlock

-- A mutex that task 1 holds, or none.
abbrev mutex : ℕ → ℕ → System
mutex count holder =
    with_buffer
      (record {
        store = λ a. 0;
        tail = 0;
        write_to = 0;
        read_from = 0;
        length = 1;
        item_size = 0;
        messages_waiting = count;
      })
      true holder

taken-IsLock : IsLock (mutex 0 1)
unfolding add_to_ready
taken-IsLock = record {
  shape = record { mutex = refl; one = refl; plain = refl; running = omega arith };
  state = inr (refl, omega arith);
}

free-IsLock : IsLock (mutex 1 0)
unfolding add_to_ready
free-IsLock = record {
  shape = record { mutex = refl; one = refl; plain = refl; running = omega arith };
  state = inl (refl, refl);
}

send-IsLock_example :
    (s1 : System) × (yields : Bool) × (send quiet none 0 false (mutex 0 1)
      ≡ some (pass, give_way yields quiet s1))
    × (s1.holder ≡ 0)
    × IsLock s1
    × IsLock (give_way yields quiet s1)
send-IsLock_example = send-IsLock quiet (λ i s k. k) (mutex 0 1) 0 taken-IsLock (omega arith)

receive-IsLock_example :
    (r : ℕ) × (bytes : ℕ → ℕ) × (s' : System) × (receive quiet (λ i. 0) 10 (mutex 1 0)
      ≡ some (r, bytes, s'))
    × Taken quiet (mutex 1 0) r s'
    × IsLock s'
unfolding inherits priority_inherit
receive-IsLock_example =
    receive-IsLock quiet (λ i s k. k) (λ i. 0) 10 (mutex 1 0) free-IsLock running-CanBlock

-- A counting semaphore may be made with more than its length, which leaves about 2 ^ 64 free places.
overfull : spaces_available (mutex 3 0) ≡ 2 ^ 64 - 2
unfolding spaces_available
overfull = refl
