-- ===== src/Examples/Waiting.antt =====
-- A scheduler with one queue, whose waiting list is at 35: task 2 with priority 7 runs; or task 1
-- with priority 5 is delayed and waits on the queue.
use flint_rtos.Base.{
  ℕ, ◌+◌, ◌/◌, ◌%◌, ◌≤◌, ◌<◌, ◌≡◌, inl, ap, refl, arith, true, false, ltb, ◌==◌, if◌then◌else◌,
  List, [], length, update, some,
}
use flint_rtos.KernelList.{initialise, insert_end, is_empty, head_entry}
use flint_rtos.KernelList.Seq.{insert_before}
use flint_rtos.KernelList.Valid.{IsFree}
use flint_rtos.Tasks.{
  Kernel, state_item, event_item, delayed, initialise_ready, initialise_task_lists, add_to_ready,
  place_on_event_list, remove_from_event_list, increment_tick,
}
use flint_rtos.Tasks.Valid.{HasRoom, IsValid, with_mem}
use flint_rtos.Tasks.Start.{none_held, initialise_task_lists-IsValid, initialise-IsValid}
use flint_rtos.Tasks.Moves.{join_end-IsValid}
use flint_rtos.Tasks.Ready.{with_ready, add_to_ready-IsValid}
use flint_rtos.Tasks.Block.{Waits, place_on_event_list-Waits}
use flint_rtos.Tasks.Wake.{Woken, remove_from_event_list-Woken}
use flint_rtos.Tasks.Tick.{next_tick, Ticked, increment_tick-Ticked}

abbrev blank : Kernel
blank = record {
  mem = record {
    value = λ a. 0;
    next = λ a. 0;
    prev = λ a. 0;
    owner = λ a. a / 4;
    container = λ a. 0;
    count = λ l. 0;
    index = λ l. 0;
  };
  priority = λ t. if t == 2 then 7 else 5;
  base_priority = λ t. if t == 2 then 7 else 5;
  current = 2;
  top_ready = 0;
  tick = 0;
  inherit_enabled = true;
}

abbrev started : Kernel
started = with_mem (initialise 35 (initialise_task_lists blank.mem)) blank

started-IsValid : IsValid 36 started none_held
started-IsValid =
    initialise-IsValid
      (initialise_task_lists-IsValid blank (λ a. refl) (λ a. omega arith) (λ t. ground arith)
        (omega arith))
      refl

started-IsFree : (a : ℕ) → a % 2 ≡ 0 → 0 < a → IsFree started.mem a
unfolding initialise_task_lists initialise_ready initialise
started-IsFree a even pos = (even, pos, refl)

abbrev pub running : Kernel
running = add_to_ready 2 started

abbrev pub running_held : ℕ → List ℕ
running_held = with_ready 2 started none_held

pub running-IsValid : IsValid 36 running running_held
running-IsValid =
    add_to_ready-IsValid started-IsValid 2 (started-IsFree 8 (omega arith) (omega arith))
      (omega arith)

pub running-HasRoom : HasRoom 36 running_held
unfolding insert_before
running-HasRoom l pos lt = ground arith

pub running_listed : 0 < running.mem.container (state_item running.current)
unfolding add_to_ready insert_end
running_listed = ground arith

pub event_free : running.mem.container (event_item running.current) ≡ 0
unfolding add_to_ready insert_end
event_free = ground (arith, started-IsFree 10)

pub event_owned : running.mem.owner (event_item running.current) ≡ running.current
unfolding add_to_ready insert_end initialise_task_lists initialise_ready initialise
event_owned = ground arith

place_on_event_list-Waits_example :
    (k' : Kernel) × (place_on_event_list 35 10 running ≡ some k') × Waits 36 running k' 35 10
unfolding add_to_ready
place_on_event_list-Waits_example =
    place_on_event_list-Waits running-IsValid running-HasRoom (omega arith) running_listed 35
      (omega arith) (omega arith) event_free event_owned 10

-- Task 1 waits on the queue.
abbrev queued : Kernel
queued = with_mem (insert_end 35 6 started.mem) started

abbrev queued_held : ℕ → List ℕ
queued_held = update none_held 35 (insert_before (started.mem.index 35) 6 [])

started_owner : (a : ℕ) → started.mem.owner a ≡ a / 4
unfolding initialise_task_lists initialise_ready initialise
started_owner a = refl

queued-IsValid : IsValid 36 queued queued_held
queued-IsValid =
    join_end-IsValid started-IsValid 35 6 (omega arith) (omega arith)
      (record { owned = started_owner 6; kind = refl; level = inl (omega arith) })
      (λ p e lt. absurd (omega arith)) (started-IsFree 6 (omega arith) (omega arith)) (omega arith)

-- It is also delayed.
abbrev asleep : Kernel
asleep = with_mem (insert_end delayed 4 queued.mem) queued

abbrev asleep_held : ℕ → List ℕ
asleep_held = update queued_held delayed (insert_before (queued.mem.index delayed) 4 [])

queued_owner : queued.mem.owner 4 ≡ 1
unfolding insert_end
queued_owner = started_owner 4

queued-IsFree : IsFree queued.mem 4
unfolding insert_end
queued-IsFree = (omega arith, omega arith, ground (arith, started-IsFree 4))

asleep-IsValid : IsValid 36 asleep asleep_held
asleep-IsValid =
    join_end-IsValid queued-IsValid delayed 4 (omega arith) (omega arith)
      (record { owned = queued_owner; kind = refl; level = inl (omega arith) })
      (λ p e lt. absurd (omega arith)) queued-IsFree (omega arith)

asleep_short : (l : ℕ) → length (asleep_held l) ≤ 1
unfolding insert_before
asleep_short l = ground arith

asleep_count : asleep.mem.count delayed ≡ 1
unfolding insert_end initialise_task_lists initialise_ready initialise
asleep_count = ground arith

asleep_waits : is_empty 35 asleep.mem ≡ false
unfolding insert_end initialise_task_lists initialise_ready initialise is_empty
asleep_waits = refl

asleep_first : asleep.mem.owner (head_entry 35 asleep.mem) ≡ 1
unfolding insert_end initialise_task_lists initialise_ready initialise head_entry
asleep_first = refl

asleep_listed : asleep.mem.container (state_item 1) ≡ 33
unfolding insert_end initialise_task_lists initialise_ready initialise
asleep_listed = refl

remove_from_event_list-Woken_example :
    Woken 36 asleep
      (remove_from_event_list 35 asleep).1
      asleep_held
      (asleep.mem.owner (head_entry 35 asleep.mem))
    × ((remove_from_event_list 35 asleep).0
        ≡ ltb
            (asleep.priority asleep.current)
            (asleep.priority (asleep.mem.owner (head_entry 35 asleep.mem))))
remove_from_event_list-Woken_example =
    remove_from_event_list-Woken asleep-IsValid 35 (omega arith) (omega arith) asleep_waits
      (omega (arith, asleep_first))
      (omega
        (arith, asleep_short (asleep.priority (asleep.mem.owner (head_entry 35 asleep.mem)) + 1)))
      (omega (arith, asleep_listed, ap (λ t. asleep.mem.container (state_item t)) asleep_first))

increment_tick-Ticked_example :
    (k' : Kernel) × (increment_tick asleep ≡ some k') × Ticked 36 (next_tick asleep) k'
increment_tick-Ticked_example =
    increment_tick-Ticked asleep asleep_held asleep-IsValid
      (λ l pos lt. omega (arith, asleep_short l, asleep_count))
