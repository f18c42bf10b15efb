-- ===== src/Tasks.antt =====
-- kernel/tasks.c and include/FlintRTOS/task.h: the scheduler over the lists of KernelList. A task
-- is the address of its control block, with NULL for 0; the two list items inside a control block
-- are at addresses of their own. `none` means that the fuel of a loop ran out.
pub mod Valid
pub mod Switch
pub mod Moves
pub mod Ready
pub mod Inherit
pub mod Start
pub mod Block
pub mod Wake
pub mod Tick
use mathlib.Core.Option
use flint_rtos.Base.{
  ℕ, zero, suc, ◌+◌, ◌*◌, ◌%◌, ◌^◌, Bool, true, false, not, ◌==◌, ltb, if◌then◌else◌, ◌||◌, update,
}
use flint_rtos.Base.{Option, none, some}
use flint_rtos.KernelList
use flint_rtos.KernelList.{
  Memory, max_delay, set_value, set_owner, initialise, insert_end, is_empty, head_entry,
  owner_of_next_entry,
}

abbrev pub max_priorities : ℕ
max_priorities = 32

-- The items `xStateListItem` and `xEventListItem` of a control block.
abbrev pub state_item : ℕ → ℕ
state_item t = 4 * t

abbrev pub event_item : ℕ → ℕ
event_item t = 4 * t + 2

-- The addresses of `xReadyTasksLists[p]`, `xDelayedTaskList` and `xSuspendedTaskList`; the waiting
-- lists of the queues are at 35 and above.
abbrev pub ready : ℕ → ℕ
ready p = p + 1

abbrev pub delayed : ℕ
delayed = 33

abbrev pub suspended : ℕ
suspended = 34

-- The variables of tasks.c, and of each control block the two priorities.
pub record Kernel : Type 0 where
  pub mem : Memory
  pub priority : ℕ → ℕ
  pub base_priority : ℕ → ℕ
  pub current : ℕ
  pub top_ready : ℕ
  pub tick : ℕ
  pub inherit_enabled : Bool

-- TickType_t addition.
abbrev pub add_ticks : ℕ → ℕ → ℕ
add_ticks a b = (a + b) % 2 ^ 32

infixl 5 ◌>>=◌
abbrev pub ◌>>=◌ : {A B : Type 0} → Option A → (A → Option B) → Option B
none >>= f = none
some a >>= f = f a

-- The loop of `prvInitialiseTaskLists`, for `n` priorities from `p` on.
unfoldable pub initialise_ready : ℕ → ℕ → Memory → Memory
initialise_ready zero p m = m
initialise_ready (suc n) p m = initialise_ready n (p + 1) (initialise (ready p) m)

unfoldable pub initialise_task_lists : Memory → Memory
unfolding initialise_ready
initialise_task_lists m =
    initialise suspended (initialise delayed (initialise_ready max_priorities 0 m))

unfoldable pub add_to_ready : ℕ → Kernel → Kernel
add_to_ready t k =
    let p = k.priority t in
    let m1 = set_value (state_item t) p k.mem in
    let m2 = set_owner (state_item t) t m1 in
    record k {
      top_ready = if ltb k.top_ready p then p else k.top_ready;
      mem = insert_end (ready p) (state_item t) m2;
    }

unfoldable pub reprioritise : ℕ → ℕ → Kernel → Kernel
unfolding add_to_ready
reprioritise t new k =
    if k.mem.container (state_item t) == ready (k.priority t)
    then add_to_ready t (record k {
      mem = (KernelList.remove (state_item t) k.mem).1;
      priority = update k.priority t new;
    })
    else record k { priority = update k.priority t new }

unfoldable pub priority_inherit : ℕ → Kernel → Kernel
unfolding reprioritise
priority_inherit holder k =
    if holder == 0 || k.current == 0
    then k
    else if not k.inherit_enabled
    then k
    else if ltb (k.priority holder) (k.priority k.current)
    then reprioritise holder (k.priority k.current) k
    else k

unfoldable pub priority_disinherit : ℕ → Kernel → Bool × Kernel
unfolding reprioritise
priority_disinherit holder k =
    if holder == 0
    then (false, k)
    else if not (k.priority holder == k.base_priority holder)
    then (true, reprioritise holder (k.base_priority holder) k)
    else (false, k)

-- The `while` loop of `vTaskSwitchContext`, from priority `p` down.
unfoldable pub highest_ready : Memory → ℕ → ℕ
highest_ready m zero = 0
highest_ready m (suc p) = if is_empty (ready (suc p)) m then highest_ready m p else suc p

-- Without the stack check, which is compiled in by configCHECK_FOR_STACK_OVERFLOW.
unfoldable pub switch_context : Kernel → Kernel
unfolding highest_ready
switch_context k =
    let p = highest_ready k.mem k.top_ready in
    let (owner, m) = owner_of_next_entry (ready p) k.mem in
    record k { top_ready = p; mem = m; current = owner }

-- The state item's next place when a task blocks for `ticks` from now on.
unfoldable pub sleep : ℕ → ℕ → Kernel → Memory → Option Memory
sleep t ticks k m =
    KernelList.insert delayed (state_item t) (set_value (state_item t) (add_ticks k.tick ticks) m)

unfoldable pub place_on_event_list : ℕ → ℕ → Kernel → Option Kernel
unfolding sleep
place_on_event_list l ticks k =
    let t = k.current in
    let m1 = (KernelList.remove (state_item t) k.mem).1 in
    KernelList.insert l (event_item t) m1 >>= λ m2.
    (if ticks == max_delay
      then some (insert_end suspended (state_item t) m2)
      else sleep t ticks k m2)
    >>= λ m3. some (record k { mem = m3 })

unfoldable pub remove_from_event_list : ℕ → Kernel → Bool × Kernel
unfolding add_to_ready
remove_from_event_list l k =
    if is_empty l k.mem
    then (false, k)
    else let t = k.mem.owner (head_entry l k.mem) in
      let m1 = (KernelList.remove (event_item t) k.mem).1 in
      let m2 = (KernelList.remove (state_item t) m1).1 in
      let k' = add_to_ready t (record k { mem = m2 }) in
      (ltb (k'.priority k'.current) (k'.priority t), k')

-- One round of the loop of `xTaskIncrementTick`: the task of the item at the head wakes up.
unfoldable pub wake : ℕ → Kernel → Kernel
unfolding add_to_ready
wake item k =
    let t = k.mem.owner item in
    let m1 = (KernelList.remove (state_item t) k.mem).1 in
    let m2 =
      if m1.container (event_item t) == 0 then m1 else (KernelList.remove (event_item t) m1).1 in
    add_to_ready t (record k { mem = m2 })

unfoldable pub wake_loop : ℕ → Kernel → Option Kernel
unfolding wake
wake_loop zero k = none
wake_loop (suc fuel) k =
    let item = head_entry delayed k.mem in
    let rest = wake_loop fuel (wake item k) in
    if is_empty delayed k.mem
    then some k
    else if ltb k.tick (k.mem.value item)
    then some k
    else rest

-- Fuel for one round more than there are delayed tasks.
unfoldable pub increment_tick : Kernel → Option Kernel
unfolding wake_loop
increment_tick k =
    let k1 = record k { tick = add_ticks k.tick 1 } in wake_loop (k1.mem.count delayed + 1) k1

-- `taskYIELD` follows if the answer is true.
unfoldable pub delay : ℕ → Kernel → Option (Bool × Kernel)
unfolding sleep
delay ticks k =
    if ltb 0 ticks
    then (sleep k.current ticks k (KernelList.remove (state_item k.current) k.mem).1
        >>= (λ m. some (true, record k { mem = m })))
    else some (false, k)
