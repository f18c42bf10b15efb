-- ===== src/TaskCreate.antt =====
-- kernel/tasks.c and portable/LLVM_AArch64/port.c: the creation of tasks, their stacks, and what the
-- diagnostics read of them. The heap is whatever `alloc` and `free` make of it.
pub mod Entered
pub mod Outcome
pub mod Stack
use flint_rtos.Base.{
  ℕ, zero, suc, ◌+◌, ◌-◌, ◌*◌, ◌%◌, ◌^◌, Bool, true, false, not, ◌==◌, ◌||◌, leb, ltb,
  if◌then◌else◌, update, Option, none, some, List, [], ◌∷◌,
}
use flint_rtos.KernelList.{Memory, initialise_item, set_owner, set_value}
use flint_rtos.Tasks.{
  Kernel, max_priorities, state_item, event_item, initialise_task_lists, add_to_ready,
}

abbrev pub max_task_name_len : ℕ
max_task_name_len = 16

abbrev pub max_tasks : ℕ
max_tasks = 16

abbrev pub stack_fill : ℕ
stack_fill = 0xA5A5A5A5A5A5A5A5

abbrev pub ctx_slots : ℕ
ctx_slots = 34

abbrev pub ctx_spsr : ℕ
ctx_spsr = 31

abbrev pub ctx_elr : ℕ
ctx_elr = 32

abbrev pub initial_spsr : ℕ
initial_spsr = 0x345

-- The scheduler, the other variables of tasks.c, the other fields of each control block, the words
-- of 8 bytes of the stacks by their address, and the heap.
pub record TaskSystem (H : Type 0) : Type 0 where
  pub kernel : Kernel
  pub number_of_tasks : ℕ
  pub registry : ℕ → ℕ
  pub registered : ℕ
  pub lists_initialised : Bool
  pub running : Bool
  pub stack : ℕ → ℕ
  pub stack_depth : ℕ → ℕ
  pub top_of_stack : ℕ → ℕ
  pub task_name : ℕ → ℕ → ℕ
  pub words : ℕ → ℕ
  pub heap : H

-- The address of `base[i]`.
abbrev pub word_at : ℕ → ℕ → ℕ
word_at base i = base + 8 * i

-- The loops of `xTaskCreate` and of `pxPortInitialiseStack` that write `v` to `n` words.
unfoldable pub fill_words : ℕ → ℕ → ℕ → (ℕ → ℕ) → ℕ → ℕ
fill_words v base zero m = m
fill_words v base (suc n) m = update (fill_words v base n m) (word_at base n) v

-- The loop that copies the name, with `rounds` to go; NULL is `none`.
unfoldable pub copy_name : ℕ → ℕ → Option (ℕ → ℕ) → (ℕ → ℕ) → ℕ → ℕ
copy_name zero ux name dst = dst
copy_name (suc rounds) ux none dst = update dst ux 0
copy_name (suc rounds) ux (some name) dst =
    let rest = copy_name rounds (ux + 1) (some name) (update dst ux (name ux)) in
    if name ux == 0 then update dst ux 0 else rest

-- `pxPortInitialiseStack`, where `exit` is the address of vPortTaskExit.
unfoldable pub initialise_stack : ℕ → ℕ → ℕ → ℕ → (ℕ → ℕ) → ℕ × (ℕ → ℕ)
initialise_stack exit top code parameters m0 =
    let sp = top - 8 * ctx_slots in
    let m1 = fill_words 0 sp ctx_slots m0 in
    let m2 = update m1 (word_at sp 0) parameters in
    let m3 = update m2 (word_at sp 30) exit in
    let m4 = update m3 (word_at sp ctx_spsr) initial_spsr in
    let m5 = update m4 (word_at sp ctx_elr) code in (sp, m5)

-- `&(pxStack[usStackDepth - 1U])`, rounded down to a multiple of 16.
unfoldable pub first_top : ℕ → ℕ → ℕ
first_top stack depth = let top = word_at stack (depth - 1) in top - top % 16

-- The two list items of a new control block.
unfoldable pub set_items : ℕ → ℕ → Memory → Memory
set_items t priority m0 =
    let m1 = initialise_item (state_item t) m0 in
    let m2 = initialise_item (event_item t) m1 in
    let m3 = set_owner (state_item t) t m2 in
    let m4 = set_owner (event_item t) t m3 in
    set_value (event_item t) (max_priorities - priority) m4

-- The scheduler's part of a new task: its priorities, its items, and the ready list.
unfoldable pub enter_task : ℕ → ℕ → Kernel → Kernel
enter_task t priority k = add_to_ready t (record k {
  mem = set_items t priority k.mem;
  priority = update k.priority t priority;
  base_priority = update k.base_priority t priority;
  current = if k.current == 0 then t else k.current;
})

unfoldable pub at_most_highest : ℕ → ℕ
at_most_highest priority = if leb max_priorities priority then max_priorities - 1 else priority

-- The loop of `prvStackHighWater`, at `n` with `rounds` to go.
unfoldable pub high_water_from : ℕ → ℕ → ℕ → (ℕ → ℕ) → ℕ
high_water_from zero n base m = n
high_water_from (suc rounds) n base m =
    let rest = high_water_from rounds (n + 1) base m in
    if m (word_at base n) == stack_fill then rest else n

-- `TaskSnapshot_t`, of a task.
pub record TaskSnapshot : Type 0 where
  pub name_of : ℕ → ℕ
  pub priority_of : ℕ
  pub base_priority_of : ℕ
  pub depth_of : ℕ
  pub free_of : ℕ

module _ {H : Type 0} where
  -- The lists are set up before the first task.
  unfoldable pub with_lists : TaskSystem H → TaskSystem H
  with_lists s =
      if not s.lists_initialised
      then record s {
        kernel = record s.kernel { mem = initialise_task_lists s.kernel.mem };
        lists_initialised = true;
      }
      else s

  -- A task whose stack and control block have been allocated. A stack has 1 word at least.
  unfoldable pub fill_in : ℕ → ℕ → ℕ → ℕ → Option (ℕ → ℕ) → ℕ → ℕ → ℕ → TaskSystem H → TaskSystem H
  fill_in exit stack t code name depth parameters priority s =
      let painted = fill_words stack_fill stack depth s.words in
      let frame = initialise_stack exit (first_top stack depth) code parameters painted in
      let room = ltb s.registered max_tasks in
      record s {
        stack = update s.stack t stack;
        stack_depth = update s.stack_depth t depth;
        top_of_stack = update s.top_of_stack t frame.0;
        task_name =
            update s.task_name t (
              update (copy_name max_task_name_len 0 name (s.task_name t)) (max_task_name_len - 1)
                0);
        words = frame.1;
        number_of_tasks = (s.number_of_tasks + 1) % 2 ^ 64;
        registry = if room then update s.registry s.registered t else s.registry;
        registered = if room then s.registered + 1 else s.registered;
        kernel = enter_task t priority s.kernel;
      }

  abbrev pub with_heap : H → TaskSystem H → TaskSystem H
  with_heap h s = record s { heap = h }

  -- `xTaskCreate`: the new task, or `none` for errCOULD_NOT_ALLOCATE_REQUIRED_MEMORY. `tcb_size` is
  -- sizeof(TCB_t).
  unfoldable pub create_task :
      (ℕ → H → Option ℕ × H)
      → (ℕ → H → H)
      → ℕ
      → ℕ
      → ℕ
      → Option (ℕ → ℕ)
      → ℕ
      → ℕ
      → ℕ
      → TaskSystem H
      → Option ℕ × TaskSystem H
  create_task alloc free tcb_size exit code name depth parameters priority s0 =
      let s = with_lists s0 in
      let a = alloc (depth * 8) s.heap in
      elim (a.0) [
        | none ↦ (none, with_heap a.1 s)
        | some stack ↦
            let b = alloc tcb_size a.1 in
            elim (b.0) [
              | none ↦ (none, with_heap (free stack b.1) s)
              | some t ↦
                  let filled =
                    fill_in exit stack t code name depth parameters (at_most_highest priority)
                      (with_heap b.1 s) in
                  (some t, filled)
            ]
      ]

  -- `vTaskStartScheduler` up to the start of the timer and of the first task, where `create_idle` is the
  -- call of xTaskCreate for the idle task.
  unfoldable pub start_scheduler :
      (TaskSystem H → Option ℕ × TaskSystem H) → TaskSystem H → TaskSystem H
  start_scheduler create_idle s =
      let created = (create_idle s).1 in
      record created { running = true; kernel = record created.kernel { tick = 0 } }

  -- Whether `prvCheckStackOverflow` calls the hook.
  unfoldable pub is_overrun : ℕ → TaskSystem H → Bool
  is_overrun t s =
      let base = s.stack t in
      ltb (s.top_of_stack t) base
      || not (s.words (word_at base 0) == stack_fill)
      || not (s.words (word_at base 1) == stack_fill)

  unfoldable pub high_water : ℕ → TaskSystem H → ℕ
  high_water t s = high_water_from (s.stack_depth t) 0 (s.stack t) s.words

  unfoldable pub snapshot_of : ℕ → TaskSystem H → TaskSnapshot
  snapshot_of t s = record {
    name_of = s.task_name t;
    priority_of = s.kernel.priority t;
    base_priority_of = s.kernel.base_priority t;
    depth_of = s.stack_depth t;
    free_of = high_water t s;
  }

  -- `uxTaskGetSnapshot`, from entry `i` on with room for `room` more; `i` and `n` are equal throughout.
  unfoldable pub snapshots : ℕ → ℕ → TaskSystem H → List TaskSnapshot
  snapshots zero i s = []
  snapshots (suc room) i s =
      let rest = snapshots room (i + 1) s in
      if ltb i s.registered then snapshot_of (s.registry i) s ∷ rest else []
