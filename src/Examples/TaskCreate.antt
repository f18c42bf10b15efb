-- ===== src/Examples/TaskCreate.antt =====
-- The first task, on a heap that hands out one block after the other.
use flint_rtos.Base.{ℕ, ◌+◌, ◌≡◌, ◌<◌, refl, arith, true, false, Option, some, none, ◌⊎◌}
use flint_rtos.KernelList.{Memory}
use flint_rtos.KernelList.{initialise}
use flint_rtos.Tasks.{Kernel, state_item, event_item, initialise_ready, initialise_task_lists}
use flint_rtos.Tasks.Valid.{IsValid}
use flint_rtos.Tasks.Start.{none_held, initialise_task_lists-IsValid}
use flint_rtos.TaskCreate.{
  TaskSystem, with_lists, create_task, fill_in, fill_words, initialise_stack, first_top, high_water,
  high_water_from,
}
use flint_rtos.TaskCreate.Outcome.{NoMemory, HasMemory, Refused, Made, create_task-Made}
use flint_rtos.TaskCreate.Stack.{Stacked, fill_in-Stacked}

abbrev memory : Memory
memory = record {
  value = λ a. 0;
  next = λ a. 0;
  prev = λ a. 0;
  owner = λ a. 0;
  container = λ a. 0;
  count = λ a. 0;
  index = λ a. 0;
}

abbrev stopped : Kernel
stopped = record {
  mem = memory;
  priority = λ t. 0;
  base_priority = λ t. 0;
  current = 0;
  top_ready = 0;
  tick = 0;
  inherit_enabled = true;
}

abbrev at_boot : TaskSystem ℕ
at_boot = record {
  kernel = stopped;
  number_of_tasks = 0;
  registry = λ i. 0;
  registered = 0;
  lists_initialised = false;
  running = false;
  stack = λ t. 0;
  stack_depth = λ t. 0;
  top_of_stack = λ t. 0;
  task_name = λ t i. 0;
  words = λ a. 0;
  heap = 64;
}

abbrev bump : ℕ → ℕ → Option ℕ × ℕ
bump size brk = (some (brk + 16), brk + 16 + size)

abbrev keep : ℕ → ℕ → ℕ
keep p brk = brk

at_boot-IsValid : IsValid 35 (with_lists at_boot).kernel none_held
unfolding with_lists
at_boot-IsValid =
    initialise_task_lists-IsValid stopped (λ a. refl) (λ a. omega arith) (λ t. omega arith)
      (omega arith)

given :
    (h t : ℕ)
    → (bump 96 h).0 ≡ some t
    → (0 < t)
      × ((with_lists at_boot).kernel.mem.container (state_item t) ≡ 0)
      × ((with_lists at_boot).kernel.mem.container (event_item t) ≡ 0)
unfolding with_lists initialise_task_lists initialise_ready initialise
given h t e = (ground (arith, e), refl, refl)

-- A priority of 40 is cut to 31.
create_task-Made_example :
    (Refused
      (NoMemory bump keep 96 512 (with_lists at_boot).heap)
      (with_lists at_boot)
      (create_task bump keep 96 7 1000 none 512 5 40 at_boot))
    ⊎ (Made
        (HasMemory bump keep 96 512 (with_lists at_boot).heap)
        35
        none_held
        40
        (with_lists at_boot)
        (create_task bump keep 96 7 1000 none 512 5 40 at_boot))
create_task-Made_example =
    create_task-Made bump keep 96 7 35 none_held 1000 none 512 5 40 at_boot at_boot-IsValid
      (λ l. omega arith) given

fill_in-Stacked_example :
    Stacked 80 512 1000 5 7 9 at_boot (fill_in 7 80 9 1000 none 512 5 3 at_boot)
fill_in-Stacked_example = fill_in-Stacked 7 80 9 1000 none 512 5 3 at_boot refl (omega arith)

-- The pattern is whole below the frame.
free_words : high_water 9 (fill_in 7 80 9 1000 none 40 5 3 at_boot) ≡ 4
unfolding high_water high_water_from fill_in fill_words initialise_stack first_top
free_words = refl
