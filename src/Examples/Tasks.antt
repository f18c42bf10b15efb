-- ===== src/Examples/Tasks.antt =====
-- A scheduler with two ready tasks: task 1 with priority 5 and task 2 with priority 7, which runs.
use flint_rtos.Base.{ℕ, ◌≤◌, ◌<◌, ◌≡◌, refl, arith, true, ◌==◌, if◌then◌else◌, List, length, max}
use flint_rtos.KernelList.{initialise, insert_end}
use flint_rtos.KernelList.Valid.{IsFree}
use flint_rtos.KernelList.Seq.{has, insert_before}
use flint_rtos.Tasks.{
  Kernel, ready, state_item, initialise_ready, initialise_task_lists, add_to_ready, switch_context,
  priority_inherit,
}
use flint_rtos.Tasks.Valid.{HasRoom, IsValid, with_mem}
use flint_rtos.Tasks.Start.{none_held, initialise_task_lists-IsValid}
use flint_rtos.Tasks.Ready.{with_ready, add_to_ready-IsValid}
use flint_rtos.Tasks.Switch.{switch_context-highest}
use flint_rtos.Tasks.Inherit.{Reprioritised, priority_inherit-Reprioritised}

abbrev blank : Kernel
blank = record {
  mem = record {
    value = λ a. 0;
    next = λ a. 0;
    prev = λ a. 0;
    owner = λ a. 0;
    container = λ a. 0;
    count = λ l. 0;
    index = λ l. 0;
  };
  priority = λ t. if t == 2 then 7 else 5;
  base_priority = λ t. if t == 2 then 7 else 5;
  current = 2;
  top_ready = 0;
  tick = 0;
  inherit_enabled = true;
}

abbrev started : Kernel
started = with_mem (initialise_task_lists blank.mem) blank

started-IsValid : IsValid 35 started none_held
started-IsValid =
    initialise_task_lists-IsValid blank (λ a. refl) (λ a. omega arith) (λ t. ground arith)
      (omega arith)

abbrev one_ready : Kernel
one_ready = add_to_ready 1 started

abbrev one_held : ℕ → List ℕ
one_held = with_ready 1 started none_held

started-IsFree : (t : ℕ) → 0 < t → IsFree started.mem (state_item t)
unfolding initialise_task_lists initialise_ready initialise
started-IsFree t pos = (omega arith, omega arith, refl)

one_ready-IsValid : IsValid 35 one_ready one_held
one_ready-IsValid =
    add_to_ready-IsValid started-IsValid 1 (started-IsFree 1 (omega arith)) (omega arith)

abbrev both_ready : Kernel
both_ready = add_to_ready 2 one_ready

abbrev both_held : ℕ → List ℕ
both_held = with_ready 2 one_ready one_held

one_ready-IsFree : IsFree one_ready.mem (state_item 2)
unfolding add_to_ready insert_end
one_ready-IsFree = (omega arith, omega arith, ground (arith, started-IsFree 2))

one_held-short : (l : ℕ) → length (one_held l) ≤ 1
unfolding insert_before
one_held-short l = ground arith

both_ready-IsValid : IsValid 35 both_ready both_held
unfolding add_to_ready
both_ready-IsValid =
    add_to_ready-IsValid one_ready-IsValid 2 one_ready-IsFree (omega (arith, one_held-short 8))

both_held-length : (l : ℕ) → length (both_held l) ≤ 2
unfolding add_to_ready insert_before
both_held-length l = ground (arith, one_held-short l)

both_held-HasRoom : HasRoom 35 both_held
both_held-HasRoom l pos lt = omega (arith, both_held-length l)

first_waits : has 4 (both_held (ready 5)) ≡ true
unfolding insert_before
first_waits = ground arith

switch_context-highest_example :
    let k' = switch_context both_ready in
    (has (state_item k'.current) (both_held (ready (k'.priority k'.current))) ≡ true)
    × (5 ≤ k'.priority k'.current)
switch_context-highest_example =
    switch_context-highest both_ready-IsValid 5 4 (omega arith) first_waits

priority_inherit-Reprioritised_example :
    Reprioritised 35 both_ready
      (priority_inherit 1 both_ready)
      both_held
      1
      (max (both_ready.priority 1) (both_ready.priority both_ready.current))
unfolding add_to_ready
priority_inherit-Reprioritised_example =
    priority_inherit-Reprioritised both_ready-IsValid both_held-HasRoom 1 (omega arith)
      (omega arith) refl
