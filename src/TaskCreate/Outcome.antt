-- ===== src/TaskCreate/Outcome.antt =====
-- What xTaskCreate does, whether there is memory or not.
use flint_rtos.Base.{
  ℕ, ◌+◌, ◌*◌, ◌^◌, ◌<◌, ◌≡◌, ◌⊎◌, inl, inr, refl, arith, Option, none, some, List, length, min,
}
use flint_rtos.Tasks.{ready, state_item, event_item}
use flint_rtos.Tasks.Valid.{IsValid}
use flint_rtos.TaskCreate.{TaskSystem, at_most_highest, with_lists, with_heap, fill_in, create_task}
use flint_rtos.TaskCreate.Entered.{Entered, enter_task-Entered}

module _ {H : Type 0} (alloc : ℕ → H → Option ℕ × H) (free : ℕ → H → H) (tcb_size depth : ℕ)
    (h : H) where
  -- The heap has no block for the stack, or else none for the control block, and then the stack is given back.
  abbrev pub NoMemory : H → Type 0
  NoMemory left =
      (((alloc (depth * 8) h).0 ≡ none) × (left ≡ (alloc (depth * 8) h).1))
      ⊎ ((stack : ℕ) × ((alloc (depth * 8) h).0 ≡ some stack)
          × ((alloc tcb_size (alloc (depth * 8) h).1).0 ≡ none)
          × (left ≡ free stack (alloc tcb_size (alloc (depth * 8) h).1).1))

  -- The heap has a block for the stack and one, `task`, for the control block.
  abbrev pub HasMemory : ℕ → H → Type 0
  HasMemory task left =
      (stack : ℕ) × ((alloc (depth * 8) h).0 ≡ some stack)
      × ((alloc tcb_size (alloc (depth * 8) h).1).0 ≡ some task)
      × (left ≡ (alloc tcb_size (alloc (depth * 8) h).1).1)

-- Without memory nothing but the heap changes. Otherwise the task is entered, with the priority asked
-- for, or the highest one if that is none. What is said of the heap holds of the one afterwards.
pub record Refused {H : Type 0} (NoMemory : H → Type 0) (s : TaskSystem H)
    (a : Option ℕ × TaskSystem H) : Type 0 where
  pub no_memory : NoMemory a.1.heap
  pub nothing : a.0 ≡ none
  pub same : a.1 ≡ with_heap a.1.heap s

pub record Made {H : Type 0} (HasMemory : ℕ → H → Type 0) (bound : ℕ) (held : ℕ → List ℕ) (p : ℕ)
    (s : TaskSystem H) (a : Option ℕ × TaskSystem H) : Type 0 where
  pub task : ℕ
  pub memory : HasMemory task a.1.heap
  pub handle : a.0 ≡ some task
  pub entered : Entered bound held s.kernel a.1.kernel task (min p 31)

at_most_highest_lem : (p : ℕ) → at_most_highest p ≡ min p 31
unfolding at_most_highest
at_most_highest_lem p = ground arith

module _ {H : Type 0} (alloc : ℕ → H → Option ℕ × H) (free : ℕ → H → H) (tcb_size exit : ℕ)
    (bound : ℕ) (held : ℕ → List ℕ) where
  -- Let the scheduler be valid once its lists are set up, with room in its lists, and let the block that the
  -- heap hands out for a control block not be at 0, nor hold an item of a list. If the heap has no
  -- block for the stack, or none for the control block after that, then xTaskCreate answers that it has made
  -- no task and changes nothing but the heap, to which it gives a stack back. Otherwise it makes the task at
  -- the block that the heap hands out for the control block: the scheduler stays valid, with the
  -- task's state item just before the cursor of the ready list of its priority, which is the one asked for
  -- or 31 if that is lower; no other task's priority changes; the top priority is at least that of the task;
  -- and the task becomes the current one if there was none.
  pub create_task-Made :
      (code : ℕ) (name : Option (ℕ → ℕ)) (depth parameters priority : ℕ) (s : TaskSystem H)
      → IsValid bound (with_lists s).kernel held
      → ((l : ℕ) → length (held l) + 1 < 2 ^ 64)
      → ((h : H) (t : ℕ)
          → (alloc tcb_size h).0 ≡ some t
          → (0 < t)
            × ((with_lists s).kernel.mem.container (state_item t) ≡ 0)
            × ((with_lists s).kernel.mem.container (event_item t) ≡ 0))
      → (Refused
          (NoMemory alloc free tcb_size depth (with_lists s).heap)
          (with_lists s)
          (create_task alloc free tcb_size exit code name depth parameters priority s))
        ⊎ (Made
            (HasMemory alloc free tcb_size depth (with_lists s).heap)
            bound
            held
            priority
            (with_lists s)
            (create_task alloc free tcb_size exit code name depth parameters priority s))
  unfolding create_task fill_in
  create_task-Made code name depth parameters priority s0 v room fresh =
      let s = with_lists s0 in
      let a = alloc (depth * 8) s.heap in
      let p = min priority 31 in
      let capped = at_most_highest_lem priority in
      elim (option (a.0)) [
        | inl e ↦
            rw (create_task, e)
              (inl (record { no_memory = inl (e, refl); nothing = refl; same = refl }))
        | inr (stack, e) ↦ elim (option ((alloc tcb_size a.1).0)) [
          | inl f ↦
              rw (create_task, e, f)
                (inl (record { no_memory = inr (stack, e, f, refl); nothing = refl; same = refl }))
          | inr (t, f) ↦
              let (some_task, state_free, event_free) = fresh a.1 t f in
              rw (create_task, e, f, capped)
                (inr (record {
                  task = t;
                  memory = (stack, e, f, refl);
                  handle = refl;
                  entered =
                      enter_task-Entered v t p some_task (omega arith) state_free event_free
                        (room (ready p));
                }))
        ]
      ]
    where
      option : (o : Option ℕ) → (o ≡ none) ⊎ ((n : ℕ) × (o ≡ some n))
      option none = inl refl
      option (some n) = inr (n, refl)
