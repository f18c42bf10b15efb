-- ===== src/Tasks/Ready.antt =====
-- `prvAddTaskToReadyList` on a task whose state item is in no list.
use flint_rtos.Base.{ℕ, ◌+◌, ◌^◌, ◌<◌, inr, arith, ap, List, ltb, if◌then◌else◌, update, length}
use flint_rtos.KernelList.{set_value, set_owner}
use flint_rtos.KernelList.Seq.{insert_before}
use flint_rtos.KernelList.Valid.{IsFree}
use flint_rtos.Tasks.{Kernel, ready, state_item, add_to_ready}
use flint_rtos.Tasks.Valid.{Placed, IsValid}
use flint_rtos.Tasks.Moves.{
  write_value-IsValid, write_owner-IsValid, raise_top-IsValid, join_end-IsValid,
}

-- What the lists hold after the task is added.
abbrev pub with_ready : ℕ → Kernel → (ℕ → List ℕ) → ℕ → List ℕ
with_ready t k held =
    let l = ready (k.priority t) in
    update held l (insert_before (k.mem.index l) (state_item t) (held l))

module _ {bound : ℕ} {k : Kernel} {held : ℕ → List ℕ} (v : IsValid bound k held) (t : ℕ)
    (free : IsFree k.mem (state_item t))
    (room : length (held (ready (k.priority t))) + 1 < 2 ^ 64) where
  abbrev top : ℕ
  top = if ltb k.top_ready (k.priority t) then k.priority t else k.top_ready

  abbrev written : Kernel
  written = record k {
    mem = set_owner (state_item t) t (set_value (state_item t) (k.priority t) k.mem);
    top_ready = top;
  }

  written-IsValid : IsValid bound written held
  written-IsValid =
      raise_top-IsValid
        (write_owner-IsValid
          (write_value-IsValid v (state_item t) (k.priority t) (omega arith)
            (omega (arith, v.in_range t)))
          t)
        top (ground arith) (ground (arith, v.in_range t, v.top_in))

  place : Placed written (ready (k.priority t)) (state_item t)
  place = record {
    owned = ground arith;
    kind = ground (arith, v.in_range t);
    level = inr (ap (λ a. k.priority a + 1) (omega arith));
  }

  -- In a valid scheduler, for a task whose state item is in no list and whose ready list has room,
  -- `prvAddTaskToReadyList` puts the state item just before the cursor of the ready list of its task's
  -- priority, and keeps the scheduler valid: no task is ready above the top priority.
  pub add_to_ready-IsValid : IsValid bound (add_to_ready t k) (with_ready t k held)
  unfolding add_to_ready
  add_to_ready-IsValid =
      join_end-IsValid written-IsValid (ready (k.priority t)) (state_item t) (omega arith)
        (omega (arith, v.in_range t, v.wide)) place (λ p e lt. ground arith) free room
