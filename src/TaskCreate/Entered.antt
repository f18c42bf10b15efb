-- ===== src/TaskCreate/Entered.antt =====
-- A new task in the lists of the scheduler.
use flint_rtos.Base.{
  ℕ, ◌+◌, ◌/◌, ◌^◌, ◌≤◌, ◌<◌, ◌≡◌, ◌≢◌, ◌⊎◌, refl, arith, ap, subst, true, ◌==◌, if◌then◌else◌,
  update, List, length,
}
use flint_rtos.KernelList.{initialise_item}
use flint_rtos.KernelList.Seq.{has, insert_before}
use flint_rtos.KernelList.Valid.{IsFree, Undisturbed, Undisturbed-IsList}
use flint_rtos.Tasks.{Kernel, ready, state_item, event_item, add_to_ready}
use flint_rtos.Tasks.Valid.{IsValid}
use flint_rtos.Tasks.Ready.{add_to_ready-IsValid}
use flint_rtos.TaskCreate.{set_items, enter_task}

module _ {bound : ℕ} {k : Kernel} {held : ℕ → List ℕ} (v : IsValid bound k held) (t p : ℕ)
    (some_task : 0 < t) (in_range : p < 32) (state_free : k.mem.container (state_item t) ≡ 0)
    (event_free : k.mem.container (event_item t) ≡ 0) where
  abbrev set_up : Kernel
  set_up = record k {
    mem = set_items t p k.mem;
    priority = update k.priority t p;
    base_priority = update k.base_priority t p;
    current = if k.current == 0 then t else k.current;
  }

  -- An item in a list is neither of the two.
  other :
      (l x : ℕ)
      → 0 < l
      → l < bound
      → has x (held l) ≡ true
      → (x ≢ state_item t) × (x ≢ event_item t)
  other l x po lo e =
      let here = ((v.lists l po lo).items x e).2 in
      (
        λ same. absurd (omega (arith, here, ap k.mem.container same, state_free)),
        λ same. absurd (omega (arith, here, ap k.mem.container same, event_free)),
      )

  set_items-Undisturbed :
      (l : ℕ) → 0 < l → l < bound → Undisturbed k.mem (set_items t p k.mem) l (held l)
  unfolding set_items initialise_item
  set_items-Undisturbed l po lo = record {
    next_kept = λ a e. ground (arith, other l a po lo);
    prev_kept = λ a e. ground (arith, other l a po lo);
    container_kept = λ a e. ground (arith, other l a po lo e);
    value_kept = ground arith;
    count_kept = refl;
    index_kept = refl;
  }

  set_up-IsValid : IsValid bound set_up held
  unfolding set_items initialise_item
  set_up-IsValid = record {
    lists = λ l po lo. Undisturbed-IsList (set_items-Undisturbed l po lo) (v.lists l po lo);
    wide = v.wide;
    words = λ a. ground (arith, v.words a);
    placed = λ l x po lo e.
        let old = v.placed l x po lo e in
        let (a, b) = other l x po lo e in
        record {
          owned = ground (arith, old.owned, a, b);
          kind = old.kind;
          level = level l x po lo e;
        };
    homes = λ l x po lo e. ground (arith, e, v.homes l x po lo);
    inside = λ x. ground (arith, v.inside x, v.wide);
    in_range = λ u. ground (arith, v.in_range u);
    top_in = v.top_in;
    top = v.top;
  }
    where
      level :
          (l x : ℕ)
          → 0 < l
          → l < bound
          → has x (held l) ≡ true
          → (33 ≤ l) ⊎ (update k.priority t p (x / 4) + 1 ≡ l)
      level l x po lo e =
          let old = v.placed l x po lo e in
          let (a, b) = other l x po lo e in ground (arith, old.level, old.kind, a, b)

  set_up-IsFree : IsFree (set_items t p k.mem) (state_item t)
  unfolding set_items initialise_item
  set_up-IsFree = (omega arith, omega arith, ground arith)

-- The task `t` is in the scheduler `k'`, which is `k` but for it, with the priority `p`.
pub record Entered (bound : ℕ) (held : ℕ → List ℕ) (k k' : Kernel) (t p : ℕ) : Type 0 where
  pub valid : IsValid bound k' (
      update held (ready p) (insert_before (k.mem.index (ready p)) (state_item t) (held (ready p))))
  pub priorities : (u : ℕ) → k'.priority u ≡ (if u == t then p else k.priority u)
  pub in_range : p < 32
  pub known_top : p ≤ k'.top_ready
  pub current : k'.current ≡ (if k.current == 0 then t else k.current)

module _ {bound : ℕ} {k : Kernel} {held : ℕ → List ℕ} (v : IsValid bound k held) (t p : ℕ)
    (some_task : 0 < t) (in_range : p < 32) (state_free : k.mem.container (state_item t) ≡ 0)
    (event_free : k.mem.container (event_item t) ≡ 0)
    (room : length (held (ready p)) + 1 < 2 ^ 64) where
  enter_task-valid : IsValid bound (enter_task t p k) (
      update held (ready p) (insert_before (k.mem.index (ready p)) (state_item t) (held (ready p))))
  unfolding enter_task set_items initialise_item
  enter_task-valid =
      let same : update k.priority t p t ≡ p = ground arith in
      let a =
        add_to_ready-IsValid (set_up-IsValid v t p some_task in_range state_free event_free) t
          (set_up-IsFree v t p some_task in_range state_free event_free) (rw same room) in
      subst
        (λ q. IsValid bound (enter_task t p k) (
          update held (ready q)
            (insert_before (k.mem.index (ready q)) (state_item t) (held (ready q)))))
        same a

  pub enter_task-Entered : Entered bound held k (enter_task t p k) t p
  unfolding enter_task set_items initialise_item add_to_ready
  enter_task-Entered = record {
    valid = enter_task-valid;
    priorities = λ u. ground arith;
    in_range = in_range;
    known_top = ground arith;
    current = refl;
  }
