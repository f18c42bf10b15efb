-- ===== src/Tasks/Inherit.antt =====
-- `prvReprioritise`, `vTaskPriorityInherit` and `vTaskPriorityDisinherit`.
use flint_rtos.Base.{
  ℕ, ◌+◌, ◌^◌, ◌<◌, ◌≡◌, inl, inr, arith, refl, List, true, false, ◌==◌, ◌||◌, ◌&&◌, not, ltb,
  if◌then◌else◌, update, length, Bool-cases, ==_decides, max,
}
use flint_rtos.KernelList
use flint_rtos.KernelList.{Memory}
use flint_rtos.KernelList.Seq.{has, erase, has-insert_before, has-erase, length-erase}
use flint_rtos.KernelList.Valid.{IsFree}
use flint_rtos.Tasks.{
  Kernel, ready, state_item, add_to_ready, reprioritise, priority_inherit, priority_disinherit,
}
use flint_rtos.Tasks.Valid.{HasRoom, IsValid}
use flint_rtos.Tasks.Moves.{leave-IsValid, leave-IsFree, priority-IsValid}
use flint_rtos.Tasks.Ready.{with_ready, add_to_ready-IsValid}

-- `k'` is `k` with priority `new` for task `t`: every list holds what it held, but that the state item
-- of `t`, if it stood in a ready list, stands in the one of the new priority.
pub record Reprioritised (bound : ℕ) (k k' : Kernel) (held : ℕ → List ℕ) (t new : ℕ) : Type 0 where
  pub after : ℕ → List ℕ
  pub valid : IsValid bound k' after
  pub priorities : (u : ℕ) → k'.priority u ≡ (if u == t then new else k.priority u)
  pub members :
      (l x : ℕ)
      → 0 < l
      → l < bound
      → has x (after l) ≡ (
          if x == state_item t && k.mem.container x == ready (k.priority t)
          then l == ready new
          else has x (held l))

module _ {bound : ℕ} {k : Kernel} {held : ℕ → List ℕ} (v : IsValid bound k held)
    (room : HasRoom bound held) (t new : ℕ) (pos : 0 < t) (small : new < 32) where
  abbrev old : ℕ
  old = ready (k.priority t)

  -- The task is ready.
  module _ (e : k.mem.container (state_item t) ≡ old) where
    inside : has (state_item t) (held old) ≡ true
    inside = v.homes old (state_item t) (omega arith) (omega (arith, v.in_range t, v.wide)) e

    abbrev left : ℕ → List ℕ
    left = update held old (erase (state_item t) (held old))

    abbrev lowered : Kernel
    lowered = record k {
      mem = (KernelList.remove (state_item t) k.mem).1;
      priority = update k.priority t new;
    }

    below : old < bound
    below = omega (arith, v.in_range t, v.wide)

    free : IsFree lowered.mem (state_item t)
    free = leave-IsFree v old (state_item t) (omega arith) below inside

    lowered-IsValid : IsValid bound lowered left
    lowered-IsValid =
        priority-IsValid (leave-IsValid v old (state_item t) (omega arith) below inside) t new small
          (λ same. omega (arith, same, free.2))

    roomy : length (left (ready (lowered.priority t))) + 1 < 2 ^ 64
    roomy = ground (
      arith,
      room (ready new) (omega arith) (omega (arith, v.wide)),
      room old (omega arith) below,
      length-erase (state_item t) (held old),
    )

    now : lowered.priority t ≡ new
    now = ground arith

    remaining :
        (l x : ℕ)
        → 0 < l
        → l < bound
        → has x (left l)
          ≡ (if x == state_item t && k.mem.container x == old then false else has x (held l))
    remaining l x po lo = ground (
      arith,
      has-erase x (state_item t) (held old) (v.lists old (omega arith) below).distinct,
      v.homes l x po lo,
      (v.lists l po lo).items x,
    )

    members :
        (l x : ℕ)
        → 0 < l
        → l < bound
        → has x (with_ready t lowered left l) ≡ (
            if x == state_item t && k.mem.container x == old
            then l == ready new
            else has x (held l))
    members l x po lo = rw now (elim (==_decides l (ready new)) [
      | inl same ↦ rw same (
          ground (
            arith,
            remaining (ready new) x (omega arith) (omega arith),
            has-insert_before x (lowered.mem.index (ready new)) (state_item t) (left (ready new)),
          ))
      | inr other ↦ ground (arith, remaining l x po lo)
    ])

    raised : Reprioritised bound k (add_to_ready t lowered) held t new
    unfolding add_to_ready
    raised = record {
      after = with_ready t lowered left;
      valid = add_to_ready-IsValid lowered-IsValid t free roomy;
      priorities = λ u. refl;
      members = members;
    }

  -- `prvReprioritise` gives the task its new priority, moves it from one ready list to the other if it
  -- is ready, and keeps the scheduler valid.
  pub reprioritise-Reprioritised : Reprioritised bound k (reprioritise t new k) held t new
  unfolding reprioritise
  reprioritise-Reprioritised = elim (Bool-cases (k.mem.container (state_item t) == old)) [
    | inl e ↦ rw e (raised (ground (arith, e)))
    | inr e ↦ rw e (record {
      after = held;
      valid = priority-IsValid v t new small (ground arith);
      priorities = λ u. refl;
      members = λ l x po lo. ground arith;
    })
  ]

  -- A task that is given the priority that it has stays where it is.
  kept-Reprioritised : new ≡ k.priority t → Reprioritised bound k k held t new
  kept-Reprioritised e = record {
    after = held;
    valid = v;
    priorities = λ u. ground arith;
    members = λ l x po lo. ground (arith, v.homes l x po lo, (v.lists l po lo).items x);
  }

module _ {bound : ℕ} {k : Kernel} {held : ℕ → List ℕ} (v : IsValid bound k held)
    (room : HasRoom bound held) (holder : ℕ) (pos : 0 < holder) where
  off : (holder == 0) ≡ false
  off = ground arith

  inherit_raised :
      0 < k.current
      → k.inherit_enabled ≡ true
      → ltb (k.priority holder) (k.priority k.current) ≡ true
      → priority_inherit holder k ≡ reprioritise holder (k.priority k.current) k
  unfolding priority_inherit reprioritise
  inherit_raised running on up =
      let idle : (k.current == 0) ≡ false = ground arith in rw (off, idle, on, up) refl

  inherit_kept :
      ltb (k.priority holder) (k.priority k.current) ≡ false → priority_inherit holder k ≡ k
  unfolding priority_inherit
  inherit_kept down = elim (Bool-cases (holder == 0 || k.current == 0)) [
    | inl e ↦ rw e refl
    | inr e ↦ elim (Bool-cases k.inherit_enabled) [
      | inl on ↦ rw (e, on, down) refl
      | inr on ↦ rw (e, on) refl
    ]
  ]

  -- In a valid scheduler whose lists have room, with priority inheritance on, a task running and a
  -- holder that is not NULL, `vTaskPriorityInherit` leaves the holder at the
  -- higher of its own priority and the running task's, and in the ready list of that one if it is ready;
  -- nothing else moves, and the scheduler stays valid.
  pub priority_inherit-Reprioritised :
      0 < k.current
      → k.inherit_enabled ≡ true
      → Reprioritised bound k
          (priority_inherit holder k)
          held
          holder
          (max (k.priority holder) (k.priority k.current))
  priority_inherit-Reprioritised running on =
      elim (Bool-cases (ltb (k.priority holder) (k.priority k.current))) [
        | inl up ↦
            let e : max (k.priority holder) (k.priority k.current) ≡ k.priority k.current =
              ground arith in
            rw (inherit_raised running on up, e)
              (reprioritise-Reprioritised v room holder (k.priority k.current) pos
                (v.in_range k.current))
        | inr down ↦
            let e : max (k.priority holder) (k.priority k.current) ≡ k.priority holder =
              ground arith in
            rw (inherit_kept down, e)
              (kept-Reprioritised v room holder (k.priority holder) pos (v.in_range holder) refl)
      ]

  disinherit_kept :
      (k.priority holder == k.base_priority holder) ≡ true
      → priority_disinherit holder k ≡ (false, k)
  unfolding priority_disinherit
  disinherit_kept same = rw (off, same) refl

  disinherit_moved :
      (k.priority holder == k.base_priority holder) ≡ false
      → priority_disinherit holder k ≡ (true, reprioritise holder (k.base_priority holder) k)
  unfolding priority_disinherit reprioritise
  disinherit_moved apart = rw (off, apart) refl

  -- In a valid scheduler whose lists have room, `vTaskPriorityDisinherit` brings a holder that is not
  -- NULL back to its base priority, which is below 32, and to that one's ready list
  -- if it is ready, and answers whether there was a change; nothing else moves, and the scheduler stays
  -- valid.
  pub priority_disinherit-Reprioritised :
      k.base_priority holder < 32
      → ((priority_disinherit holder k).0 ≡ not (k.priority holder == k.base_priority holder))
        × Reprioritised bound k
            (priority_disinherit holder k).1
            held
            holder
            (k.base_priority holder)
  priority_disinherit-Reprioritised small =
      elim (Bool-cases (k.priority holder == k.base_priority holder)) [
        | inl same ↦
            rw (disinherit_kept same, same)
              (
                refl,
                kept-Reprioritised v room holder (k.base_priority holder) pos small (ground arith),
              )
        | inr apart ↦
            rw (disinherit_moved apart, apart)
              (refl, reprioritise-Reprioritised v room holder (k.base_priority holder) pos small)
      ]
