-- ===== src/Tasks/Tick.antt =====
-- `xTaskIncrementTick`: the tick count goes on, and delayed tasks wake up.
use flint_rtos.Base.{
  ℕ, zero, suc, ◌+◌, ◌%◌, ◌^◌, ◌≤◌, ◌<◌, ◌≡◌, ◌⊎◌, inl, inr, arith, refl, ap, sym, ◌∙◌, List, true,
  false, ◌||◌, ltb, length, Bool-cases, ==_decides, ◌≢◌, some,
}
use flint_rtos.KernelList.{is_empty, head_entry}
use flint_rtos.KernelList.Seq.{has}
use flint_rtos.KernelList.Rotate.{head_entry-has}
use flint_rtos.Tasks.{
  Kernel, ready, state_item, event_item, delayed, wake, wake_loop, increment_tick,
}
use flint_rtos.Tasks.Valid.{Placed, IsValid}
use flint_rtos.Tasks.Wake.{Woken, wake-Woken}

-- Task `t` is where it was, or it was in the delayed list with a wake time that is not above the tick count,
-- and is now ready and waits on no list.
abbrev pub StaysOrWakes : Kernel → Kernel → ℕ → Type 0
StaysOrWakes k k' t =
    ((k'.mem.container (state_item t) ≡ k.mem.container (state_item t))
      × (k'.mem.container (event_item t) ≡ k.mem.container (event_item t)))
    ⊎ ((k.mem.container (state_item t) ≡ delayed)
        × (k.mem.value (state_item t) ≤ k.tick)
        × (k'.mem.container (state_item t) ≡ ready (k.priority t))
        × (k'.mem.container (event_item t) ≡ 0))

-- From `k` the loop of a tick leads to `k'`.
pub record Ticked (bound : ℕ) (k k' : Kernel) : Type 0 where
  pub after : ℕ → List ℕ
  pub valid : IsValid bound k' after
  pub none_due :
      (is_empty delayed k'.mem || ltb k.tick (k'.mem.value (head_entry delayed k'.mem))) ≡ true
  pub tasks : (t : ℕ) → StaysOrWakes k k' t
  pub priorities : k'.priority ≡ k.priority
  pub same_tick : k'.tick ≡ k.tick

-- The task at the head of a delayed list that is not empty wakes up.
module _ {bound : ℕ} {k : Kernel} {held : ℕ → List ℕ} (v : IsValid bound k held)
    (some_wait : is_empty delayed k.mem ≡ false) where
  abbrev item : ℕ
  item = head_entry delayed k.mem

  abbrev first : ℕ
  first = k.mem.owner item

  below : delayed < bound
  below = omega (arith, v.wide)

  head-in : has item (held delayed) ≡ true
  head-in = head_entry-has (v.lists delayed (omega arith) below) some_wait

  place : Placed k delayed item
  place = v.placed delayed item (omega arith) below head-in

  node : (item % 2 ≡ 0) × (0 < item) × (k.mem.container item ≡ delayed)
  node = (v.lists delayed (omega arith) below).items item head-in

  head-state : item ≡ state_item first
  head-state = ground (arith, place.kind, place.owned)

  first-pos : 0 < first
  first-pos = omega (arith, head-state, node)

  head-delayed : k.mem.container (state_item first) ≡ delayed
  head-delayed = ap k.mem.container (sym head-state) ∙ node.2

  head-Woken :
      ((l : ℕ) → 0 < l → l < bound → length (held l) + 1 < 2 ^ 64)
      → Woken bound k (wake item k) held first
  head-Woken room =
      wake-Woken v first first-pos
        (room (ready (k.priority first)) (omega arith) (omega (arith, v.in_range first, v.wide)))
        (omega (arith, head-delayed)) item refl

Ticked-wake :
    {bound : ℕ} {k k1 k' : Kernel} {held : ℕ → List ℕ} (t : ℕ)
    → Woken bound k k1 held t
    → k.mem.container (state_item t) ≡ delayed
    → k.priority t < 32
    → k.mem.value (state_item t) ≤ k.tick
    → Ticked bound k1 k'
    → Ticked bound k k'
Ticked-wake {k = k} {k1} {k'} t w at small due r = record {
  after = r.after;
  valid = r.valid;
  none_due = ground (arith, r.none_due, w.same_tick);
  tasks = λ u. elim (==_decides u t) [
    | inl e ↦ woken u e (r.tasks u)
    | inr ne ↦ other u ne (r.tasks u)
  ];
  priorities = r.priorities ∙ w.priorities;
  same_tick = r.same_tick ∙ w.same_tick;
}
  where
    woken : (u : ℕ) → u ≡ t → StaysOrWakes k1 k' u → StaysOrWakes k k' u
    woken u e (inl (es, ee)) = inr (
      rw e at,
      rw e due,
      ground (arith, es, w.moved (state_item u)),
      ground (arith, ee, w.moved (event_item u)),
    )
    woken u e (inr (was, late, now, off)) = absurd (ground (arith, was, w.moved (state_item u)))

    other : (u : ℕ) → u ≢ t → StaysOrWakes k1 k' u → StaysOrWakes k k' u
    other u ne (inl (es, ee)) =
        inl (ground (arith, es, w.moved (state_item u)), ground (arith, ee, w.moved (event_item u)))
    other u ne (inr (was, late, now, off)) = inr (
      ground (arith, was, w.moved (state_item u)),
      ground (arith, late, w.same_tick, w.values (state_item u), ne),
      now ∙ ap (λ f. ready (f u)) w.priorities,
      off,
    )

-- No delayed task is due.
at_rest :
    {bound : ℕ} {k : Kernel} {held : ℕ → List ℕ}
    → IsValid bound k held
    → (is_empty delayed k.mem || ltb k.tick (k.mem.value (head_entry delayed k.mem))) ≡ true
    → Ticked bound k k
at_rest {held = held} v due = record {
  after = held;
  valid = v;
  none_due = due;
  tasks = λ t. inl (refl, refl);
  priorities = refl;
  same_tick = refl;
}

wake_loop-Ticked :
    {bound : ℕ} (fuel : ℕ) (k : Kernel) (held : ℕ → List ℕ)
    → IsValid bound k held
    → ((l : ℕ) → 0 < l → l < bound → length (held l) + fuel < 2 ^ 64)
    → k.mem.count delayed < fuel
    → (k' : Kernel) × (wake_loop fuel k ≡ some k') × Ticked bound k k'
unfolding wake_loop
wake_loop-Ticked zero k held v room enough = absurd (omega arith)
wake_loop-Ticked (suc fuel) k held v room enough = elim (Bool-cases (is_empty delayed k.mem)) [
  | inl nothing ↦ rw nothing (k, refl, at_rest v (rw nothing refl))
  | inr some_wait ↦ elim (Bool-cases (ltb k.tick (k.mem.value (head_entry delayed k.mem)))) [
    | inl later ↦ rw (some_wait, later) (k, refl, at_rest v (rw (some_wait, later) refl))
    | inr due ↦
        let w = head-Woken v some_wait (λ l pos lt. omega (arith, room l pos lt, enough)) in
        let at = head-delayed v some_wait in
        let (k', e, r) =
          wake_loop-Ticked fuel (wake (head_entry delayed k.mem) k) w.after w.valid
            (λ l pos lt. omega (arith, room l pos lt, w.grown l))
            (ground (arith, w.counted, at, enough)) in
        let late : k.mem.value (state_item (first v some_wait)) ≤ k.tick =
          ground (arith, due, ap k.mem.value (head-state v some_wait)) in
        rw (some_wait, due) (k', e, Ticked-wake _ w at (v.in_range _) late r)
  ]
]

-- The tick count is one further.
abbrev pub next_tick : Kernel → Kernel
next_tick k = record k { tick = (k.tick + 1) % 2 ^ 32 }

-- From a valid scheduler whose lists have room for the delayed tasks, `xTaskIncrementTick` ends, with the
-- tick count one further modulo 2 ^ 32; every task is where it was, or it was delayed until a tick that
-- is not above the new count and is now ready and off its waiting list; no task is left at the head of
-- the delayed list that is due; and the scheduler stays valid.
pub increment_tick-Ticked :
    {bound : ℕ} (k : Kernel) (held : ℕ → List ℕ)
    → IsValid bound k held
    → ((l : ℕ) → 0 < l → l < bound → length (held l) + (k.mem.count delayed + 1) < 2 ^ 64)
    → (k' : Kernel) × (increment_tick k ≡ some k') × Ticked bound (next_tick k) k'
unfolding increment_tick
increment_tick-Ticked {bound} k held v room =
    wake_loop-Ticked (k.mem.count delayed + 1) (next_tick k) held valid room (omega arith)
  where
    valid : IsValid bound (next_tick k) held
    valid = record {
      lists = v.lists;
      wide = v.wide;
      words = v.words;
      placed = λ l x po lo e.
          let old = v.placed l x po lo e in
          record { owned = old.owned; kind = old.kind; level = old.level };
      homes = v.homes;
      inside = v.inside;
      in_range = v.in_range;
      top_in = v.top_in;
      top = v.top;
    }
