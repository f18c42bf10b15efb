-- ===== src/Tasks/Wake.antt =====
-- `xTaskRemoveFromEventList` and the round of `xTaskIncrementTick`: a task becomes ready.
use flint_rtos.Base.{
  ℕ, ◌+◌, ◌^◌, ◌≤◌, ◌<◌, ◌≡◌, ◌≢◌, ◌∙◌, inl, inr, arith, refl, ap, List, true, false, ◌==◌, ltb,
  if◌then◌else◌, update, length, Bool-cases,
}
use flint_rtos.KernelList
use flint_rtos.KernelList.{Memory, max_delay, is_empty, head_entry, set_value, set_owner}
use flint_rtos.KernelList.Seq.{has, erase, length-erase, length-insert_before, length-has}
use flint_rtos.KernelList.Splice.{Joined, insert_end-Joined}
use flint_rtos.KernelList.Rotate.{head_entry-has}
use flint_rtos.Tasks.{
  Kernel, ready, state_item, event_item, delayed, add_to_ready, remove_from_event_list, wake,
}
use flint_rtos.Tasks.Valid.{IsValid, with_mem}
use flint_rtos.Tasks.Moves.{leave-IsValid, leave-Left}
use flint_rtos.Tasks.Ready.{with_ready, add_to_ready-IsValid}

-- In `m` the item `x` is in no list, and all others are where they are in `k`.
record Out (bound : ℕ) (k : Kernel) (held : ℕ → List ℕ) (x : ℕ) (m : Memory) : Type 0 where
  after : ℕ → List ℕ
  valid : IsValid bound (with_mem m k) after
  containers : (a : ℕ) → m.container a ≡ (if a == x then 0 else k.mem.container a)
  shorter : (l : ℕ) → length (after l) ≤ length (held l)
  counted : m.count delayed + (if k.mem.container x == delayed then 1 else 0) ≡ k.mem.count delayed
  values : m.value ≡ k.mem.value

module _ {bound : ℕ} {k : Kernel} {held : ℕ → List ℕ} (v : IsValid bound k held) (x : ℕ) where
  leave-Out : 0 < k.mem.container x → Out bound k held x (KernelList.remove x k.mem).1
  leave-Out listed =
      let l = k.mem.container x in
      let inside = v.homes l x listed (v.inside x) refl in
      let left = leave-Left v l x listed (v.inside x) inside in
      record {
        after = update held l (erase x (held l));
        valid = leave-IsValid v l x listed (v.inside x) inside;
        containers = left.containers;
        shorter = λ o. ground (arith, length-erase x (held l));
        counted = ground (
          arith,
          left.counts delayed,
          (v.lists l listed (v.inside x)).count,
          (v.lists l listed (v.inside x)).small,
          length-has x (held l) inside,
        );
        values = left.values;
      }

  -- What `xTaskIncrementTick` does with the event item.
  leave_if-Out :
      Out bound k held x (if k.mem.container x == 0 then k.mem else (KernelList.remove x k.mem).1)
  leave_if-Out = elim (Bool-cases (k.mem.container x == 0)) [
    | inl none_here ↦ rw none_here (record {
      after = held;
      valid = v;
      containers = λ a. ground arith;
      shorter = λ l. ground arith;
      counted = ground arith;
      values = refl;
    })
    | inr some_here ↦ rw some_here (leave-Out (ground arith))
  ]

-- In `k'` the task `t` of `k` is ready and waits on no list, and all other items are where they were, with
-- the values that they had.
pub record Woken (bound : ℕ) (k k' : Kernel) (held : ℕ → List ℕ) (t : ℕ) : Type 0 where
  pub after : ℕ → List ℕ
  pub valid : IsValid bound k' after
  pub moved :
      (a : ℕ)
      → k'.mem.container a ≡ (
          if a == state_item t
          then ready (k.priority t)
          else if a == event_item t
          then 0
          else k.mem.container a)
  pub priorities : k'.priority ≡ k.priority
  pub same_tick : k'.tick ≡ k.tick
  pub values : (a : ℕ) → a ≢ state_item t → k'.mem.value a ≡ k.mem.value a
  pub grown : (l : ℕ) → length (after l) ≤ length (held l) + 1
  pub counted :
      k'.mem.count delayed + (if k.mem.container (state_item t) == delayed then 1 else 0)
      ≡ k.mem.count delayed

add_to_ready-Joined :
    (t : ℕ) (k : Kernel)
    → Joined
        (set_owner (state_item t) t (set_value (state_item t) (k.priority t) k.mem))
        (add_to_ready t k).mem
        (ready (k.priority t))
        (state_item t)
unfolding add_to_ready
add_to_ready-Joined t k =
    insert_end-Joined (ready (k.priority t)) (state_item t)
      (set_owner (state_item t) t (set_value (state_item t) (k.priority t) k.mem))

-- No event item is in the delayed list.
event_away :
    {bound : ℕ} {k : Kernel} {held : ℕ → List ℕ}
    → IsValid bound k held
    → (t : ℕ) → (k.mem.container (event_item t) == delayed) ≡ false
event_away {k = k} v t = elim (Bool-cases (k.mem.container (event_item t) == delayed)) [
  | inl e ↦
      let at : k.mem.container (event_item t) ≡ delayed = ground arith in
      let place =
        v.placed delayed (event_item t) (omega arith) (omega (arith, v.wide))
          (v.homes delayed (event_item t) (omega arith) (omega (arith, v.wide)) at) in
      absurd (omega (arith, place.kind))
  | inr ne ↦ ne
]

add_to_ready_same :
    (t : ℕ) (k : Kernel)
    → ((add_to_ready t k).priority ≡ k.priority) × ((add_to_ready t k).tick ≡ k.tick)
unfolding add_to_ready
add_to_ready_same t k = (refl, refl)

module _ {bound : ℕ} {k : Kernel} {held : ℕ → List ℕ} (v : IsValid bound k held) (t : ℕ)
    (pos : 0 < t) (room : length (held (ready (k.priority t))) + 1 < 2 ^ 64) where
  -- From both lists to the ready list.
  ready_again-Woken :
      (m : Memory) (out : ℕ → List ℕ)
      → IsValid bound (with_mem m k) out
      → ((a : ℕ)
          → m.container a
            ≡ (if a == state_item t then 0 else if a == event_item t then 0 else k.mem.container a))
      → ((l : ℕ) → length (out l) ≤ length (held l))
      → m.count delayed + (if k.mem.container (state_item t) == delayed then 1 else 0)
        ≡ k.mem.count delayed
      → m.value ≡ k.mem.value
      → Woken bound k (add_to_ready t (with_mem m k)) held t
  ready_again-Woken m out valid containers shorter counted values =
      let j = add_to_ready-Joined t (with_mem m k) in
      let same = add_to_ready_same t (with_mem m k) in
      let l : ℕ = ready (k.priority t) in
      record {
        after = with_ready t (with_mem m k) out;
        valid =
            add_to_ready-IsValid valid t
              (omega arith, omega arith, ground (arith, containers (state_item t)))
              (omega (arith, room, shorter l));
        moved = λ a. ground (arith, j.containers a, containers a);
        priorities = same.0;
        same_tick = same.1;
        values = λ a away. ap (λ f. f a) j.values ∙ (ground (arith, away) ∙ ap (λ f. f a) values);
        grown =
            λ o. ground (arith, shorter o, length-insert_before (m.index l) (state_item t) (out l));
        counted = ground (arith, j.counts delayed, counted, v.in_range t);
      }

  module _ (listed : 0 < k.mem.container (state_item t)) where
    -- The state item goes first, then the event item if it is in a list.
    pub wake-Woken : (item : ℕ) → k.mem.owner item ≡ t → Woken bound k (wake item k) held t
    unfolding wake
    wake-Woken item own =
        let o = leave-Out v (state_item t) listed in
        let q = leave_if-Out o.valid (event_item t) in
        rw own (
          ready_again-Woken _ q.after q.valid (λ a. ground (arith, q.containers a, o.containers a))
            (λ l. omega (arith, q.shorter l, o.shorter l))
            (ground (arith, q.counted, o.counted, event_away o.valid t)) (q.values ∙ o.values))

module _ {bound : ℕ} {k : Kernel} {held : ℕ → List ℕ} (v : IsValid bound k held) (l : ℕ)
    (waiting : 35 ≤ l) (lt : l < bound) where
  -- With no task waiting on the list, `xTaskRemoveFromEventList` does nothing.
  remove_from_event_list-nil : is_empty l k.mem ≡ true → remove_from_event_list l k ≡ (false, k)
  unfolding remove_from_event_list
  remove_from_event_list-nil e = rw e refl

  module _ (some_wait : is_empty l k.mem ≡ false) where
    abbrev first : ℕ
    first = k.mem.owner (head_entry l k.mem)

    head-in : has (head_entry l k.mem) (held l) ≡ true
    head-in = head_entry-has (v.lists l (omega arith) lt) some_wait

    head-event : head_entry l k.mem ≡ event_item first
    head-event =
        let place = v.placed l (head_entry l k.mem) (omega arith) lt head-in in
        ground (arith, place.kind, place.owned)

    -- In a valid scheduler with a task waiting on the list at `l`, whose head is the event item of a
    -- task with its state item in some list and with room in its ready list, `xTaskRemoveFromEventList` takes that task off the list, makes it ready and moves no
    -- other item, keeps the scheduler valid, and answers whether the task has a higher priority than the
    -- running one.
    pub remove_from_event_list-Woken :
        0 < first
        → length (held (ready (k.priority first))) + 1 < 2 ^ 64
        → 0 < k.mem.container (state_item first)
        → Woken bound k (remove_from_event_list l k).1 held first
          × ((remove_from_event_list l k).0 ≡ ltb (k.priority k.current) (k.priority first))
    unfolding remove_from_event_list
    remove_from_event_list-Woken pos room listed =
        let at = (v.lists l (omega arith) lt).items (head_entry l k.mem) head-in in
        let o = leave-Out v (event_item first) (omega (arith, at, ap k.mem.container head-event)) in
        let q =
          leave-Out o.valid (state_item first) (ground (arith, o.containers (state_item first))) in
        rw some_wait (
          ready_again-Woken v first pos room _ q.after q.valid
              (λ a. ground (arith, q.containers a, o.containers a))
              (λ l. omega (arith, q.shorter l, o.shorter l))
              (ground
                (arith, q.counted, o.counted, o.containers (state_item first), event_away v first))
              (q.values ∙ o.values),
          refl,
        )
