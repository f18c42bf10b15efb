-- ===== src/Tasks/Block.antt =====
-- `vTaskDelay` and `vTaskPlaceOnEventList`: the running task stops being ready.
use flint_rtos.Base.{
  ℕ, ◌+◌, ◌%◌, ◌^◌, ◌≤◌, ◌<◌, ◌≡◌, inl, inr, arith, refl, ap, ◌∙◌, List, true, ◌==◌, if◌then◌else◌,
  update, length, Bool-cases, ltb, some,
}
use flint_rtos.KernelList
use flint_rtos.KernelList.{Memory, max_delay, set_value, insert_end}
use flint_rtos.KernelList.Seq.{has, erase, insert_before, insert_sorted, length-erase}
use flint_rtos.KernelList.Valid.{IsFree}
use flint_rtos.KernelList.Remove.{Left}
use flint_rtos.KernelList.Splice.{Joined, insert_end-Joined}
use flint_rtos.Tasks.{
  Kernel, state_item, event_item, delayed, suspended, add_ticks, ◌>>=◌, sleep, delay,
  place_on_event_list,
}
use flint_rtos.Tasks.Valid.{Placed, IsValid, HasRoom, with_mem}
use flint_rtos.Tasks.Moves.{
  leave-IsValid, leave-IsFree, leave-Left, join_end-IsValid, join_sorted-IsValid,
  write_value-IsValid,
}

-- The list items are in the lists that `home` tells.
abbrev pub Moved : Kernel → (ℕ → ℕ) → Type 0
Moved k home = (a : ℕ) → k.mem.container a ≡ home a

-- The running task of `k` waits in `k'` on the list at `l`, for `ticks` from now.
pub record Waits (bound : ℕ) (k k' : Kernel) (l ticks : ℕ) : Type 0 where
  pub after : ℕ → List ℕ
  pub valid : IsValid bound k' after
  pub moved : Moved k' (λ a.
      if a == state_item k.current
      then (if ticks == max_delay then suspended else delayed)
      else if a == event_item k.current
      then l
      else k.mem.container a)
  pub wakes : k'.mem.value (state_item k.current) ≡ (
      if ticks == max_delay then k.mem.value (state_item k.current) else (k.tick + ticks) % 2 ^ 32)

-- The state item, in no list, joins the delayed list.
module _ {bound : ℕ} {k : Kernel} {held : ℕ → List ℕ} (v : IsValid bound k held) (t ticks : ℕ)
    (owned : k.mem.owner (state_item t) ≡ t) (free : IsFree k.mem (state_item t))
    (room : length (held delayed) + 1 < 2 ^ 64) where
  abbrev timed : Kernel
  timed = with_mem (set_value (state_item t) (add_ticks k.tick ticks) k.mem) k

  timed-IsValid : IsValid bound timed held
  timed-IsValid =
      write_value-IsValid v (state_item t) (add_ticks k.tick ticks) (omega arith) (omega arith)

  place : Placed timed delayed (state_item t)
  place = record { owned = omega (arith, owned); kind = omega arith; level = inl (omega arith) }

  pub sleep-IsValid :
      (m' : Memory) × (sleep t ticks k k.mem ≡ some m')
      × Joined timed.mem m' delayed (state_item t)
      × IsValid bound (with_mem m' k) (
          update held delayed (
            insert_sorted timed.mem.value
              (timed.mem.value (state_item t))
              (state_item t)
              (held delayed)))
  unfolding sleep
  sleep-IsValid =
      join_sorted-IsValid timed-IsValid delayed (state_item t) (omega arith) (omega (arith, v.wide))
        place (λ p e lt. absurd (omega arith)) free room

module _ {bound : ℕ} {k : Kernel} {held : ℕ → List ℕ} (v : IsValid bound k held)
    (room : HasRoom bound held) (running : 0 < k.current)
    (listed : 0 < k.mem.container (state_item k.current)) where
  abbrev item : ℕ
  item = state_item k.current

  abbrev old_list : ℕ
  old_list = k.mem.container item

  inside : has item (held old_list) ≡ true
  inside = v.homes old_list item listed (v.inside item) refl

  abbrev gone : Kernel
  gone = with_mem (KernelList.remove item k.mem).1 k

  abbrev rest : ℕ → List ℕ
  rest = update held old_list (erase item (held old_list))

  gone-IsValid : IsValid bound gone rest
  gone-IsValid = leave-IsValid v old_list item listed (v.inside item) inside

  free : IsFree gone.mem item
  free = leave-IsFree v old_list item listed (v.inside item) inside

  owned : gone.mem.owner item ≡ k.current
  owned =
      let old = (v.placed old_list item listed (v.inside item) inside).owned in
      let same = (leave-Left v old_list item listed (v.inside item) inside).owners in
      omega (arith, old, ap (λ f. f item) same)

  rest-room : (l : ℕ) → 0 < l → l < bound → length (rest l) + 1 < 2 ^ 64
  rest-room l po lo =
      ground (
        arith,
        room l po lo,
        room old_list listed (v.inside item),
        length-erase item (held old_list),
      )

  delay-some :
      (ticks : ℕ) (m' : Memory)
      → 0 < ticks
      → sleep k.current ticks k gone.mem ≡ some m'
      → delay ticks k ≡ some (true, with_mem m' k)
  unfolding delay
  delay-some ticks m' some_ticks e =
      let on : ltb 0 ticks ≡ true = ground arith in
      rw on (ap (λ o. o >>= (λ m. some (true, with_mem m k))) e)

  -- In a valid scheduler whose lists have room, a running task that stands in some list and delays
  -- itself for a number of ticks that is not 0 goes into the delayed list, to wake that many ticks
  -- from now modulo 2 ^ 32; no other item moves, the scheduler stays valid, and the task yields.
  pub delay-Moved :
      (ticks : ℕ)
      → 0 < ticks
      → (k' : Kernel) × (held' : ℕ → List ℕ) × (delay ticks k ≡ some (true, k'))
        × Moved k' (λ a. if a == item then delayed else k.mem.container a)
        × (k'.mem.value item ≡ (k.tick + ticks) % 2 ^ 32)
        × IsValid bound k' held'
  unfolding sleep
  delay-Moved ticks some_ticks =
      let (m', e, j, valid) =
        sleep-IsValid gone-IsValid k.current ticks owned free
          (rest-room delayed (omega arith) (omega (arith, v.wide))) in
      let out = (leave-Left v old_list item listed (v.inside item) inside).containers in
      (
        with_mem m' k,
        _,
        delay-some ticks m' some_ticks e,
        λ a. ground (arith, j.containers a, out a),
        ap (λ f. f item) j.values ∙ ground arith,
        valid,
      )

  -- The second half of `vTaskPlaceOnEventList`, once the event item is in its list.
  module _ (ticks : ℕ) {m : Memory} {held2 : ℕ → List ℕ} (v2 : IsValid bound (with_mem m k) held2)
      (owned2 : m.owner item ≡ k.current) (free2 : IsFree m item)
      (room2 : (o : ℕ) → 0 < o → o < 35 → length (held2 o) + 1 < 2 ^ 64) where
    abbrev goal : ℕ
    goal = if ticks == max_delay then suspended else delayed

    abbrev wake_value : ℕ
    wake_value = if ticks == max_delay then m.value item else add_ticks k.tick ticks

    suspend-IsValid :
        IsValid bound
          (with_mem (insert_end suspended item m) k)
          (update held2 suspended (insert_before (m.index suspended) item (held2 suspended)))
    suspend-IsValid =
        join_end-IsValid v2 suspended item (omega arith) (omega (arith, v.wide))
          (record { owned = omega (arith, owned2); kind = omega arith; level = inl (omega arith) })
          (λ p e lt. absurd (omega arith)) free2 (room2 suspended (omega arith) (omega arith))

    wait-IsValid :
        (m' : Memory) × (held' : ℕ → List ℕ) × ((if ticks == max_delay
            then some (insert_end suspended item m)
            else sleep k.current ticks k m)
          ≡ some m')
        × ((a : ℕ) → m'.container a ≡ (if a == item then goal else m.container a))
        × (m'.value item ≡ wake_value)
        × IsValid bound (with_mem m' k) held'
    unfolding sleep
    wait-IsValid = elim (Bool-cases (ticks == max_delay)) [
      | inl e ↦
          let j = insert_end-Joined suspended item m in
          rw e (_, _, refl, j.containers, ap (λ f. f item) j.values, suspend-IsValid)
      | inr e ↦
          let (m', eq, j, valid) =
            sleep-IsValid v2 k.current ticks owned2 free2
              (room2 delayed (omega arith) (omega arith)) in
          rw e (m', _, eq, j.containers, ap (λ f. f item) j.values ∙ ground arith, valid)
    ]

  module _ (l : ℕ) (waiting : 35 ≤ l) (lt : l < bound)
      (away : k.mem.container (event_item k.current) ≡ 0)
      (own : k.mem.owner (event_item k.current) ≡ k.current) where
    abbrev event : ℕ
    event = event_item k.current

    left : Left k.mem gone.mem old_list item
    left = leave-Left v old_list item listed (v.inside item) inside

    abbrev queued : ℕ → List ℕ
    queued = update rest l (insert_sorted gone.mem.value (gone.mem.value event) event (rest l))

    event-Placed : Placed gone l event
    event-Placed = record {
      owned = omega (arith, own, ap (λ f. f event) left.owners);
      kind = ground arith;
      level = inl (omega arith);
    }

    event-queued :
        (m2 : Memory) × (KernelList.insert l event gone.mem ≡ some m2)
        × Joined gone.mem m2 l event
        × IsValid bound (with_mem m2 k) queued
    event-queued =
        join_sorted-IsValid gone-IsValid l event (omega arith) lt event-Placed
          (λ p e lt. absurd (omega arith))
          (omega arith, omega arith, ground (arith, left.containers event))
          (rest-room l (omega arith) lt)

    module _ (ticks : ℕ) where
      place-some :
          (m2 m3 : Memory)
          → KernelList.insert l event gone.mem ≡ some m2
          → (if ticks == max_delay
              then some (insert_end suspended item m2)
              else sleep k.current ticks k m2)
            ≡ some m3
          → place_on_event_list l ticks k ≡ some (with_mem m3 k)
      unfolding place_on_event_list
      place-some m2 m3 e2 e3 = rw e2 (ap (λ o. o >>= (λ m. some (with_mem m k))) e3)

      finish :
          (m2 : Memory)
          → KernelList.insert l event gone.mem ≡ some m2
          → Joined gone.mem m2 l event
          → IsValid bound (with_mem m2 k) queued
          → (k' : Kernel) × (place_on_event_list l ticks k ≡ some k') × Waits bound k k' l ticks
      finish m2 e2 j2 v2 =
          let (m3, h3, e3, c3, w3, v3) =
            wait-IsValid ticks v2 (ap (λ f. f item) j2.owners ∙ owned)
              (omega arith, omega arith, ground (arith, j2.containers item, free))
              (λ o po lo. ground (arith, rest-room o po)) in
          (
            with_mem m3 k,
            place-some m2 m3 e2 e3,
            record {
              after = h3;
              valid = v3;
              moved = λ a. ground (arith, c3 a, j2.containers a, left.containers a);
              wakes =
                  w3
                  ∙ ap (λ w. if ticks == max_delay then w else add_ticks k.tick ticks)
                      (ap (λ f. f item) j2.values ∙ ap (λ f. f item) left.values);
            },
          )

      -- In a valid scheduler whose lists have room, a running task that stands in some list, and whose
      -- event item is its own and in none, is placed on a waiting list: its event item joins that list, its state item joins the delayed list, to
      -- wake so many ticks from now modulo 2 ^ 32, or the suspended list if it waits for ever; no other
      -- item moves, and the scheduler stays valid.
      pub place_on_event_list-Waits :
          (k' : Kernel) × (place_on_event_list l ticks k ≡ some k') × Waits bound k k' l ticks
      place_on_event_list-Waits = let (m2, e2, j2, v2) = event-queued in finish m2 e2 j2 v2
