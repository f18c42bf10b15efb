-- ===== src/Tasks/Switch.antt =====
-- `vTaskSwitchContext`: the task that runs next.
use flint_rtos.Base.{
  ℕ, zero, suc, ◌*◌, ◌/◌, ◌≤◌, ◌<◌, ◌≡◌, inl, inr, arith, ap, sym, ◌∙◌, subst, List, true, false,
  leb, Bool-cases, ==_decides,
}
use flint_rtos.KernelList.{Memory, max_delay, is_empty, owner_of_next_entry}
use flint_rtos.KernelList.Seq.{has}
use flint_rtos.KernelList.Rotate.{
  is_empty-nil, owner_of_next_entry-has, owner_of_next_entry-Holds, owner_of_next_entry-Turned,
  Turned,
}
use flint_rtos.Tasks.{Kernel, ready, state_item, highest_ready, switch_context}
use flint_rtos.Tasks.Valid.{IsValid}

-- The loop stops at the highest list that is not empty, at or below where it starts.
highest_ready_found :
    (m : Memory) (p q : ℕ)
    → q ≤ p
    → is_empty (ready q) m ≡ false
    → (is_empty (ready (highest_ready m p)) m ≡ false)
      × (q ≤ highest_ready m p)
      × (highest_ready m p ≤ p)
unfolding highest_ready
highest_ready_found m zero q le h =
    let e : q ≡ 0 = omega arith in (rw e at h, omega arith, omega arith)
highest_ready_found m (suc p) q le h = elim (Bool-cases (is_empty (ready (suc p)) m)) [
  | inl none_here ↦ elim (==_decides q (suc p)) [
    | inl e ↦ absurd (ground arith)
    | inr ne ↦
        let r = highest_ready_found m p q (omega arith) h in
        rw none_here (r.0, r.1, omega (arith, r.2))
  ]
  | inr some_here ↦ rw some_here (some_here, le, omega arith)
]

highest_ready_above :
    (m : Memory) (p q : ℕ) → highest_ready m p < q → q ≤ p → is_empty (ready q) m ≡ true
unfolding highest_ready
highest_ready_above m zero q lt le = absurd (omega arith)
highest_ready_above m (suc p) q lt le = elim (Bool-cases (is_empty (ready (suc p)) m)) [
  | inl none_here ↦ elim (==_decides q (suc p)) [
    | inl e ↦ rw e none_here
    | inr ne ↦ highest_ready_above m p q (rw none_here at lt) (omega arith)
  ]
  | inr some_here ↦ absurd (omega (arith, rw some_here at lt))
]

module _ {bound : ℕ} {k : Kernel} {held : ℕ → List ℕ} (v : IsValid bound k held) (q x : ℕ)
    (lt : q < 32) (ready_x : has x (held (ready q)) ≡ true) where
  not_empty : is_empty (ready q) k.mem ≡ false
  not_empty = elim (Bool-cases (is_empty (ready q) k.mem)) [
    | inl e ↦
        let nil = is_empty-nil (v.lists (ready q) (omega arith) (omega (arith, v.wide))) e in
        absurd (ground (arith, nil))
    | inr ne ↦ ne
  ]

  below_top : q ≤ k.top_ready
  below_top = elim (Bool-cases (leb q k.top_ready)) [
    | inl le ↦ ground arith
    | inr gt ↦ absurd (v.top q x (ground arith) lt ready_x)
  ]

  abbrev chosen : ℕ
  chosen = highest_ready k.mem k.top_ready

  found : (is_empty (ready chosen) k.mem ≡ false) × (q ≤ chosen) × (chosen ≤ k.top_ready)
  found = highest_ready_found k.mem k.top_ready q below_top not_empty

  abbrev turned : Memory
  turned = (owner_of_next_entry (ready chosen) k.mem).1

  t : Turned k.mem turned (ready chosen)
  t = owner_of_next_entry-Turned (ready chosen) k.mem

  above_empty : (p y : ℕ) → chosen < p → p < 32 → has y (held (ready p)) ≡ true → ⊥
  above_empty p y above in_range h = elim (Bool-cases (leb p k.top_ready)) [
    | inl le ↦
        let e = highest_ready_above k.mem k.top_ready p above (ground arith) in
        let nil = is_empty-nil (v.lists (ready p) (omega arith) (omega (arith, v.wide))) e in
        ground (arith, nil)
    | inr gt ↦ v.top p y (ground arith) in_range h
  ]

  -- With a task ready in a valid scheduler, a switch keeps the scheduler valid, and every list what it holds.
  pub switch_context-IsValid : IsValid bound (switch_context k) held
  unfolding switch_context
  switch_context-IsValid = record {
    lists =
        owner_of_next_entry-Holds v.lists (ready chosen) (omega arith)
          (omega (arith, v.wide, v.top_in, found)) found.0;
    wide = v.wide;
    words = λ a. subst (λ f. f a ≤ max_delay) (sym t.values) (v.words a);
    placed = λ l y pos below h.
        let old = v.placed l y pos below h in
        record { owned = ap (λ f. f y) t.owners ∙ old.owned; kind = old.kind; level = old.level };
    homes = λ l y po lo e. v.homes l y po lo (ap (λ f. f y) (sym t.containers) ∙ e);
    inside = λ y. subst (λ f. f y < bound) (sym t.containers) (v.inside y);
    in_range = v.in_range;
    top_in = omega (arith, found, v.top_in);
    top = above_empty;
  }

  picked : has (turned.index (ready chosen)) (held (ready chosen)) ≡ true
  picked =
      (owner_of_next_entry-has
        (v.lists (ready chosen) (omega arith) (omega (arith, v.wide, v.top_in, found))) found.0).0

  owner : (owner_of_next_entry (ready chosen) k.mem).0 ≡ k.mem.owner (turned.index (ready chosen))
  owner =
      (owner_of_next_entry-has
        (v.lists (ready chosen) (omega arith) (omega (arith, v.wide, v.top_in, found))) found.0).1

  -- With a task ready at priority `q` in a valid scheduler, the task that runs next is one whose state item stands in the
  -- ready list of its priority, which is at least `q`.
  pub switch_context-highest :
      let k' = switch_context k in
      (has (state_item k'.current) (held (ready (k'.priority k'.current))) ≡ true)
      × (q ≤ k'.priority k'.current)
  unfolding switch_context
  switch_context-highest =
      let i : ℕ = turned.index (ready chosen) in
      let place =
        v.placed (ready chosen) i (omega arith) (omega (arith, v.wide, v.top_in, found)) picked in
      let who : (owner_of_next_entry (ready chosen) k.mem).0 ≡ i / 4 = owner ∙ place.owned in
      let level : k.priority (i / 4) ≡ chosen = omega (arith, place.level, v.top_in, found) in
      let kind : 4 * (i / 4) ≡ i = ground (arith, place.kind, v.top_in, found) in
      rw (who, level, kind) (picked, found.1)
