-- ===== src/Tasks/Moves.antt =====
-- The single moves of which the scheduler's functions consist: an item leaves a list, joins one, or
-- is written while it is in none.
use flint_rtos.Base.{
  ℕ, ◌+◌, ◌/◌, ◌%◌, ◌^◌, ◌≤◌, ◌<◌, ◌≡◌, ◌≢◌, ◌⊎◌, inl, inr, arith, ap, sym, ◌∙◌, subst, List, true,
  ◌==◌, if◌then◌else◌, update, length, Bool-cases, some,
}
use flint_rtos.KernelList
use flint_rtos.KernelList.{Memory, max_delay, insert_end, set_value, set_owner}
use flint_rtos.KernelList.Seq.{
  has, insert_before, insert_sorted, erase, has-insert_before, has-insert_sorted, has-erase,
}
use flint_rtos.KernelList.Valid.{IsFree}
use flint_rtos.KernelList.Insert.{Holds, insert_end-Holds, insert-Holds}
use flint_rtos.KernelList.Remove.{Left, remove-Holds}
use flint_rtos.KernelList.Splice.{Joined, insert_end-Joined}
use flint_rtos.KernelList.Fields.{set_value-Holds, set_owner-Holds}
use flint_rtos.Tasks.{Kernel, ready, state_item}
use flint_rtos.Tasks.Valid.{Placed, IsValid, with_mem}

module _ {bound : ℕ} {k : Kernel} {held : ℕ → List ℕ} (v : IsValid bound k held) where
  -- An item leaves the list that holds it.
  module _ (l x : ℕ) (pos : 0 < l) (lt : l < bound) (h : has x (held l) ≡ true) where
    abbrev m' : Memory
    m' = (KernelList.remove x k.mem).1

    r :
        Holds m' bound (update held l (erase x (held l)))
        × IsFree m' x
        × ((KernelList.remove x k.mem).0 ≡ length (erase x (held l)))
        × Left k.mem m' l x
    r = remove-Holds v.lists l x pos lt h

    stays : (o y : ℕ) → has y (update held l (erase x (held l)) o) ≡ true → has y (held o) ≡ true
    stays o y e = elim (Bool-cases (o == l)) [
      | inl same ↦ ground (arith, has-erase y x (held l) (v.lists l pos lt).distinct)
      | inr other ↦ ground arith
    ]

    pub leave-IsFree : IsFree m' x
    leave-IsFree = r.1

    pub leave-Left : Left k.mem m' l x
    leave-Left = r.3

    pub leave-IsValid : IsValid bound (with_mem m' k) (update held l (erase x (held l)))
    leave-IsValid = record {
      lists = r.0;
      wide = v.wide;
      words = λ a. subst (λ f. f a ≤ max_delay) (sym r.3.values) (v.words a);
      placed = λ o y po lo e.
          let old = v.placed o y po lo (stays o y e) in
          record {
            owned = ap (λ f. f y) r.3.owners ∙ old.owned;
            kind = old.kind;
            level = old.level;
          };
      homes = λ o y po lo e. ground (
        arith,
        r.3.containers y,
        v.homes o y po lo,
        has-erase y x (held l) (v.lists l pos lt).distinct,
      );
      inside = λ y. ground (arith, r.3.containers y, v.inside y);
      in_range = v.in_range;
      top_in = v.top_in;
      top = λ p y above in_range e. v.top p y above in_range (stays (ready p) y e);
    }

  -- An item that is in no list joins one, whichever function links it in.
  module _ {m' : Memory} (xs : List ℕ) (l x : ℕ) (pos : 0 < l) (lt : l < bound)
      (place : Placed k l x) (below_top : (p : ℕ) → ready p ≡ l → p < 32 → p ≤ k.top_ready)
      (lists : Holds m' bound (update held l xs))
      (member : (y : ℕ) → has y xs ≡ (if y == x then true else has y (held l)))
      (j : Joined k.mem m' l x) where
    cases :
        (o y : ℕ)
        → has y (update held l xs o) ≡ true
        → ((o ≡ l) × (y ≡ x)) ⊎ (has y (held o) ≡ true)
    cases o y e = ground (arith, member y)

    join-IsValid : IsValid bound (with_mem m' k) (update held l xs)
    join-IsValid = record {
      lists = lists;
      wide = v.wide;
      words = λ a. subst (λ f. f a ≤ max_delay) (sym j.values) (v.words a);
      placed = λ o y po lo e.
          let old = placed o y po lo e in
          record { owned = ap (λ f. f y) j.owners ∙ old.owned; kind = old.kind; level = old.level };
      homes = λ o y po lo e. ground (arith, j.containers y, v.homes o y po lo, member y);
      inside = λ y. ground (arith, j.containers y, v.inside y);
      in_range = v.in_range;
      top_in = v.top_in;
      top = λ p y above in_range e. elim (cases (ready p) y e) [
        | inl (eo, ey) ↦ omega (arith, below_top p eo in_range)
        | inr old ↦ v.top p y above in_range old
      ];
    }
      where
        placed : (o y : ℕ) → 0 < o → o < bound → has y (update held l xs o) ≡ true → Placed k o y
        placed o y po lo e = elim (cases o y e) [
          | inl (eo, ey) ↦ rw (eo, ey) place
          | inr old ↦ v.placed o y po lo old
        ]

  module _ (l x : ℕ) (pos : 0 < l) (lt : l < bound) (place : Placed k l x)
      (below_top : (p : ℕ) → ready p ≡ l → p < 32 → p ≤ k.top_ready) (free : IsFree k.mem x)
      (room : length (held l) + 1 < 2 ^ 64) where
    pub join_end-IsValid :
        IsValid bound
          (with_mem (insert_end l x k.mem) k)
          (update held l (insert_before (k.mem.index l) x (held l)))
    join_end-IsValid =
        join-IsValid _ l x pos lt place below_top (insert_end-Holds v.lists l x pos lt free room)
          (λ y. ground (arith, has-insert_before y (k.mem.index l) x (held l)))
          (insert_end-Joined l x k.mem)

    pub join_sorted-IsValid :
        (m' : Memory) × (KernelList.insert l x k.mem ≡ some m')
        × Joined k.mem m' l x
        × IsValid bound
            (with_mem m' k)
            (update held l (insert_sorted k.mem.value (k.mem.value x) x (held l)))
    join_sorted-IsValid =
        let (m', e, j, lists) = insert-Holds v.lists l x pos lt free room v.words in
        (
          m',
          e,
          j,
          join-IsValid _ l x pos lt place below_top lists
              (λ y. ground (arith, has-insert_sorted k.mem.value (k.mem.value x) y x (held l))) j,
        )

  pub write_value-IsValid :
      (x w : ℕ) → x % 2 ≡ 0 → w ≤ max_delay → IsValid bound (with_mem (set_value x w k.mem) k) held
  write_value-IsValid x w even small = record {
    lists = set_value-Holds v.lists x w even;
    wide = v.wide;
    words = λ a. ground (arith, v.words a);
    placed = λ o y po lo e.
        let old = v.placed o y po lo e in
        record { owned = old.owned; kind = old.kind; level = old.level };
    homes = v.homes;
    inside = v.inside;
    in_range = v.in_range;
    top_in = v.top_in;
    top = v.top;
  }

  pub write_owner-IsValid :
      (t : ℕ) → IsValid bound (with_mem (set_owner (state_item t) t k.mem) k) held
  write_owner-IsValid t = record {
    lists = set_owner-Holds v.lists (state_item t) t;
    wide = v.wide;
    words = v.words;
    placed = λ o y po lo e.
        let old = v.placed o y po lo e in
        record { owned = ground (arith, old.owned); kind = old.kind; level = old.level };
    homes = v.homes;
    inside = v.inside;
    in_range = v.in_range;
    top_in = v.top_in;
    top = v.top;
  }

  -- A task that stands in no ready list is given a new priority.
  pub priority-IsValid :
      (t new : ℕ)
      → new < 32
      → k.mem.container (state_item t) ≢ ready (k.priority t)
      → IsValid bound (record k { priority = update k.priority t new }) held
  priority-IsValid t new small away = record {
    lists = v.lists;
    wide = v.wide;
    words = v.words;
    placed = λ o y po lo e.
        let old = v.placed o y po lo e in
        record { owned = old.owned; kind = old.kind; level = level o y po lo e };
    homes = v.homes;
    inside = v.inside;
    in_range = λ u. ground (arith, v.in_range u);
    top_in = v.top_in;
    top = v.top;
  }
    where
      level :
          (o y : ℕ)
          → 0 < o
          → o < bound
          → has y (held o) ≡ true
          → (33 ≤ o) ⊎ (update k.priority t new (y / 4) + 1 ≡ o)
      level o y po lo e = ground (arith, v.placed o y po lo e, (v.lists o po lo).items y e)

  pub raise_top-IsValid :
      (p : ℕ) → k.top_ready ≤ p → p < 32 → IsValid bound (record k { top_ready = p }) held
  raise_top-IsValid p up small = record {
    lists = v.lists;
    wide = v.wide;
    words = v.words;
    placed = λ o y po lo e.
        let old = v.placed o y po lo e in
        record { owned = old.owned; kind = old.kind; level = old.level };
    homes = v.homes;
    inside = v.inside;
    in_range = v.in_range;
    top_in = small;
    top = λ q y above in_range e. v.top q y (omega arith) in_range e;
  }
