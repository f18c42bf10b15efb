-- ===== src/Tasks/Start.antt =====
-- `prvInitialiseTaskLists`: the scheduler before the first task.
use flint_rtos.Base.{
  ℕ, zero, suc, ◌+◌, ◌≤◌, ◌<◌, ◌≡◌, ◌≢◌, inl, inr, arith, refl, ap, true, ◌∙◌, List, [], ==_decides,
}
use flint_rtos.KernelList.{Memory, max_delay, initialise}
use flint_rtos.KernelList.Seq.{has}
use flint_rtos.KernelList.Valid.{IsList, Undisturbed, Undisturbed-IsList, initialise-IsList}
use flint_rtos.KernelList.Insert.{Holds}
use flint_rtos.Tasks.{Kernel, ready, delayed, suspended, initialise_ready, initialise_task_lists}
use flint_rtos.Tasks.Valid.{IsValid, with_mem}

abbrev pub none_held : ℕ → List ℕ
none_held l = []

initialise-Undisturbed :
    (l n : ℕ) (m : Memory) (xs : List ℕ)
    → l ≢ n
    → IsList m l xs
    → Undisturbed m (initialise n m) l xs
unfolding initialise
initialise-Undisturbed l n m xs ne is = record {
  next_kept = λ a e. ground (arith, is.items a);
  prev_kept = λ a e. ground (arith, is.items a);
  container_kept = λ a e. refl;
  value_kept = ground arith;
  count_kept = ground arith;
  index_kept = ground arith;
}

initialise-Holds :
    (n : ℕ) (m : Memory) (held : ℕ → List ℕ)
    → Holds m n held
    → held n ≡ []
    → Holds (initialise n m) (n + 1) held
initialise-Holds n m held h nil l pos lt = elim (==_decides l n) [
  | inl e ↦ rw (e, nil) (initialise-IsList n m)
  | inr ne ↦
      let is = h l pos (omega arith) in
      Undisturbed-IsList (initialise-Undisturbed l n m (held l) ne is) is
]

initialise_ready-Holds :
    (n p : ℕ) (m : Memory)
    → Holds m (ready p) none_held
    → Holds (initialise_ready n p m) (ready (p + n)) none_held
unfolding initialise_ready
initialise_ready-Holds zero p m h l pos lt = h l pos (omega arith)
initialise_ready-Holds (suc n) p m h l pos lt =
    initialise_ready-Holds n (p + 1) (initialise (ready p) m)
      (initialise-Holds (ready p) m none_held h refl) l pos (omega arith)

-- What no initialisation writes, and the values that it does.
record Fresh (m : Memory) : Type 0 where
  free : (a : ℕ) → m.container a ≡ 0
  small : (a : ℕ) → m.value a ≤ max_delay

initialise-Fresh : (n : ℕ) (m : Memory) → Fresh m → Fresh (initialise n m)
unfolding initialise
initialise-Fresh n m f = record { free = f.free; small = λ a. ground (arith, f.small a) }

initialise_ready-Fresh : (n p : ℕ) (m : Memory) → Fresh m → Fresh (initialise_ready n p m)
unfolding initialise_ready
initialise_ready-Fresh zero p m f = f
initialise_ready-Fresh (suc n) p m f =
    initialise_ready-Fresh n (p + 1) (initialise (ready p) m) (initialise-Fresh (ready p) m f)

-- Whatever the memory holds, but that no item is in a list and values are words, `prvInitialiseTaskLists`
-- makes a valid scheduler whose lists are all empty.
pub initialise_task_lists-IsValid :
    (k : Kernel)
    → ((a : ℕ) → k.mem.container a ≡ 0)
    → ((a : ℕ) → k.mem.value a ≤ max_delay)
    → ((t : ℕ) → k.priority t < 32)
    → k.top_ready < 32
    → IsValid 35 (with_mem (initialise_task_lists k.mem) k) none_held
unfolding initialise_task_lists
initialise_task_lists-IsValid k free small in_range top_in =
    let m = initialise_ready 32 0 k.mem in
    let h = initialise_ready-Holds 32 0 k.mem (λ l pos lt. absurd (omega arith)) in
    let f = initialise-Fresh suspended (initialise delayed m) (
      initialise-Fresh delayed m
        (initialise_ready-Fresh 32 0 k.mem (record { free = free; small = small }))) in
    record {
      lists =
          initialise-Holds suspended (initialise delayed m) none_held
            (initialise-Holds delayed m none_held h refl) refl;
      wide = omega arith;
      words = f.small;
      placed = λ l x po lo e. absurd (ground arith);
      homes = λ l x po lo e. absurd (omega (arith, f.free x));
      inside = λ x. omega (arith, f.free x);
      in_range = in_range;
      top_in = top_in;
      top = λ p x above in_range' e. ground arith;
    }

-- One more list, such as a waiting list of a new queue.
pub initialise-IsValid :
    {bound : ℕ} {k : Kernel} {held : ℕ → List ℕ}
    → IsValid bound k held
    → held bound ≡ []
    → IsValid (bound + 1) (with_mem (initialise bound k.mem) k) held
unfolding initialise
initialise-IsValid {bound} {k} {held} v nil = record {
  lists = initialise-Holds bound k.mem held v.lists nil;
  wide = omega (arith, v.wide);
  words = λ a. ground (arith, v.words a);
  placed = λ l x po lo e.
      let old = v.placed l x po (short l x lo e) e in
      record { owned = old.owned; kind = old.kind; level = old.level };
  homes = λ l x po lo e. v.homes l x po (omega (arith, e, v.inside x)) e;
  inside = λ x. omega (arith, v.inside x);
  in_range = v.in_range;
  top_in = v.top_in;
  top = v.top;
}
  where
    short : (l x : ℕ) → l < bound + 1 → has x (held l) ≡ true → l < bound
    short l x lo e = elim (==_decides l bound) [
      | inl same ↦ absurd (ground (arith, ap (has x) (ap held same ∙ nil), e))
      | inr ne ↦ omega arith
    ]
