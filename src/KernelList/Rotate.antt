-- ===== src/KernelList/Rotate.antt =====
-- listGET_OWNER_OF_NEXT_ENTRY: the cursor goes round the list.
use flint_rtos.Base.{ℕ, ◌<◌, ◌≡◌, ◌≢◌, arith, refl, ap, ◌∙◌}
use flint_rtos.Base.{
  true, false, ◌==◌, ◌||◌, Bool-cases, inl, inr, List, [], ◌∷◌, length, if◌then◌else◌,
}
use flint_rtos.KernelList.{Memory, list_end, owner_of_next_entry, is_empty, head_entry}
use flint_rtos.KernelList.Seq.{has}
use flint_rtos.KernelList.Seg.{Seg, Seg-frame}
use flint_rtos.KernelList.Valid.{IsList, Undisturbed-IsList}
use flint_rtos.KernelList.Insert.{Holds}

-- A step from a node of a segment stays on it.
next-in :
    (m : Memory) (b : ℕ) (xs : List ℕ) (f a : ℕ)
    → Seg m b xs f
    → (a == b || has a xs) ≡ true
    → (m.next a == f || has (m.next a) xs) ≡ true
next-in m b [] f a s h = ground arith
next-in m b (x ∷ xs) f a s h = elim (Bool-cases (a == b)) [
  | inl e ↦ ground arith
  | inr ne ↦ ground (arith, next-in m x xs f a s.2)
]

-- Only the cursor of `l` may differ.
pub record Turned (m m' : Memory) (l : ℕ) : Type 0 where
  pub nexts : m'.next ≡ m.next
  pub prevs : m'.prev ≡ m.prev
  pub values : m'.value ≡ m.value
  pub owners : m'.owner ≡ m.owner
  pub containers : m'.container ≡ m.container
  pub counts : m'.count ≡ m.count
  pub indexes : (k : ℕ) → k ≢ l → m'.index k ≡ m.index k

pub owner_of_next_entry-Turned : (l : ℕ) (m : Memory) → Turned m (owner_of_next_entry l m).1 l
unfolding owner_of_next_entry
owner_of_next_entry-Turned l m = record {
  nexts = ground arith;
  prevs = ground arith;
  values = ground arith;
  owners = ground arith;
  containers = ground arith;
  counts = ground arith;
  indexes = λ k ne. ground arith;
}

next_index :
    (l : ℕ) (m : Memory)
    → (owner_of_next_entry l m).1.index l
      ≡ (if m.next (m.index l) == list_end l then m.next (list_end l) else m.next (m.index l))
unfolding owner_of_next_entry
next_index l m = ground arith

owner_lem :
    (l : ℕ) (m : Memory)
    → (owner_of_next_entry l m).0 ≡ m.owner ((owner_of_next_entry l m).1.index l)
unfolding owner_of_next_entry
owner_lem l m = ground arith

module _ {m : Memory} {l : ℕ} {xs : List ℕ} (is : IsList m l xs) where
  pub is_empty-nil : is_empty l m ≡ true → xs ≡ []
  unfolding is_empty
  is_empty-nil h = nil xs (ground (arith, is.count))
    where
      nil : (ys : List ℕ) → length ys ≡ 0 → ys ≡ []
      nil [] e = refl
      nil (y ∷ ys) e = absurd (omega arith)

  pub head_entry-has : is_empty l m ≡ false → has (head_entry l m) xs ≡ true
  unfolding is_empty head_entry
  head_entry-has h = go xs is.ring (ground (arith, is.count))
    where
      go :
          (ys : List ℕ)
          → Seg m (list_end l) ys (list_end l)
          → length ys ≢ 0
          → has (m.next (list_end l)) ys ≡ true
      go [] s ne = absurd (ne refl)
      go (y ∷ ys) s ne = ground arith

  -- In a list that is not empty the cursor ends on an item, whose owner is returned.
  pub owner_of_next_entry-has :
      is_empty l m ≡ false
      → (has ((owner_of_next_entry l m).1.index l) xs ≡ true)
        × ((owner_of_next_entry l m).0 ≡ m.owner ((owner_of_next_entry l m).1.index l))
  unfolding head_entry
  owner_of_next_entry-has h = (
    ground (
      arith,
      next_index l m,
      head_entry-has h,
      next-in m (list_end l) xs (list_end l) (m.index l) is.ring is.cursor,
    ),
    owner_lem l m,
  )

module _ {m : Memory} {bound : ℕ} {held : ℕ → List ℕ} (h : Holds m bound held) (l : ℕ) (pos : 0 < l)
    (lt : l < bound) where
  -- Turning the cursor of a list that is not empty leaves every list what it holds.
  pub owner_of_next_entry-Holds :
      is_empty l m ≡ false → Holds (owner_of_next_entry l m).1 bound held
  owner_of_next_entry-Holds ne o po lo = elim (Bool-cases (o == l)) [
    | inl e ↦
        let same : o ≡ l = ground arith in
        let is : IsList m o (held o) = h o po lo in
        let moved : (has ((owner_of_next_entry l m).1.index o) (held o)) ≡ true =
          rw same (owner_of_next_entry-has (h l pos lt) ne).0 in
        record {
          ring = Seg-all o (held o) is.ring;
          distinct = is.distinct;
          items = λ x hx. let f = is.items x hx in (f.0, f.1, ap (λ c. c x) t.containers ∙ f.2);
          count = ap (λ c. c o) t.counts ∙ is.count;
          small = is.small;
          sentinel = ap (λ v. v (list_end o)) t.values ∙ is.sentinel;
          cursor = ground (arith, moved);
        }
    | inr ne' ↦
        Undisturbed-IsList
          (record {
            next_kept = λ a _. ap (λ f. f a) t.nexts;
            prev_kept = λ a _. ap (λ f. f a) t.prevs;
            container_kept = λ a _. ap (λ f. f a) t.containers;
            value_kept = ap (λ f. f (list_end o)) t.values;
            count_kept = ap (λ f. f o) t.counts;
            index_kept = t.indexes o (ground arith);
          })
          (h o po lo)
  ]
    where
      t : Turned m (owner_of_next_entry l m).1 l
      t = owner_of_next_entry-Turned l m

      Seg-all :
          (k : ℕ) (ys : List ℕ)
          → Seg m (list_end k) ys (list_end k)
          → Seg (owner_of_next_entry l m).1 (list_end k) ys (list_end k)
      Seg-all k ys s =
          Seg-frame m (owner_of_next_entry l m).1 (list_end k) ys (list_end k)
            (λ a _. ap (λ g. g a) t.nexts) (λ a _. ap (λ g. g a) t.prevs) s
