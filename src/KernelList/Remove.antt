-- ===== src/KernelList/Remove.antt =====
-- `uxListRemove` on all lists of a memory at once.
use flint_rtos.Base.{ℕ, ◌+◌, ◌-◌, ◌%◌, ◌^◌, ◌<◌, ◌≡◌, ◌≢◌, arith, ap, ◌∙◌, sym, subst}
use flint_rtos.Base.{
  true, false, ◌==◌, ◌&&◌, ◌||◌, Bool-cases, inl, inr, List, [], ◌∷◌, ◌++◌, length, length-append,
  if◌then◌else◌, update,
}
use flint_rtos.KernelList.{Memory, list_end, remove}
use flint_rtos.KernelList.Seq.{
  has, Distinct, Distinct-delete, has-append, last, first, has-last, has-first, erase, cut_at,
}
use flint_rtos.KernelList.Seg.{Seg, Unlinked, unlink_Seg, Seg-cut}
use flint_rtos.KernelList.Valid.{IsList, IsFree, end_out, Undisturbed-IsList, apart}
use flint_rtos.KernelList.Insert.{Holds}

-- The fields that record that `n` has left the list at `l`.
pub record Left (m m' : Memory) (l n : ℕ) : Type 0 where
  pub containers : (a : ℕ) → m'.container a ≡ (if a == n then 0 else m.container a)
  pub counts :
      (k : ℕ) → m'.count k ≡ (if k == l then (m.count l + 2 ^ 64 - 1) % 2 ^ 64 else m.count k)
  pub indexes : (k : ℕ) → m'.index k ≡ (if k == l && m.index l == n then m.prev n else m.index k)
  pub values : m'.value ≡ m.value
  pub owners : m'.owner ≡ m.owner

remove-Unlinked :
    (n : ℕ) (m : Memory) → m.next n ≢ n → Unlinked m (remove n m).1 (m.prev n) (m.next n)
unfolding remove
remove-Unlinked n m h = record {
  next_p = ground arith;
  prev_q = ground arith;
  nexts = λ a ne. ground arith;
  prevs = λ a ne. ground arith;
}

pub remove-Left : (n : ℕ) (m : Memory) → m.next n ≢ n → Left m (remove n m).1 (m.container n) n
unfolding remove
remove-Left n m h = record {
  containers = λ a. ground arith;
  counts = λ k. ground arith;
  indexes = λ k. ground arith;
  values = ground arith;
  owners = ground arith;
}

remaining : (n : ℕ) (m : Memory) → (remove n m).0 ≡ (remove n m).1.count (m.container n)
unfolding remove
remaining n m = ground arith

Seg-next :
    (m : Memory) (b n : ℕ) (us vs : List ℕ) (f : ℕ)
    → Seg m b (us ++ (n ∷ vs)) f
    → m.next n ≡ first f vs
Seg-next m b n [] [] f s = s.2.0
Seg-next m b n [] (v ∷ vs) f s = s.2.0
Seg-next m b n (u ∷ us) vs f s = Seg-next m u n us vs f s.2

module _ {m : Memory} (l n : ℕ) (us vs : List ℕ) (is : IsList m l (us ++ (n ∷ vs))) where
  member : has n (us ++ (n ∷ vs)) ≡ true
  member = ground (arith, has-append n us (n ∷ vs))

  gone : Distinct (us ++ vs) × (has n (us ++ vs) ≡ false)
  gone = Distinct-delete us vs n is.distinct

  next_n : m.next n ≡ first (list_end l) vs
  next_n = Seg-next m (list_end l) n us vs (list_end l) is.ring

  prev_n : m.prev n ≡ last (list_end l) us
  prev_n = (Seg-cut m (list_end l) us (n ∷ vs) (list_end l) is.ring).1

  before_in :
      (last (list_end l) us == list_end l || has (last (list_end l) us) (us ++ (n ∷ vs))) ≡ true
  before_in =
      ground (arith, has-last (list_end l) us, has-append (last (list_end l) us) us (n ∷ vs))

  after_in :
      (first (list_end l) vs == list_end l || has (first (list_end l) vs) (us ++ (n ∷ vs))) ≡ true
  after_in =
      ground (arith, has-first (list_end l) vs, has-append (first (list_end l) vs) us (n ∷ vs))

  next_ne : m.next n ≢ n
  next_ne e =
      ground
        (arith, next_n, has-first (list_end l) vs, gone.1, has-append n us vs, is.items n member)

  unlinked : Unlinked m (remove n m).1 (last (list_end l) us) (first (list_end l) vs)
  unlinked =
      subst (λ p. Unlinked m (remove n m).1 p (first (list_end l) vs)) prev_n
        (subst (Unlinked m (remove n m).1 (m.prev n)) next_n (remove-Unlinked n m next_ne))

  left : Left m (remove n m).1 l n
  left = subst (λ k. Left m (remove n m).1 k n) ((is.items n member).2) (remove-Left n m next_ne)

  unlink-IsList : IsList (remove n m).1 l (us ++ vs)
  unlink-IsList = record {
    ring =
        unlink_Seg m (remove n m).1 us vs (list_end l) n (list_end l) unlinked is.ring is.distinct
          (end_out is l) (end_out is l);
    distinct = gone.0;
    items = λ x h. ground (
      arith,
      is.items x,
      left.containers x,
      gone.1,
      has-append x us vs,
      has-append x us (n ∷ vs),
    );
    count =
        ground (
          arith,
          left.counts l,
          is.count,
          is.small,
          length-append us vs,
          length-append us (n ∷ vs),
        );
    small = omega (arith, is.small, length-append us vs, length-append us (n ∷ vs));
    sentinel = ap (λ f. f (list_end l)) left.values ∙ is.sentinel;
    cursor = ground (
      arith,
      left.indexes l,
      is.cursor,
      prev_n,
      has-last (list_end l) us,
      has-append (last (list_end l) us) us vs,
      has-append (m.index l) us vs,
      has-append (m.index l) us (n ∷ vs),
    );
  }

  unlink-frame : (o : ℕ) (ys : List ℕ) → o ≢ l → IsList m o ys → IsList (remove n m).1 o ys
  unlink-frame o ys ne js =
      Undisturbed-IsList
        (record {
          next_kept = λ a h. unlinked.nexts a (apart a _ js is ne h before_in);
          prev_kept = λ a h. unlinked.prevs a (apart a _ js is ne h after_in);
          container_kept = λ a h. ground (arith, left.containers a, js.items n, is.items n member);
          value_kept = ap (λ f. f (list_end o)) left.values;
          count_kept = ground (arith, left.counts o);
          index_kept = ground (arith, left.indexes o);
        })
        js

module _ {m : Memory} {bound : ℕ} {held : ℕ → List ℕ} (h : Holds m bound held) (l n : ℕ)
    (pos : 0 < l) (lt : l < bound) (member : has n (held l) ≡ true) where
  -- `uxListRemove` takes the item out of the list that holds it, leaves it in no list and every other
  -- list as it was, and returns the number of items that are left.
  pub remove-Holds :
      Holds (remove n m).1 bound (update held l (erase n (held l)))
      × IsFree (remove n m).1 n
      × ((remove n m).0 ≡ length (erase n (held l)))
      × Left m (remove n m).1 l n
  remove-Holds =
      let own = h l pos lt in
      let (us, vs, whole, made) = cut_at n (held l) member in
      let is : IsList m l (us ++ (n ∷ vs)) = subst (IsList m l) whole own in
      let rest : IsList (remove n m).1 l (erase n (held l)) =
        rw made (unlink-IsList l n us vs is) in
      let facts = own.items n member in
      let k : Left m (remove n m).1 l n = left l n us vs is in
      (
        λ o po lo. elim (Bool-cases (o == l)) [
          | inl e ↦
              let same : o ≡ l = ground arith in
              rw e (subst (λ a. IsList (remove n m).1 a (erase n (held l))) (sym same) rest)
          | inr e ↦ rw e (unlink-frame l n us vs is o (held o) (ground arith) (h o po lo))
        ],
        (facts.0, facts.1, ground (arith, k.containers n)),
        remaining n m ∙ ap (λ a. (remove n m).1.count a) facts.2 ∙ rest.count,
        k,
      )
