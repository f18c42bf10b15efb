-- ===== src/KernelList/Splice.antt =====
-- Linking an item in, whichever function does it.
use flint_rtos.Base.{ℕ, ◌+◌, ◌%◌, ◌^◌, ◌<◌, ◌≡◌, ◌≢◌, arith, refl, ap, ◌∙◌}
use flint_rtos.Base.{true, false, ◌==◌, ◌||◌, List, ◌∷◌, ◌++◌, length, length-append, if◌then◌else◌}
use flint_rtos.KernelList.{Memory, list_end, insert_end, insert_after}
use flint_rtos.KernelList.Seq.{has, has-append, last, first, has-last, has-first, Distinct-insert}
use flint_rtos.KernelList.Seg.{Linked, link_Seg}
use flint_rtos.KernelList.Valid.{IsList, IsFree, end_out, free_out, Undisturbed-IsList, apart}

-- The fields that a linking leaves alone, and those that record the new member.
pub record Joined (m m' : Memory) (l n : ℕ) : Type 0 where
  pub containers : (a : ℕ) → m'.container a ≡ (if a == n then l else m.container a)
  pub counts : (k : ℕ) → m'.count k ≡ (if k == l then (m.count l + 1) % 2 ^ 64 else m.count k)
  pub indexes : m'.index ≡ m.index
  pub values : m'.value ≡ m.value
  pub owners : m'.owner ≡ m.owner

pub insert_end-Linked :
    (l n p q : ℕ) (m : Memory)
    → m.index l ≡ q
    → m.prev q ≡ p
    → n ≢ p
    → n ≢ q
    → Linked m (insert_end l n m) p n q
unfolding insert_end
insert_end-Linked l n p q m ei ep np nq = record {
  next_p = ground arith;
  next_n = ground arith;
  prev_q = ground arith;
  prev_n = ground arith;
  nexts = λ a ha hn. ground arith;
  prevs = λ a ha hn. ground arith;
}

pub insert_end-Joined : (l n : ℕ) (m : Memory) → Joined m (insert_end l n m) l n
unfolding insert_end
insert_end-Joined l n m = record {
  containers = λ a. refl;
  counts = λ k. refl;
  indexes = refl;
  values = refl;
  owners = refl;
}

pub insert_after-Linked :
    (l n p q : ℕ) (m : Memory)
    → m.next p ≡ q
    → n ≢ p
    → n ≢ q
    → Linked m (insert_after l n p m) p n q
unfolding insert_after
insert_after-Linked l n p q m en np nq = record {
  next_p = ground arith;
  next_n = ground arith;
  prev_q = ground arith;
  prev_n = ground arith;
  nexts = λ a ha hn. ground arith;
  prevs = λ a ha hn. ground arith;
}

pub insert_after-Joined : (l n it : ℕ) (m : Memory) → Joined m (insert_after l n it m) l n
unfolding insert_after
insert_after-Joined l n it m = record {
  containers = λ a. refl;
  counts = λ k. refl;
  indexes = refl;
  values = refl;
  owners = refl;
}

module _ {m : Memory} (l n : ℕ) (us vs : List ℕ) (pos : 0 < l) (free : IsFree m n)
    (is : IsList m l (us ++ vs)) where
  new_out : has n (us ++ vs) ≡ false
  new_out = free_out is n pos free

  pub before_in :
      (last (list_end l) us == list_end l || has (last (list_end l) us) (us ++ vs)) ≡ true
  before_in = ground (arith, has-last (list_end l) us, has-append (last (list_end l) us) us vs)

  pub after_in :
      (first (list_end l) vs == list_end l || has (first (list_end l) vs) (us ++ vs)) ≡ true
  after_in = ground (arith, has-first (list_end l) vs, has-append (first (list_end l) vs) us vs)

  pub new_ne : (a : ℕ) → (a == list_end l || has a (us ++ vs)) ≡ true → n ≢ a
  new_ne a h e = ground (arith, new_out)

  pub link-IsList :
      {m' : Memory}
      → length (us ++ vs) + 1 < 2 ^ 64
      → Linked m m' (last (list_end l) us) n (first (list_end l) vs)
      → Joined m m' l n
      → IsList m' l (us ++ (n ∷ vs))
  link-IsList {m'} room k j = record {
    ring =
        link_Seg m m' us vs (list_end l) n (list_end l) k is.ring is.distinct (end_out is l)
          (end_out is l) new_out (omega arith) (omega arith);
    distinct = Distinct-insert us vs n is.distinct new_out;
    items = λ x h.
        ground (arith, is.items x, j.containers x, has-append x us vs, has-append x us (n ∷ vs));
    count = ground (arith, j.counts l, is.count, length-append us vs, length-append us (n ∷ vs));
    small = omega (arith, length-append us vs, length-append us (n ∷ vs));
    sentinel = ap (λ f. f (list_end l)) j.values ∙ is.sentinel;
    cursor = ground (
      arith,
      is.cursor,
      ap (λ f. f l) j.indexes,
      has-append (m.index l) us vs,
      has-append (m.index l) us (n ∷ vs),
    );
  }

  -- Any other list is as it was.
  pub link-frame :
      {m' : Memory} (o : ℕ) (ys : List ℕ)
      → o ≢ l
      → 0 < o
      → IsList m o ys
      → Linked m m' (last (list_end l) us) n (first (list_end l) vs)
      → Joined m m' l n
      → IsList m' o ys
  link-frame {m'} o ys ne po js k j =
      Undisturbed-IsList
        (record {
          next_kept = λ a h.
              k.nexts a (apart a _ js is ne h before_in)
                (λ e. ground (arith, free_out js n po free));
          prev_kept = λ a h.
              k.prevs a (apart a _ js is ne h after_in)
                (λ e. ground (arith, free_out js n po free));
          container_kept = λ a h. ground (arith, j.containers a, free_out js n po free);
          value_kept = ap (λ f. f (list_end o)) j.values;
          count_kept = ground (arith, j.counts o);
          index_kept = ap (λ f. f o) j.indexes;
        })
        js
