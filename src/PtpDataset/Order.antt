-- ===== src/PtpDataset/Order.antt =====
-- The comparison of datasets is the order of one row of numbers.
use flint_rtos.Base.{
  ℕ, zero, suc, ◌+◌, ◌≡◌, ◌↔◌, length, length-append, refl, arith, ap, ◌∙◌, sym, true, not, ◌==◌,
  ◌||◌, ltb, if◌then◌else◌, List, [], ◌∷◌, ◌++◌,
}
use flint_rtos.Int.{ℤ, pos, negsuc, is_pos, is_neg, negate}
use flint_rtos.PtpDataset.{Dataset, cmp_from, cmp_bytes, dataset_cmp}

-- The order of rows of numbers, the first difference first.
unfoldable pub compare_rows : List ℕ → List ℕ → ℤ
compare_rows [] ys = pos 0
compare_rows (x ∷ xs) [] = pos 0
compare_rows (x ∷ xs) (y ∷ ys) =
    if x == y then compare_rows xs ys else if ltb x y then negsuc 0 else pos 1

unfoldable pub bytes_from : ℕ → ℕ → (ℕ → ℕ) → List ℕ
bytes_from zero i p = []
bytes_from (suc n) i p = p i ∷ bytes_from n (i + 1) p

-- The numbers by which masters are ranked.
unfoldable pub rank : Dataset → List ℕ
rank a =
    a.prio1
    ∷ a.clk_class
    ∷ a.clk_accuracy
    ∷ a.variance
    ∷ a.prio2
    ∷ (bytes_from 8 0 a.gm_id ++ a.steps_removed ∷ bytes_from 10 0 a.port_id)

pub compare_bytes :
    (n i : ℕ) (a b : ℕ → ℕ) → cmp_from n i a b ≡ compare_rows (bytes_from n i a) (bytes_from n i b)
unfolding compare_rows bytes_from cmp_from
compare_bytes zero i a b = refl
compare_bytes (suc n) i a b = ground (arith, compare_bytes n (i + 1) a b)

compare-append :
    (n i : ℕ) (a b : ℕ → ℕ) (xs ys : List ℕ)
    → compare_rows (bytes_from n i a ++ xs) (bytes_from n i b ++ ys) ≡ (
        if is_pos (cmp_from n i a b) || is_neg (cmp_from n i a b)
        then cmp_from n i a b
        else compare_rows xs ys)
unfolding compare_rows bytes_from cmp_from
compare-append zero i a b xs ys = refl
compare-append (suc n) i a b xs ys = ground (arith, compare-append n (i + 1) a b xs ys)

compare_head :
    (x y : ℕ) (xs ys : List ℕ) (c : ℤ)
    → c ≡ compare_rows xs ys
    → (if not (x == y) then (if ltb x y then negsuc 0 else pos 1) else c)
      ≡ compare_rows (x ∷ xs) (y ∷ ys)
unfolding compare_rows
compare_head x y xs ys c e = ground arith

-- The comparison of two datasets is the order of their ranks: priority, class, accuracy, variance, second
-- priority, grandmaster, steps and port, in which the first difference decides.
pub dataset_cmp-rank : (a b : Dataset) → dataset_cmp a b ≡ compare_rows (rank a) (rank b)
unfolding dataset_cmp rank
dataset_cmp-rank a b = compare_head a.prio1 b.prio1 _ _ _ (
    compare_head a.clk_class b.clk_class _ _ _ (
      compare_head a.clk_accuracy b.clk_accuracy _ _ _
        (compare_head a.variance b.variance _ _ _ (compare_head a.prio2 b.prio2 _ _ _ last))))
  where
    last :
        (if is_pos (cmp_bytes a.gm_id b.gm_id 8) || is_neg (cmp_bytes a.gm_id b.gm_id 8)
          then cmp_bytes a.gm_id b.gm_id 8
          else if not (a.steps_removed == b.steps_removed)
          then (if ltb a.steps_removed b.steps_removed then negsuc 0 else pos 1)
          else cmp_bytes a.port_id b.port_id 10)
        ≡ compare_rows
            (bytes_from 8 0 a.gm_id ++ a.steps_removed ∷ bytes_from 10 0 a.port_id)
            (bytes_from 8 0 b.gm_id ++ b.steps_removed ∷ bytes_from 10 0 b.port_id)
    last =
        ap
          (λ t.
            if is_pos (cmp_bytes a.gm_id b.gm_id 8) || is_neg (cmp_bytes a.gm_id b.gm_id 8)
            then cmp_bytes a.gm_id b.gm_id 8
            else t)
          (compare_head a.steps_removed b.steps_removed _ _ _
            (compare_bytes 10 0 a.port_id b.port_id))
        ∙ sym (compare-append 8 0 a.gm_id b.gm_id _ _)

compare_rows-negate : (xs ys : List ℕ) → compare_rows ys xs ≡ negate (compare_rows xs ys)
unfolding compare_rows negate
compare_rows-negate [] [] = refl
compare_rows-negate [] (y ∷ ys) = refl
compare_rows-negate (x ∷ xs) [] = refl
compare_rows-negate (x ∷ xs) (y ∷ ys) = ground (arith, compare_rows-negate xs ys)

pub compare_rows_self : (xs : List ℕ) → compare_rows xs xs ≡ pos 0
unfolding compare_rows
compare_rows_self [] = refl
compare_rows_self (x ∷ xs) = ground (arith, compare_rows_self xs)

compare_rows_trans :
    (xs ys zs : List ℕ)
    → length xs ≡ length ys
    → length ys ≡ length zs
    → is_neg (compare_rows xs ys) ≡ true
    → is_neg (compare_rows ys zs) ≡ true
    → is_neg (compare_rows xs zs) ≡ true
unfolding compare_rows
compare_rows_trans [] ys zs e f h k = absurd (cc)
compare_rows_trans (x ∷ xs) [] zs e f h k = absurd (cc)
compare_rows_trans (x ∷ xs) (y ∷ ys) [] e f h k = absurd (cc)
compare_rows_trans (x ∷ xs) (y ∷ ys) (z ∷ zs) e f h k = ground (arith, compare_rows_trans xs ys zs)

compare_rows_same : (xs ys : List ℕ) → length xs ≡ length ys → compare_rows xs ys ≡ pos 0 → xs ≡ ys
unfolding compare_rows
compare_rows_same [] [] e h = refl
compare_rows_same [] (y ∷ ys) e h = absurd (omega arith)
compare_rows_same (x ∷ xs) [] e h = absurd (omega arith)
compare_rows_same (x ∷ xs) (y ∷ ys) e h = ground (arith, compare_rows_same xs ys)

length-bytes_from : (n i : ℕ) (p : ℕ → ℕ) → length (bytes_from n i p) ≡ n
unfolding bytes_from
length-bytes_from zero i p = refl
length-bytes_from (suc n) i p = ap suc (length-bytes_from n (i + 1) p)

length-rank : (a : Dataset) → length (rank a) ≡ 24
unfolding rank
length-rank a = omega (
  arith,
  length-append (bytes_from 8 0 a.gm_id) (a.steps_removed ∷ bytes_from 10 0 a.port_id),
  length-bytes_from 8 0 a.gm_id,
  length-bytes_from 10 0 a.port_id,
)

-- "Better" is a strict order of the ranks: swapping the datasets swaps the sign, the answer is 0 just if the
-- ranks are the same, and what is better than a better one is better.
pub dataset_cmp_order :
    (a b c : Dataset)
    → (dataset_cmp b a ≡ negate (dataset_cmp a b))
      × ((dataset_cmp a b ≡ pos 0) ↔ (rank a ≡ rank b))
      × (is_neg (dataset_cmp a b) ≡ true
          → is_neg (dataset_cmp b c) ≡ true
          → is_neg (dataset_cmp a c) ≡ true)
dataset_cmp_order a b c =
    rw (dataset_cmp-rank a b, dataset_cmp-rank b a, dataset_cmp-rank b c, dataset_cmp-rank a c)
      (
        compare_rows-negate (rank a) (rank b),
        (
          compare_rows_same (rank a) (rank b) (omega (arith, length-rank a, length-rank b)),
          λ e. rw e (compare_rows_self (rank b)),
        ),
        compare_rows_trans (rank a) (rank b) (rank c) (omega (arith, length-rank a, length-rank b))
            (omega (arith, length-rank b, length-rank c)),
      )
