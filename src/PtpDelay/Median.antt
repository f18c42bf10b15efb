-- ===== src/PtpDelay/Median.antt =====
-- The filtered delay is the median of the samples in use.
use mathlib.Core.List.{Perm}
use mathlib.Core.List.Perm
use flint_rtos.Base.{
  ℕ, zero, suc, ◌+◌, ◌-◌, ◌/◌, ◌%◌, ◌≤◌, ◌<◌, ◌≡◌, refl, sym, subst, inl, inr, Bool-cases, arith,
  ap, ap₂, ◌∙◌, ◌==◌, ltb, if◌then◌else◌, update, List, ◌∷◌, get_or, ◌⊎◌, ==_decides,
}
use flint_rtos.Int.{ℤ, pos, ◌+ℤ◌, quot, wrap}
use flint_rtos.PtpDelay.{Delay, delay_window, copy_samples, sort_from, median, delay_add}
use flint_rtos.PtpDelay.Sort.{rows, IsDescending, rows_above, sort_from_lem}

-- The middle one of `n` samples in order, or half the sum of the two in the middle.
abbrev pub middle : ℕ → List ℤ → ℤ
middle n l =
    if n % 2 == 1
    then get_or l (n / 2) (pos 0)
    else quot (wrap 64 (get_or l (n / 2) (pos 0) +ℤ get_or l (n / 2 - 1) (pos 0))) 2

-- The samples are `l` in some order, and the delay is the middle of `l`.
pub record MedianOf (d : Delay) (l : List ℤ) : Type 0 where
  pub ordered : IsDescending l
  pub same : Perm l (rows d.n d.win)
  pub middle_of : d.ns ≡ middle d.n l

rows-copy_samples : (n : ℕ) (win s : ℕ → ℤ) → rows n (copy_samples n win s) ≡ rows n win
unfolding rows copy_samples
rows-copy_samples zero win s = refl
rows-copy_samples (suc n) win s =
    ap₂ ◌∷◌ (ground arith)
      (rows_above n n (win n) (copy_samples n win s) (omega arith) ∙ rows-copy_samples n win s)

get_or-rows : (n i k : ℕ) (s : ℕ → ℤ) → i + suc k ≡ n → get_or (rows n s) k (pos 0) ≡ s i
unfolding rows
get_or-rows zero i k s e = absurd (omega arith)
get_or-rows (suc n) i zero s e = ap s (omega arith)
get_or-rows (suc n) i (suc k) s e = get_or-rows n i k s (omega arith)

median-middle : (n : ℕ) (s : ℕ → ℤ) → 0 < n → median n s ≡ middle n (rows n s)
unfolding median
median-middle n s some = elim (Bool-cases (n % 2 == 1)) [
  | inl e ↦ rw e (sym (get_or-rows n (n / 2) (n / 2) s (ground (arith, e))))
  | inr e ↦ rw e (
      ap₂ (λ a b. quot (wrap 64 (a +ℤ b)) 2)
        (sym (get_or-rows n (n / 2 - 1) (n / 2) s (ground (arith, e))))
        (sym (get_or-rows n (n / 2) (n / 2 - 1) s (ground (arith, e)))))
]

-- The window is full, or the next place is the one behind the samples.
abbrev pub IsWindow : Delay → Type 0
IsWindow d = ((d.n < 8) × (d.idx ≡ d.n)) ⊎ ((d.n ≡ 8) × (d.idx < 8))

-- The samples `l` are the ones of `d` with the new one, in place of one of them if the window was full.
abbrev pub Joined : ℤ → Delay → List ℤ → Type 0
Joined sample d l =
    ((d.n < 8) × Perm l (sample ∷ rows d.n d.win))
    ⊎ ((d.n ≡ 8) × Perm (d.win d.idx ∷ l) (sample ∷ rows 8 d.win))

rows-new : (n : ℕ) (v : ℤ) (w : ℕ → ℤ) → rows (n + 1) (update w n v) ≡ v ∷ rows n w
unfolding rows
rows-new n v w =
    let up : n + 1 ≡ suc n = omega arith in
    rw up (ap₂ ◌∷◌ (ground arith) (rows_above n n v w (omega arith)))

rows-replaced :
    (n i : ℕ) (v : ℤ) (w : ℕ → ℤ) → i < n → Perm (w i ∷ rows n (update w i v)) (v ∷ rows n w)
unfolding rows
rows-replaced zero i v w lt = absurd (omega arith)
rows-replaced (suc n) i v w lt = elim (==_decides i n) [
  | inl e ↦
      let new : update w n v n ≡ v = ground arith in
      rw (e, new, rows_above n n v w (omega arith)) (Perm.swap v (w n) (rows n w))
  | inr other ↦
      let old : update w i v n ≡ w n = ground (arith, other) in
      rw old (
        Perm.trans (Perm.swap (w n) (w i) (rows n (update w i v))) (
          Perm.trans (Perm.cons (w n) (rows-replaced n i v w (omega (arith, other))))
            (Perm.swap v (w n) (rows n w))))
]

-- The window after a sample.
delay_add-IsWindow :
    (s : ℕ → ℤ) (sample : ℤ) (d : Delay) → IsWindow d → IsWindow (delay_add s sample d)
unfolding delay_add
delay_add-IsWindow s sample d (inl (small, next)) = elim (==_decides d.n 7) [
  | inl e ↦ inr (ground (arith, e), ground (arith, e, next))
  | inr e ↦ inl (ground (arith, e, small), ground (arith, e, next, small))
]
delay_add-IsWindow s sample d (inr (full, next)) =
    inr (ground (arith, full), ground (arith, full, next))

delay_add-Joined :
    (s : ℕ → ℤ) (sample : ℤ) (d : Delay) (l : List ℤ)
    → IsWindow d
    → Perm l (rows (delay_add s sample d).n (delay_add s sample d).win)
    → Joined sample d l
unfolding delay_add
delay_add-Joined s sample d l (inl (small, next)) same =
    let more : (if ltb d.n delay_window then d.n + 1 else d.n) ≡ d.n + 1 = ground (arith, small) in
    inl (
      small,
      subst (Perm l)
          (ap (λ n. rows n (update d.win d.idx sample)) more
            ∙ (ap (λ i. rows (d.n + 1) (update d.win i sample)) next ∙ rows-new d.n sample d.win))
          same,
    )
delay_add-Joined s sample d l (inr (full, next)) same =
    let more : (if ltb d.n delay_window then d.n + 1 else d.n) ≡ 8 = ground (arith, full) in
    let same8 = subst (Perm l) (ap (λ n. rows n (update d.win d.idx sample)) more) same in
    inr (full, Perm.trans (Perm.cons (d.win d.idx) same8) (rows-replaced 8 d.idx sample d.win next))

-- There is an order of the samples in use after `delay_add` that descends, and the filtered delay is the
-- middle of it, or half the sum of the two in the middle when their number is even.
delay_add-MedianOf :
    (s : ℕ → ℤ) (sample : ℤ) (d : Delay)
    → d.n ≤ 8
    → (l : List ℤ) × MedianOf (delay_add s sample d) l
unfolding delay_add rows
delay_add-MedianOf s sample d small =
    let win = update d.win d.idx sample in
    let n = if ltb d.n delay_window then d.n + 1 else d.n in
    let filled : 0 < n = ground arith in
    let copied = copy_samples n win s in
    let (sorted, same) = sort_from_lem (n - 1) 1 n copied (omega arith) tt in
    (
      rows n (sort_from (n - 1) 1 copied),
      record {
        ordered = sorted;
        same = subst (Perm (rows n (sort_from (n - 1) 1 copied))) (rows-copy_samples n win s) same;
        middle_of = median-middle n (sort_from (n - 1) 1 copied) filled;
      },
    )

-- From a window whose samples are less than eight, with the next place behind them, or eight, delay_add
-- leaves such a window. Its samples are the ones before with the new one, which takes the place of the
-- one at the index when there were eight. There is an order of them that descends, and the filtered delay
-- is the middle of it, or half the sum of the two in the middle when their number is even.
pub delay_add-median :
    (s : ℕ → ℤ) (sample : ℤ) (d : Delay)
    → IsWindow d
    → IsWindow (delay_add s sample d)
      × (l : List ℤ) × Joined sample d l
      × MedianOf (delay_add s sample d) l
delay_add-median s sample d w =
    let at_most : d.n ≤ 8 = either_le w in
    let (l, m) = delay_add-MedianOf s sample d at_most in
    (delay_add-IsWindow s sample d w, l, delay_add-Joined s sample d l w m.same, m)
  where
    either_le : IsWindow d → d.n ≤ 8
    either_le (inl (lt, _)) = omega arith
    either_le (inr (e, _)) = omega arith
