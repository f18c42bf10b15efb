-- ===== src/PtpDelay/Sort.antt =====
-- The insertion sort of the samples puts them in order.
use mathlib.Core.List.{Perm}
use mathlib.Core.List.Perm
use flint_rtos.Base.{
  ℕ, zero, suc, ◌+◌, ◌≤◌, ◌<◌, ◌≡◌, refl, arith, ap, ap₂, ◌∙◌, false, if◌then◌else◌, update, List,
  [], ◌∷◌, inl, inr, Bool-cases,
}
use flint_rtos.Int.{ℤ, ltb_ℤ}
use flint_rtos.PtpDelay.{shift, sort_from}

-- The first `n` entries, the last one first.
unfoldable pub rows : ℕ → (ℕ → ℤ) → List ℤ
rows zero s = []
rows (suc n) s = s n ∷ rows n s

-- In descending order from a bound down.
abbrev pub AtMost : ℤ → List ℤ → Type 0
AtMost b [] = Unit {0}
AtMost b (x ∷ xs) = (ltb_ℤ b x ≡ false) × AtMost x xs

abbrev pub IsDescending : List ℤ → Type 0
IsDescending [] = Unit {0}
IsDescending (x ∷ xs) = AtMost x xs

place : ℤ → List ℤ → List ℤ
place v [] = v ∷ []
place v (x ∷ xs) = if ltb_ℤ v x then x ∷ place v xs else v ∷ x ∷ xs

pub rows_above : (n j : ℕ) (v : ℤ) (s : ℕ → ℤ) → n ≤ j → rows n (update s j v) ≡ rows n s
unfolding rows
rows_above zero j v s le = refl
rows_above (suc n) j v s le = ground (arith, rows_above n j v s)

shift_above : (j i : ℕ) (v : ℤ) (s : ℕ → ℤ) → j < i → shift j v s i ≡ s i
unfolding shift
shift_above zero i v s lt = ground arith
shift_above (suc j) i v s lt = ground (arith, shift_above j i v (update s (suc j) (s j)))

rows-shift : (j : ℕ) (v : ℤ) (s : ℕ → ℤ) → rows (suc j) (shift j v s) ≡ place v (rows j s)
unfolding rows shift place
rows-shift zero v s = refl
rows-shift (suc j) v s = elim (Bool-cases (ltb_ℤ v (s j))) [
  | inl e ↦ rw e (
      ap₂ ◌∷◌ (shift_above j (suc j) v (update s (suc j) (s j)) (omega arith) ∙ ground arith) (
        rows-shift j v (update s (suc j) (s j))
        ∙ ap (place v) (rows_above j (suc j) (s j) s (omega arith))))
  | inr e ↦ rw e (ap₂ ◌∷◌ (ground arith) (rows_above (suc j) (suc j) v s (omega arith)))
]

place-perm : (v : ℤ) (xs : List ℤ) → Perm (place v xs) (v ∷ xs)
unfolding place
place-perm v [] = Perm.rfl
place-perm v (x ∷ xs) = elim (Bool-cases (ltb_ℤ v x)) [
  | inl e ↦ rw e (Perm.trans (Perm.cons x (place-perm v xs)) (Perm.swap v x xs))
  | inr e ↦ rw e Perm.rfl
]

place-AtMost : (v b : ℤ) (xs : List ℤ) → ltb_ℤ b v ≡ false → AtMost b xs → AtMost b (place v xs)
unfolding place
place-AtMost v b [] le a = (le, tt)
place-AtMost v b (x ∷ xs) le (below, rest) = elim (Bool-cases (ltb_ℤ v x)) [
  | inl e ↦ rw e (below, place-AtMost v x xs (ground arith) rest)
  | inr e ↦ rw e (le, (e, rest))
]

place-IsDescending : (v : ℤ) (xs : List ℤ) → IsDescending xs → IsDescending (place v xs)
unfolding place
place-IsDescending v [] d = tt
place-IsDescending v (x ∷ xs) d = elim (Bool-cases (ltb_ℤ v x)) [
  | inl e ↦ rw e (place-AtMost v x xs (ground arith) d)
  | inr e ↦ rw e (e, d)
]

-- The entries above the place that a round starts from stay.
shift-perm : (j m n : ℕ) (s : ℕ → ℤ) → n ≡ m + suc j → Perm (rows n (shift j (s j) s)) (rows n s)
unfolding rows
shift-perm j zero n s e =
    let same : n ≡ suc j = omega arith in
    rw same (rw (rows-shift j (s j) s) (place-perm (s j) (rows j s)))
shift-perm j (suc m) zero s e = absurd (omega arith)
shift-perm j (suc m) (suc n) s e =
    rw (shift_above j n (s j) s (omega arith)) (Perm.cons (s n) (shift-perm j m n s (omega arith)))

pub sort_from_lem :
    (rounds i n : ℕ) (s : ℕ → ℤ)
    → n ≡ rounds + i
    → IsDescending (rows i s)
    → IsDescending (rows n (sort_from rounds i s)) × Perm (rows n (sort_from rounds i s)) (rows n s)
unfolding sort_from
sort_from_lem zero i n s e d = let same : n ≡ i = omega arith in rw same (d, Perm.rfl)
sort_from_lem (suc rounds) i n s e d =
    let up : i + 1 ≡ suc i = omega arith in
    let placed = rows-shift i (s i) s in
    let moved = shift-perm i rounds n s (omega arith) in
    let (sorted, kept) =
      sort_from_lem rounds (i + 1) n (shift i (s i) s) (omega arith)
        (rw up (rw placed (place-IsDescending (s i) (rows i s) d))) in
    (sorted, Perm.trans kept moved)
