-- ===== src/KernelList/Seq.antt =====
-- Sequences of addresses, and what the list operations do to them.
use flint_rtos.Base.{◌+◌, ◌<◌, ℕ, ◌≤◌, ◌≡◌, ◌≢◌, arith, refl, ap, length, ==_decides, inl, inr}
use flint_rtos.Base.{
  Bool, true, false, ◌==◌, ◌&&◌, not, ◌||◌, Bool-cases, leb, if◌then◌else◌, List, [], ◌∷◌, ◌++◌,
}

abbrev pub has : ℕ → List ℕ → Bool
has a [] = false
has a (x ∷ xs) = a == x || has a xs

abbrev pub Distinct : List ℕ → Type 0
Distinct [] = Unit
Distinct (x ∷ xs) = (has x xs ≡ false) × Distinct xs

-- The last of `b ∷ xs`, and the first of `xs ++ f ∷ []`.
abbrev pub last : ℕ → List ℕ → ℕ
last b [] = b
last b (x ∷ xs) = last x xs

abbrev pub first : ℕ → List ℕ → ℕ
first f [] = f
first f (x ∷ xs) = x

-- `n` put before `c`, or at the end where `c` is not in the list.
unfoldable pub insert_before : ℕ → ℕ → List ℕ → List ℕ
insert_before c n [] = n ∷ []
insert_before c n (x ∷ xs) = if x == c then n ∷ x ∷ xs else x ∷ insert_before c n xs

-- `n` put before the first address whose value is above `v`.
unfoldable pub insert_sorted : (ℕ → ℕ) → ℕ → ℕ → List ℕ → List ℕ
insert_sorted value v n [] = n ∷ []
insert_sorted value v n (x ∷ xs) =
    if leb (value x) v then x ∷ insert_sorted value v n xs else n ∷ x ∷ xs

unfoldable pub erase : ℕ → List ℕ → List ℕ
erase n [] = []
erase n (x ∷ xs) = if x == n then xs else x ∷ erase n xs

pub has-append : (a : ℕ) (xs ys : List ℕ) → has a (xs ++ ys) ≡ (has a xs || has a ys)
has-append a [] ys = refl
has-append a (x ∷ xs) ys = ground (arith, has-append a xs ys)

pub has-last : (b : ℕ) (xs : List ℕ) → has (last b xs) (b ∷ xs) ≡ true
has-last b [] = ground arith
has-last b (x ∷ xs) = ground (arith, has-last x xs)

pub has-first : (f : ℕ) (xs : List ℕ) → (first f xs == f || has (first f xs) xs) ≡ true
has-first f [] = ground arith
has-first f (x ∷ xs) = ground arith

pub has-ne : (a b : ℕ) (xs : List ℕ) → has a xs ≡ true → has b xs ≡ false → a ≢ b
has-ne a b xs h k e = cc

-- `insert_before` cuts the list before `c`, or at its end if `c` is the end marker `e`.
pub cut_before :
    (e c n : ℕ) (xs : List ℕ)
    → (c == e || has c xs) ≡ true
    → has e xs ≡ false
    → (us : List ℕ) × (vs : List ℕ) × (xs ≡ us ++ vs)
      × (first e vs ≡ c)
      × (insert_before c n xs ≡ us ++ (n ∷ vs))
unfolding insert_before
cut_before e c n [] h out = ([], [], refl, ground arith, refl)
cut_before e c n (x ∷ xs) h out = elim (==_decides x c) [
  | inl here ↦ ([], x ∷ xs, refl, here, ground arith)
  | inr other ↦
      let (us, vs, k, f, w) = cut_before e c n xs (ground arith) (ground arith) in
      (x ∷ us, vs, ap (λ l. x ∷ l) k, f, ground (arith, w))
]

-- `erase` cuts the list round the address that it takes out.
pub cut_at :
    (n : ℕ) (xs : List ℕ)
    → has n xs ≡ true
    → (us : List ℕ) × (vs : List ℕ) × (xs ≡ us ++ (n ∷ vs)) × (erase n xs ≡ us ++ vs)
unfolding erase
cut_at n [] h = absurd (ground arith)
cut_at n (x ∷ xs) h = elim (==_decides x n) [
  | inl here ↦ ([], xs, ground arith, ground arith)
  | inr other ↦
      let (us, vs, e, w) = cut_at n xs (ground arith) in
      (x ∷ us, vs, ground (arith, e), ground (arith, w))
]

-- `insert_sorted` cuts the list before the first value above `v`.
pub cut_sorted :
    (value : ℕ → ℕ) (v n : ℕ) (xs : List ℕ)
    → (us : List ℕ) × (vs : List ℕ) × (xs ≡ us ++ vs)
      × (insert_sorted value v n xs ≡ us ++ (n ∷ vs))
unfolding insert_sorted
cut_sorted value v n [] = ([], [], refl, refl)
cut_sorted value v n (x ∷ xs) = elim (Bool-cases (leb (value x) v)) [
  | inl le ↦
      let (us, vs, e, w) = cut_sorted value v n xs in
      (x ∷ us, vs, ap (λ l. x ∷ l) e, rw le (ap (λ l. x ∷ l) w))
  | inr gt ↦ ([], x ∷ xs, refl, rw gt)
]

pub Distinct-append :
    (us vs : List ℕ) (a : ℕ) → Distinct (us ++ vs) → has a us ≡ true → has a vs ≡ false
Distinct-append [] vs a d h = absurd (ground arith)
Distinct-append (u ∷ us) vs a d h = elim (==_decides a u) [
  | inl e ↦ ground (arith, has-append u us vs)
  | inr ne ↦ Distinct-append us vs a d.1 (ground arith)
]

pub Distinct-right : (us vs : List ℕ) → Distinct (us ++ vs) → Distinct vs
Distinct-right [] vs d = d
Distinct-right (u ∷ us) vs d = Distinct-right us vs d.1

-- A new address may stand anywhere.
pub Distinct-insert :
    (us vs : List ℕ) (n : ℕ)
    → Distinct (us ++ vs)
    → has n (us ++ vs) ≡ false
    → Distinct (us ++ (n ∷ vs))
Distinct-insert [] vs n d h = (h, d)
Distinct-insert (u ∷ us) vs n d h = (
  ground (arith, has-append u us (n ∷ vs), has-append u us vs),
  Distinct-insert us vs n d.1 (ground arith),
)

pub Distinct-delete :
    (us vs : List ℕ) (n : ℕ)
    → Distinct (us ++ (n ∷ vs))
    → Distinct (us ++ vs) × (has n (us ++ vs) ≡ false)
Distinct-delete [] vs n d = (d.1, d.0)
Distinct-delete (u ∷ us) vs n d =
    let (r, out) = Distinct-delete us vs n d.1 in
    (
      (ground (arith, has-append u us (n ∷ vs), has-append u us vs), r),
      ground (arith, has-append u us (n ∷ vs), out),
    )

pub has-insert_before :
    (a c n : ℕ) (xs : List ℕ) → has a (insert_before c n xs) ≡ (a == n || has a xs)
unfolding insert_before
has-insert_before a c n [] = refl
has-insert_before a c n (x ∷ xs) = ground (arith, has-insert_before a c n xs)

pub has-insert_sorted :
    (value : ℕ → ℕ) (v a n : ℕ) (xs : List ℕ)
    → has a (insert_sorted value v n xs) ≡ (a == n || has a xs)
unfolding insert_sorted
has-insert_sorted value v a n [] = refl
has-insert_sorted value v a n (x ∷ xs) = ground (arith, has-insert_sorted value v a n xs)

pub has-erase :
    (a n : ℕ) (xs : List ℕ) → Distinct xs → has a (erase n xs) ≡ (not (a == n) && has a xs)
unfolding erase
has-erase a n [] d = ground arith
has-erase a n (x ∷ xs) d = ground (arith, has-erase a n xs d.1)

pub length-erase : (n : ℕ) (xs : List ℕ) → length (erase n xs) ≤ length xs
unfolding erase
length-erase n [] = ground arith
length-erase n (x ∷ xs) = ground (arith, length-erase n xs)

pub length-insert_before : (c n : ℕ) (xs : List ℕ) → length (insert_before c n xs) ≡ length xs + 1
unfolding insert_before
length-insert_before c n [] = refl
length-insert_before c n (x ∷ xs) = ground (arith, length-insert_before c n xs)

pub length-has : (n : ℕ) (xs : List ℕ) → has n xs ≡ true → 0 < length xs
length-has n [] h = absurd (ground arith)
length-has n (x ∷ xs) h = omega arith
