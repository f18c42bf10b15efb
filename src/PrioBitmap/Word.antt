-- ===== src/PrioBitmap/Word.antt =====
-- `word_highest_bit` of kernel/prio_bitmap.c.
use native.Mathlib.Nat.{mod-eq_of_lt, div-lt_iff_lt-mul, one-le-pow, div-add-mod'}
use flint_rtos.Base.{ℕ, ◌+◌, ◌-◌, ◌*◌, ◌/◌, ◌%◌, ◌^◌, ◌≤◌, ◌<◌, ◌≡◌, ◌∙◌, ap, arith, refl}
use flint_rtos.Base.{bit_and, ◌==◌, Bool-cases, inl, inr, if◌then◌else◌, sym}
use flint_rtos.Bits.{bit_and-high, bit_and-mask, digit, digit-shift, digit_above}
use flint_rtos.PrioBitmap.{narrow, word_highest_bit}

-- `&` with `k` ones above `k` zeros, on a word of `2 * k` bits, keeps the high half.
high_lt : (k v : ℕ) → v < 2 ^ k * 2 ^ k → v / 2 ^ k < 2 ^ k
high_lt k v h = (div-lt_iff_lt-mul (one-le-pow k 2 (omega arith))).1 h

high_half : (k v : ℕ) → v < 2 ^ k * 2 ^ k → bit_and v ((2 ^ k - 1) * 2 ^ k) ≡ v / 2 ^ k * 2 ^ k
high_half k v h =
    bit_and-high k v (2 ^ k - 1)
    ∙ ap (λ (t : ℕ). t * 2 ^ k) (bit_and-mask k (v / 2 ^ k) ∙ mod-eq_of_lt (high_lt k v h))

-- `(pos, v)` stands for `w` on the way: `v` is `w` without its low `pos` bits, and has no bit
-- outside its low `width` bits.
record Narrowed (w width : ℕ) (s : ℕ × ℕ) : Type 0 where
  same : (j : ℕ) → digit s.1 j ≡ digit w (s.0 + j)
  nonzero : 0 < s.1
  fits : s.1 < 2 ^ width
  small : s.0 + width ≤ 32

narrow-Narrowed :
    (w k pos v mask : ℕ)
    → mask ≡ (2 ^ k - 1) * 2 ^ k
    → 2 ^ (k + k) ≡ 2 ^ k * 2 ^ k
    → Narrowed w (k + k) (pos, v)
    → Narrowed w k (narrow mask k (pos, v))
unfolding narrow
narrow-Narrowed w k pos v mask em ek n = elim (Bool-cases (bit_and v mask == 0)) [
  | inl e ↦ rw e (record {
    same = n.same;
    nonzero = n.nonzero;
    fits = ground (arith, div-add-mod' v (2 ^ k), masked, one-le-pow k 2);
    small = omega arith;
  })
  | inr e ↦ rw e (record {
    same = λ j.
        simp (mod-eq_of_lt small_pos) (digit-shift k v j ∙ n.same (k + j) ∙ ap (digit w) (assoc j));
    nonzero = ground (arith, masked);
    fits = high_lt k v below;
    small = rw (mod-eq_of_lt small_pos) (omega arith);
  })
]
  where
    below : v < 2 ^ k * 2 ^ k
    below = rw ek at n.fits

    masked : bit_and v mask ≡ v / 2 ^ k * 2 ^ k
    masked = rw em (high_half k v below)

    small_pos : pos + k < 2 ^ 8
    small_pos = omega arith

    assoc : (j : ℕ) → pos + (k + j) ≡ pos + k + j
    assoc j = omega arith

narrowed :
    (w : ℕ)
    → 0 < w
    → w < 2 ^ 32
    → Narrowed w 2 (narrow 0xc 2 (narrow 0xf0 4 (narrow 0xff00 8 (narrow 0xffff0000 16 (0, w)))))
narrowed w pos h =
    step 2 0xc refl refl
      (step 4 0xf0 refl refl (step 8 0xff00 refl refl (step 16 0xffff0000 refl refl start)))
  where
    start : Narrowed w 32 (0, w)
    start = record {
      same = λ j. ap (digit w) (omega arith);
      nonzero = pos;
      fits = h;
      small = omega arith;
    }

    step :
        (k mask : ℕ) {s : ℕ × ℕ}
        → mask ≡ (2 ^ k - 1) * 2 ^ k
        → 2 ^ (k + k) ≡ 2 ^ k * 2 ^ k
        → Narrowed w (k + k) s
        → Narrowed w k (narrow mask k s)
    step k mask {s} em ek n = narrow-Narrowed w k s.0 s.1 mask em ek n

-- Bit `p` is the highest one of `w`.
pub record IsTop (w p : ℕ) : Type 0 where
  pub inside : p < 32
  pub isset : digit w p ≡ 1
  pub above : (j : ℕ) → p < j → digit w j ≡ 0

low_two : (v : ℕ) → v < 4 → bit_and v 0x2 ≡ v / 2 * 2
low_two v h = omega (arith, bit_and-high 1 v 1, bit_and-mask 1 (v / 2))

-- The bits of `w` from `p` on are the low bits of a word that is 1, or 2 or 3.
IsTop-one : (w p v : ℕ) → p < 32 → ((j : ℕ) → digit v j ≡ digit w (p + j)) → v ≡ 1 → IsTop w p
unfolding digit
IsTop-one w p v h same e = record {
  inside = h;
  isset = let f : digit v 0 ≡ digit w p = rw at_zero at (same 0) in omega (arith, f);
  above = λ j lt. at j (omega arith) ∙ digit_above (j - p) 1 v (omega arith) (omega arith);
}
  where
    at : (j : ℕ) → p ≤ j → digit w j ≡ digit v (j - p)
    at j le = let e : p + (j - p) ≡ j = omega arith in sym (rw e at (same (j - p)))

    at_zero : p + 0 ≡ p
    at_zero = omega arith

last_test :
    (w : ℕ) (s : ℕ × ℕ)
    → Narrowed w 2 s
    → IsTop w (if bit_and s.1 0x2 == 0 then s.0 else (s.0 + 1) % 2 ^ 8)
last_test w s n = elim (Bool-cases (bit_and s.1 0x2 == 0)) [
  | inl e ↦ rw e (IsTop-one w s.0 s.1 (omega arith) n.same (ground (arith, low_two s.1)))
  | inr e ↦
      rw (e, mod-eq_of_lt fit)
        (IsTop-one w (s.0 + 1) (s.1 / 2) (omega arith) shifted (ground (arith, low_two s.1)))
]
  where
    fit : s.0 + 1 < 2 ^ 8
    fit = omega arith

    shifted : (j : ℕ) → digit (s.1 / 2) j ≡ digit w (s.0 + 1 + j)
    shifted j = digit-shift 1 s.1 j ∙ n.same (1 + j) ∙ ap (digit w) (omega arith)

-- On a word that is not zero the binary search ends at its highest bit.
pub word_highest_bit-IsTop : (w : ℕ) → 0 < w → w < 2 ^ 32 → IsTop w (word_highest_bit w)
unfolding word_highest_bit
word_highest_bit-IsTop w pos h = last_test w _ (narrowed w pos h)
