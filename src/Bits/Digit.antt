-- ===== src/Bits/Digit.antt =====
-- The binary digits of a word, and those of `&` and `|`.
use flint_rtos.Base.{ℕ, zero, suc, ◌/◌, ◌%◌, ◌≤◌, min, max, ◌≡◌, refl, arith, bit_and, bit_or}
use flint_rtos.Bits.Step.{bit_or-step, bit_and-step, half-bit_or, half-bit_and}

-- Digit `i` of `w`, which is 0 or 1.
unfoldable pub digit : ℕ → ℕ → ℕ
digit w zero = w % 2
digit w (suc i) = digit (w / 2) i

pub digit-le-one : (w i : ℕ) → digit w i ≤ 1
unfolding digit
digit-le-one w zero = omega arith
digit-le-one w (suc i) = digit-le-one (w / 2) i

pub digit-bit_or : (a b i : ℕ) → digit (bit_or a b) i ≡ max (digit a i) (digit b i)
unfolding digit
digit-bit_or a b zero = omega (arith, bit_or-step a b)
digit-bit_or a b (suc i) = rw (half-bit_or a b) (digit-bit_or (a / 2) (b / 2) i)

pub digit-bit_and : (a b i : ℕ) → digit (bit_and a b) i ≡ min (digit a i) (digit b i)
unfolding digit
digit-bit_and a b zero = omega (arith, bit_and-step a b)
digit-bit_and a b (suc i) = rw (half-bit_and a b) (digit-bit_and (a / 2) (b / 2) i)

pub digit-zero : (i : ℕ) → digit 0 i ≡ 0
unfolding digit
digit-zero zero = refl
digit-zero (suc i) = digit-zero i
