-- ===== src/Bits/Step.antt =====
-- The native `bit_and` and `bit_or`, one binary digit at a time.
use Prim.Native.Nat.{digits, bitwise, bit_and-bitwise, bit_or-bitwise}
use flint_rtos.Base.{ℕ, zero, suc, ◌+◌, ◌*◌, ◌/◌, ◌%◌, ◌≤◌, ◌≡◌, refl, sym, ◌∙◌, ap, arith}
use flint_rtos.Base.{min, max, bit_and, bit_or}

module _ (rest : ℕ → ℕ) (op : ℕ → ℕ → ℕ) where
  digits-zero : (n w : ℕ) → digits rest op n 0 w ≡ rest w
  digits-zero zero w = refl
  digits-zero (suc n) w = refl

  -- Any fuel that covers the first word gives the same digits.
  fuel_enough : (u n m w : ℕ) → u ≤ n → u ≤ m → digits rest op n u w ≡ digits rest op m u w
  fuel_enough u zero zero w hn hm = refl
  fuel_enough zero n m w hn hm = digits-zero n w ∙ sym (digits-zero m w)
  fuel_enough (suc u) (suc n) (suc m) w hn hm =
      ap (λ d. d * 2 + op (suc u % 2) (w % 2))
        (fuel_enough (suc u / 2) n m (w / 2) (omega arith) (omega arith))
  fuel_enough (suc u) n m w hn hm = absurd (omega arith)

  low_digit :
      (u w : ℕ)
      → bitwise rest op (suc u) w ≡ bitwise rest op (suc u / 2) (w / 2) * 2 + op (suc u % 2) (w % 2)
  low_digit u w =
      ap (λ d. d * 2 + op (suc u % 2) (w % 2))
        (fuel_enough (suc u / 2) u (suc u / 2) (w / 2) (omega arith) (omega arith))

pub bit_or-step : (u w : ℕ) → bit_or u w ≡ bit_or (u / 2) (w / 2) * 2 + max (u % 2) (w % 2)
bit_or-step zero w = simp bit_or-bitwise (omega arith)
bit_or-step (suc u) w = simp bit_or-bitwise (low_digit (λ y. y) max u w)

pub bit_and-step : (u w : ℕ) → bit_and u w ≡ bit_and (u / 2) (w / 2) * 2 + min (u % 2) (w % 2)
bit_and-step zero w = simp bit_and-bitwise (omega arith)
bit_and-step (suc u) w = simp bit_and-bitwise (low_digit (λ y. 0) min u w)

pub half-bit_or : (u w : ℕ) → bit_or u w / 2 ≡ bit_or (u / 2) (w / 2)
half-bit_or u w = omega (arith, bit_or-step u w)

pub half-bit_and : (u w : ℕ) → bit_and u w / 2 ≡ bit_and (u / 2) (w / 2)
half-bit_and u w = omega (arith, bit_and-step u w)
