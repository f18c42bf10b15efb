-- ===== src/Bits/Width.antt =====
-- How wide `&` and `|` are, and the digits of powers of two and of complements.
use Prim.Native.Nat.{bit_and-bitwise}
use native.Mathlib.Nat.{pow-suc, one-le-pow, pow-le-pow_right}
use flint_rtos.Base.{ℕ, zero, suc, ◌-◌, ◌/◌, ◌^◌, ◌≤◌, ◌<◌, ◌≡◌, refl, arith}
use flint_rtos.Base.{bit_and, bit_or, if◌then◌else◌, ◌==◌}
use flint_rtos.Bits.Step.{bit_or-step, bit_and-step}
use flint_rtos.Bits.Digit.{digit, digit-zero}

pub bit_or-lt : (k a b : ℕ) → a < 2 ^ k → b < 2 ^ k → bit_or a b < 2 ^ k
bit_or-lt zero a b ha hb =
    let ea : a ≡ 0 = omega arith in let eb : b ≡ 0 = omega arith in ground arith
bit_or-lt (suc k) a b ha hb =
    ground (arith, bit_or-step a b, pow-suc 2 k, bit_or-lt k (a / 2) (b / 2))

pub zero-bit_and : (b : ℕ) → bit_and 0 b ≡ 0
zero-bit_and b = bit_and-bitwise 0 b

pub bit_and-lt : (k a b : ℕ) → a < 2 ^ k → bit_and a b < 2 ^ k
bit_and-lt zero a b ha = let e : a ≡ 0 = omega arith in rw e (omega (arith, zero-bit_and b))
bit_and-lt (suc k) a b ha =
    ground (arith, bit_and-step a b, pow-suc 2 k, bit_and-lt k (a / 2) (b / 2))

-- A word below `2 ^ k` has no digit at `k` or above.
pub digit_above : (j k w : ℕ) → k ≤ j → w < 2 ^ k → digit w j ≡ 0
unfolding digit
digit_above zero zero w h lt = omega arith
digit_above zero (suc k) w h lt = absurd (omega arith)
digit_above (suc j) zero w h lt = let e : w ≡ 0 = omega arith in rw e (digit-zero j)
digit_above (suc j) (suc k) w h lt =
    digit_above j k (w / 2) (omega arith) (omega (arith, pow-suc 2 k))

pub digit_top : (k w : ℕ) → 2 ^ k ≤ w → w < 2 ^ suc k → digit w k ≡ 1
unfolding digit
digit_top zero w lo hi = omega arith
digit_top (suc k) w lo hi =
    digit_top k (w / 2) (omega (arith, pow-suc 2 k)) (omega (arith, pow-suc 2 k, pow-suc 2 (suc k)))

half-power : (k : ℕ) → 2 ^ suc k / 2 ≡ 2 ^ k
half-power k = omega (arith, pow-suc 2 k)

pub digit-power : (i j : ℕ) → digit (2 ^ i) j ≡ (if i == j then 1 else 0)
unfolding digit
digit-power zero zero = refl
digit-power zero (suc j) = ground (arith, digit-zero j)
digit-power (suc i) zero = ground (arith, pow-suc 2 i)
digit-power (suc i) (suc j) = rw (half-power i) (ground (arith, digit-power i j))

-- `~w` at width `n`.
pub digit-complement : (n j w : ℕ) → j < n → w < 2 ^ n → digit (2 ^ n - 1 - w) j ≡ 1 - digit w j
unfolding digit
digit-complement zero j w h lt = absurd (omega arith)
digit-complement (suc n) zero w h lt = omega (arith, pow-suc 2 n)
digit-complement (suc n) (suc j) w h lt =
    rw (half n w) (digit-complement n j (w / 2) (omega arith) (omega (arith, pow-suc 2 n)))
  where
    half : (n w : ℕ) → (2 ^ suc n - 1 - w) / 2 ≡ 2 ^ n - 1 - w / 2
    half n w = omega (arith, pow-suc 2 n)

pub power-lt : (b n : ℕ) → b < n → 2 ^ b < 2 ^ n
power-lt b n h = omega (
  arith,
  pow-suc 2 b,
  one-le-pow b 2,
  pow-le-pow_right {n = 2} (omega arith) {i = suc b} {j = n} h,
)
