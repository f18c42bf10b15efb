-- ===== src/Bits.antt =====
-- The words of C: `&`, `|` and the shifts as arithmetic, and a word as a row of bits.
mod Step
mod Digit
mod Width
pub use Step.{bit_or-step, bit_and-step}
unfoldable pub use Digit.{digit}
pub use Digit.{digit-le-one, digit-bit_or, digit-bit_and, digit-zero}
pub use Width.{bit_or-lt, bit_and-lt, zero-bit_and, digit_above, digit_top, digit-power}
pub use Width.{digit-complement, power-lt}
use Step.{half-bit_and}
use Prim.Native.Nat.{bit_or-bitwise}
use native.Mathlib.Nat.{pow-suc, one-le-pow, div-div-eq-div-mul, mod-eq-sub-div-mul}
use native.Mathlib.Nat.{div-mul-le_self, div-one, mul-one}
use flint_rtos.Base.{ℕ, zero, suc, ◌+◌, ◌-◌, ◌*◌, ◌/◌, ◌%◌, ◌^◌, ◌≤◌, ◌<◌, ◌≡◌, refl, arith, ap}
use flint_rtos.Base.{bit_and, bit_or, ◌∙◌}

infixl 75 ◌<<<◌ ◌>>>◌
abbrev pub ◌<<<◌ : ℕ → ℕ → ℕ
x <<< k = x * 2 ^ k

abbrev pub ◌>>>◌ : ℕ → ℕ → ℕ
x >>> k = x / 2 ^ k

or_nothing : (w fuel : ℕ) → w ≤ fuel → bit_or w 0 ≡ w
or_nothing zero fuel small = refl
or_nothing (suc w) zero small = absurd (omega arith)
or_nothing (suc w) (suc fuel) small =
    omega (arith, or_nothing (suc w / 2) fuel (omega arith), bit_or-step (suc w) 0)

and_nothing : (w fuel : ℕ) → w ≤ fuel → bit_and w 0 ≡ 0
and_nothing zero fuel small = refl
and_nothing (suc w) zero small = absurd (omega arith)
and_nothing (suc w) (suc fuel) small =
    omega (arith, and_nothing (suc w / 2) fuel (omega arith), bit_and-step (suc w) 0)

twice-shift : (a k : ℕ) → a * 2 ^ suc k ≡ 2 * (a * 2 ^ k)
twice-shift a k = omega (arith, ap (λ (t : ℕ). a * t) (pow-suc 2 k))

half-div : (a k : ℕ) → a / 2 / 2 ^ k ≡ a / 2 ^ suc k
half-div a k =
    rw (div-div-eq-div-mul a 2 (2 ^ k)) (ap (λ (d : ℕ). a / d) (omega (arith, pow-suc 2 k)))

mod-shift : (a k : ℕ) → a % 2 ^ suc k ≡ a / 2 % 2 ^ k * 2 + a % 2
mod-shift a k = omega (
  arith,
  mod-eq-sub-div-mul a (2 ^ suc k),
  mod-eq-sub-div-mul (a / 2) (2 ^ k),
  half-div a k,
  ap (λ (q : ℕ). q * 2 ^ suc k) (half-div a k),
  twice-shift (a / 2 ^ suc k) k,
  ap (λ (q : ℕ). q * 2 ^ k) (half-div a k),
  div-mul-le_self (a / 2) (2 ^ k),
)

-- `|` of fields that do not overlap is their sum.
pub bit_or-shift : (k a b : ℕ) → b < 2 ^ k → bit_or (a * 2 ^ k) b ≡ a * 2 ^ k + b
bit_or-shift zero a b h =
    let e : b ≡ 0 = omega arith in rw e (omega (arith, or_nothing (a * 1) (a * 1) (omega arith)))
bit_or-shift (suc k) a b h =
    ground
      (arith, bit_or-step (a * 2 ^ suc k) b, twice-shift a k, pow-suc 2 k, bit_or-shift k a (b / 2))

pub zero-bit_or : (b : ℕ) → bit_or 0 b ≡ b
zero-bit_or b = bit_or-bitwise 0 b

-- The same with the low field first.
pub bit_or-shift_low : (k a b : ℕ) → b < 2 ^ k → bit_or b (a * 2 ^ k) ≡ b + a * 2 ^ k
bit_or-shift_low zero a b h =
    let e : b ≡ 0 = omega arith in rw e (omega (arith, zero-bit_or (a * 1)))
bit_or-shift_low (suc k) a b h = ground (
  arith,
  bit_or-step b (a * 2 ^ suc k),
  twice-shift a k,
  pow-suc 2 k,
  bit_or-shift_low k a (b / 2),
)

-- `&` with `2 ^ k - 1` is the remainder by `2 ^ k`.
pub bit_and-mask : (k a : ℕ) → bit_and a (2 ^ k - 1) ≡ a % 2 ^ k
bit_and-mask zero a = omega (arith, and_nothing a a (omega arith))
bit_and-mask (suc k) a = ground (
  arith,
  bit_and-step a (2 ^ suc k - 1),
  pow-suc 2 k,
  one-le-pow k 2,
  mod-shift a k,
  bit_and-mask k (a / 2),
)

-- `&` with a mask that ends in `k` zeros looks at the word shifted right by `k`.
pub bit_and-high : (k a m : ℕ) → bit_and a (m * 2 ^ k) ≡ bit_and (a / 2 ^ k) m * 2 ^ k
bit_and-high zero a m = simp (div-one, mul-one)
bit_and-high (suc k) a m = ground (
  arith,
  bit_and-step a (m * 2 ^ suc k),
  twice-shift m k,
  twice-shift (bit_and (a / 2 ^ suc k) m) k,
  half-div a k,
  bit_and-high k (a / 2) m,
)

-- A shift right by `k` moves every digit down by `k` places.
pub digit-shift : (k w j : ℕ) → digit (w / 2 ^ k) j ≡ digit w (k + j)
unfolding digit
digit-shift zero w j = let e : 0 + j ≡ j = omega arith in rw (e, div-one w)
digit-shift (suc k) w j =
    let e : suc k + j ≡ suc (k + j) = omega arith in
    rw (e, ← half-div w k) (digit-shift k (w / 2) j)
