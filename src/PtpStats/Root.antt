-- ===== src/PtpStats/Root.antt =====
-- The integer square root is the largest number whose square is at most the argument.
use flint_rtos.Base.{
  ℕ, zero, suc, ◌+◌, ◌-◌, ◌*◌, ◌%◌, ◌^◌, ◌≤◌, ◌<◌, ◌≡◌, refl, subst, either, ap, arith, false, ◌==◌,
  ltb, leb, if◌then◌else◌, Option, some,
}
use native.Mathlib.Nat.{pow-suc, pow-le-pow_right}
use flint_rtos.Bits.{◌>>>◌}
use flint_rtos.PtpStats.{first_bit, root_bits, root_from, isqrt64}

-- The powers of 2.
power : ℕ → ℕ
power zero = 1
power (suc k) = 2 * power k

-- `r` is the largest number whose square is at most `x`.
pub record IsRoot (x r : ℕ) : Type 0 where
  pub below : r * r ≤ x
  pub above : x < (r + 1) * (r + 1)

-- The answer is there, and it is that number.
abbrev HasRoot : ℕ → Option ℕ → Type 0
HasRoot x o = (r : ℕ) × (o ≡ some r) × IsRoot x r

small_square : (s : ℕ) → s < 2 ^ 32 → s * s < 2 ^ 64
small_square s small =
    let d = 2 ^ 32 - 1 - s in
    let total : s + d ≡ 2 ^ 32 - 1 = omega arith in omega (arith, ap (λ (t : ℕ). t * t) total)

positive_square : (h : ℕ) → 0 < h → 0 < h * h
positive_square zero more = absurd (omega arith)
positive_square (suc h) more = omega arith

-- The sums of a round stay below 2 ^ 64.
module _ (q h : ℕ) (room : q + 2 * h ≤ 2 ^ 32) (more : 0 < h) where
  next_small : (q * (2 * h) + h * h) % 2 ^ 64 ≡ q * (2 * h) + h * h
  next_small = let s = small_square (q + h) (omega arith) in omega (arith, s)

  half : (q * (2 * h)) >>> 1 ≡ q * h
  half = omega arith

  taken_small : (q * h + h * h) % 2 ^ 64 ≡ (q + h) * h
  taken_small = let s = small_square (q + h) (omega arith) in omega (arith, s)

root_bits-done : (fuel x r : ℕ) → 0 < fuel → root_bits fuel x r 0 ≡ some r
unfolding root_bits
root_bits-done zero x r more = absurd (omega arith)
root_bits-done (suc fuel) x r more = refl

power_pos : (k : ℕ) → 0 < power k
unfolding power
power_pos zero = omega arith
power_pos (suc k) = omega (arith, power_pos k)

-- A round of the loop.
root_bits-round :
    (fuel q h x : ℕ)
    → q + 2 * h ≤ 2 ^ 32
    → 0 < h
    → root_bits (suc fuel) x (q * (2 * h)) (h * h) ≡ (
        if leb (q * (2 * h) + h * h) x
        then root_bits fuel (x - (q * (2 * h) + h * h)) ((q + h) * h) ((h * h) >>> 2)
        else root_bits fuel x (q * h) ((h * h) >>> 2))
unfolding root_bits
root_bits-round fuel q h x room more =
    let square : 0 < h * h = positive_square h more in
    let other : (h * h == 0) ≡ false = ground (arith, square) in
    rw (other, half q h room more, next_small q h room more, taken_small q h room more) refl

power-pow : (k : ℕ) → power k ≡ 2 ^ k
unfolding power
power-pow zero = refl
power-pow (suc k) = omega (arith, power-pow k, pow-suc 2 k)

power_room : (k : ℕ) → k < 32 → 0 + 2 * power k ≤ 2 ^ 32
power_room k in_word =
    omega
      (arith, power-pow k, pow-le-pow_right {n = 2} (omega arith) {i = k} {j = 31} (omega arith))

-- From the root `q` of the digits above, with `h` the place of the next one.
root_bits-IsRoot :
    (k fuel q x whole : ℕ)
    → k + 1 < fuel
    → q + 2 * power k ≤ 2 ^ 32
    → q * q + x ≡ whole
    → x < 4 * (q * power k) + 4 * (power k * power k)
    → HasRoot whole (root_bits fuel x (q * (2 * power k)) (power k * power k))
unfolding root_bits power
root_bits-IsRoot k zero q x whole lt room e bound = absurd (omega arith)
root_bits-IsRoot zero (suc fuel) q x whole lt room e bound =
    let next = q * 2 + 1 in
    rw (root_bits-round fuel q 1 x room (omega arith)) (
      either (HasRoot whole) (leb next x)
        (λ fits. rw (root_bits-done fuel (x - next) ((q + 1) * 1) (omega arith)) (
          let more : next ≤ x = ground (arith, fits) in
          (_, refl, record { below = omega arith; above = omega arith })))
        (λ large. rw (root_bits-done fuel x (q * 1) (omega arith)) (
          let less : x < next = ground (arith, large) in
          (_, refl, record { below = omega arith; above = omega arith }))))
root_bits-IsRoot (suc k) (suc fuel) q x whole lt room e bound =
    let h = 2 * power k in
    let next = q * (2 * h) + h * h in
    let down : (h * h) >>> 2 ≡ power k * power k = omega arith in
    rw (root_bits-round fuel q h x room (omega (arith, power_pos k)), down)
      (either (HasRoot whole) (leb next x)
        (λ fits.
          let more : next ≤ x = ground (arith, fits) in
          root_bits-IsRoot k fuel (q + h) (x - next) whole (omega arith) (omega arith) (omega arith)
            (omega arith))
        (λ large.
          let less : x < next = ground (arith, large) in
          root_bits-IsRoot k fuel q x whole (omega arith) (omega arith) e (omega arith)))

first_bit-zero : (fuel : ℕ) → 0 < fuel → first_bit fuel 0 0 ≡ some 0
unfolding first_bit
first_bit-zero zero more = absurd (omega arith)
first_bit-zero (suc fuel) more = refl

start-IsRoot :
    (k x : ℕ)
    → k < 32
    → x < 4 * (power k * power k)
    → HasRoot x (root_bits 33 x 0 (power k * power k))
start-IsRoot k x in_word bound =
    let nothing : 0 * (2 * power k) ≡ 0 = omega arith in
    subst (λ r. HasRoot x (root_bits 33 x r (power k * power k))) nothing
      (root_bits-IsRoot k 33 0 x x (omega arith) (power_room k in_word) (omega arith)
        (omega (arith, bound)))

-- The search for the first bit, from the square of `power k` down, and the root from there.
first_bit-IsRoot :
    (k fuel x : ℕ)
    → k < 32
    → k + 1 < fuel
    → x < 4 * (power k * power k)
    → HasRoot x (root_from x (first_bit fuel x (power k * power k)))
unfolding first_bit power root_from
first_bit-IsRoot k zero x in_word lt bound = absurd (omega arith)
first_bit-IsRoot zero (suc fuel) x in_word lt bound =
    either (λ b. HasRoot x (root_from x b)) (ltb x 1)
      (λ e.
        let none_left : x ≡ 0 = ground (arith, e) in
        rw (none_left, first_bit-zero fuel (omega arith), root_bits-done 33 0 0 (omega arith))
          ((0, refl, record { below = omega arith; above = omega arith })))
      (λ _. root_bits-IsRoot 0 33 0 x x (omega arith) (omega arith) (omega arith) bound)
first_bit-IsRoot (suc k) (suc fuel) x in_word lt bound =
    let h = 2 * power k in
    let down : (h * h) >>> 2 ≡ power k * power k = omega arith in
    either (λ b. HasRoot x (root_from x b)) (ltb x (h * h))
      (λ e.
        let less : x < h * h = ground (arith, e) in
        rw down (first_bit-IsRoot k fuel x (omega arith) (omega arith) (omega arith)))
      (λ _. start-IsRoot (suc k) x in_word bound)

-- On a 64-bit word the two loops of isqrt64 end within the 33 tests that each is given, and the answer is
-- the largest number whose square is at most the word.
pub isqrt64-IsRoot : (x : ℕ) → x < 2 ^ 64 → (r : ℕ) × (isqrt64 x ≡ some r) × IsRoot x r
unfolding isqrt64 power
isqrt64-IsRoot x small = first_bit-IsRoot 31 33 x (omega arith) (omega arith) small
