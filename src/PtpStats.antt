-- ===== src/PtpStats.antt =====
-- port/ptp/ptp_core.c: the statistics that `report` keeps and prints, and the integer square root.
pub mod Root
use flint_rtos.Base.{
  ℕ, zero, suc, ◌+◌, ◌-◌, ◌/◌, ◌%◌, ◌^◌, leb, ltb, ◌==◌, if◌then◌else◌, Option, none, some,
}
use flint_rtos.Bits.{◌>>>◌}
use flint_rtos.Int.{ℤ, pos, ◌+ℤ◌, times, quot, to_word, wrap, ltb_ℤ}
use flint_rtos.PtpServo.{abs64}

abbrev pub stats_window : ℕ
stats_window = 16

-- The sum, the largest size, the sum of squares and the number of the offsets.
pub record Stats : Type 0 where
  pub sum : ℤ
  pub max : ℤ
  pub sq : ℕ
  pub n : ℕ

abbrev pub empty : Stats
empty = record { sum = pos 0; max = pos 0; sq = 0; n = 0 }

-- An offset of the locked servo.
unfoldable pub count_offset : ℤ → Stats → Stats
count_offset offset s =
    let size = abs64 offset in
    record {
      sum = wrap 64 (s.sum +ℤ offset);
      max = if ltb_ℤ s.max size then size else s.max;
      sq = (s.sq + to_word 64 (wrap 64 (times size size))) % 2 ^ 64;
      n = (s.n + 1) % 2 ^ 32;
    }

-- The first loop of `isqrt64`; `none` is a loop that has not ended when the fuel is used up.
unfoldable pub first_bit : ℕ → ℕ → ℕ → Option ℕ
first_bit zero x bit = none
first_bit (suc fuel) x bit =
    let rest = first_bit fuel x (bit >>> 2) in if ltb x bit then rest else some bit

-- The second loop of `isqrt64`, from the remainder `x` and the root `r` so far; `none` as above.
unfoldable pub root_bits : ℕ → ℕ → ℕ → ℕ → Option ℕ
root_bits zero x r bit = none
root_bits (suc fuel) x r bit =
    let next = (r + bit) % 2 ^ 64 in
    let taken = root_bits fuel (x - next) (((r >>> 1) + bit) % 2 ^ 64) (bit >>> 2) in
    let left = root_bits fuel x (r >>> 1) (bit >>> 2) in
    if bit == 0 then some r else if leb next x then taken else left

-- The second loop from the bit that the first one ended with.
unfoldable pub root_from : ℕ → Option ℕ → Option ℕ
root_from x none = none
root_from x (some bit) = root_bits 33 x 0 bit

unfoldable pub isqrt64 : ℕ → Option ℕ
isqrt64 x = root_from x (first_bit 33 x (2 ^ 62))

-- The mean, the root of the mean square and the largest size, when `report` prints them.
unfoldable pub summary : Stats → Option (ℤ × Option ℕ × ℤ)
summary s =
    if leb stats_window s.n then some (quot s.sum s.n, isqrt64 (s.sq / s.n), s.max) else none
