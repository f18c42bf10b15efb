-- ===== src/PrioBitmap.antt =====
-- kernel/prio_bitmap.c and include/flint/prio_bitmap.h: the two-level bitmap of runnable
-- priorities. A `flint_word_t` has 32 bits, and there are 256 priorities in 8 words.
pub mod Word
pub mod Valid
pub mod Update
pub mod Highest
use flint_rtos.Base.{ℕ, ◌+◌, ◌-◌, ◌*◌, ◌/◌, ◌%◌, ◌^◌, List, Bool, not, ◌==◌, if◌then◌else◌}
use flint_rtos.Base.{bit_and, bit_or, get_or, set, replicate}
use flint_rtos.Bits.{◌>>>◌}

abbrev pub word_bits : ℕ
word_bits = 32

abbrev pub prio_words : ℕ
prio_words = 8

pub record Bitmap : Type 0 where
  pub summary : ℕ
  pub level1 : List ℕ

-- `if ((w & mask) != 0U) { pos = (uint8_t)(pos + shift); w >>= shift; }` on `(pos, w)`.
unfoldable pub narrow : ℕ → ℕ → ℕ × ℕ → ℕ × ℕ
narrow mask shift (pos, w) =
    if bit_and w mask == 0 then (pos, w) else ((pos + shift) % 2 ^ 8, w >>> shift)

-- The last test of `word_highest_bit` leaves `w` alone, and nothing reads `w` after it.
unfoldable pub word_highest_bit : ℕ → ℕ
word_highest_bit w =
    let (pos, v) = narrow 0xc 2 (narrow 0xf0 4 (narrow 0xff00 8 (narrow 0xffff0000 16 (0, w)))) in
    if bit_and v 0x2 == 0 then pos else (pos + 1) % 2 ^ 8

-- The loop writes 0 to each word.
unfoldable pub init : Bitmap
init = record { summary = 0; level1 = replicate prio_words 0 }

abbrev pub one_bit : ℕ → ℕ
one_bit bit = 2 ^ bit % 2 ^ 32

-- `~x` of a 32-bit word.
abbrev pub complement : ℕ → ℕ
complement x = 2 ^ 32 - 1 - x

unfoldable pub insert : Bitmap → ℕ → Bitmap
insert bm prio =
    let word = prio / word_bits in
    let bit = prio % word_bits in
    record bm {
      level1 = set bm.level1 word (bit_or (get_or bm.level1 word 0) (one_bit bit));
      summary = bit_or bm.summary (one_bit word);
    }

unfoldable pub clear : Bitmap → ℕ → Bitmap
clear bm prio =
    let word = prio / word_bits in
    let bit = prio % word_bits in
    let left = bit_and (get_or bm.level1 word 0) (complement (one_bit bit)) in
    record bm {
      level1 = set bm.level1 word left;
      summary = if left == 0 then bit_and bm.summary (complement (one_bit word)) else bm.summary;
    }

unfoldable pub empty : Bitmap → Bool
empty bm = bm.summary == 0

unfoldable pub highest : Bitmap → ℕ
highest bm =
    let top_word = word_highest_bit bm.summary in
    let top_bit = word_highest_bit (get_or bm.level1 top_word 0) in
    (top_word * word_bits + top_bit) % 2 ^ 16
