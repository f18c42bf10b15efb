-- ===== src/PrioBitmap/Valid.antt =====
-- The invariant of the bitmap, and the set of priorities that it stands for.
use flint_rtos.Base.{ℕ, ◌/◌, ◌%◌, ◌^◌, ◌<◌, ◌≡◌, arith, refl}
use flint_rtos.Base.{Bool, false, ◌==◌, if◌then◌else◌, length, get_or, get_or-replicate}
use flint_rtos.Bits.{digit, digit-zero}
use flint_rtos.PrioBitmap.{Bitmap, init}

-- The word of level 1 that holds the priorities from `32 * i` on.
abbrev pub word_of : Bitmap → ℕ → ℕ
word_of bm i = get_or bm.level1 i 0

-- Priority `p` has a runnable thread.
abbrev pub occupied : Bitmap → ℕ → Bool
occupied bm p = digit (word_of bm (p / 32)) (p % 32) == 1

-- Eight words of 32 bits, and a summary that has bit `i` just if word `i` is not zero.
pub record IsValid (bm : Bitmap) : Type 0 where
  pub size : length bm.level1 ≡ 8
  pub words : (i : ℕ) → word_of bm i < 2 ^ 32
  pub narrow : bm.summary < 2 ^ 8
  pub marks : (i : ℕ) → i < 8 → digit bm.summary i ≡ (if word_of bm i == 0 then 0 else 1)

pub init-IsValid : IsValid init
unfolding init
init-IsValid = record {
  size = refl;
  words = λ i. ground (arith, get_or-replicate {A = ℕ} 8 0 i);
  narrow = omega arith;
  marks = λ i h. ground (arith, get_or-replicate {A = ℕ} 8 0 i, digit-zero i);
}

pub occupied-init : (p : ℕ) → occupied init p ≡ false
unfolding init
occupied-init p = ground (arith, get_or-replicate {A = ℕ} 8 0 (p / 32), digit-zero (p % 32))
