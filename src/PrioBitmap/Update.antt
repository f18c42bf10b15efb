-- ===== src/PrioBitmap/Update.antt =====
-- `flint_prio_bitmap_set` and `flint_prio_bitmap_clear` as operations on a set of priorities.
use flint_rtos.Base.{ℕ, ◌-◌, ◌/◌, ◌%◌, ◌^◌, ◌<◌, ◌≡◌, ◌≢◌, arith, ap, ◌∙◌}
use flint_rtos.Base.{◌==◌, ◌&&◌, ◌||◌, not, if◌then◌else◌, bit_and, bit_or}
use flint_rtos.Base.{length-set, get_or-set_self, get_or-set_ne}
use flint_rtos.Bits.{
  digit, digit-zero, digit-bit_or, digit-bit_and, digit-power, digit-complement, digit-le-one,
}
use flint_rtos.Bits.{bit_or-lt, bit_and-lt, zero-bit_and, power-lt}
use native.Mathlib.Nat.{mod-eq_of_lt}
use flint_rtos.PrioBitmap.{Bitmap, insert, clear}
use flint_rtos.PrioBitmap.Valid.{word_of, occupied, IsValid}

one_bit_lem : (b : ℕ) → b < 32 → 2 ^ b % 2 ^ 32 ≡ 2 ^ b
one_bit_lem b h = mod-eq_of_lt (power-lt b 32 h)

-- A word after one of its bits is set.
with_bit :
    (w b j : ℕ) → b < 32 → digit (bit_or w (2 ^ b % 2 ^ 32)) j ≡ (if b == j then 1 else digit w j)
with_bit w b j h =
    rw (one_bit_lem b h, digit-bit_or w (2 ^ b) j, digit-power b j)
      (ground (arith, digit-le-one w j))

with_bit-ne : (w b : ℕ) → b < 32 → bit_or w (2 ^ b % 2 ^ 32) ≢ 0
with_bit-ne w b h e = ground (arith, with_bit w b b h, digit-zero b, ap (λ v. digit v b) e)

-- A word after one of its bits is cleared.
without_bit :
    (w b j : ℕ)
    → b < 32
    → j < 32
    → digit (bit_and w (2 ^ 32 - 1 - 2 ^ b % 2 ^ 32)) j ≡ (if b == j then 0 else digit w j)
without_bit w b j hb hj =
    rw
      (
        one_bit_lem b hb,
        digit-bit_and w (2 ^ 32 - 1 - 2 ^ b) j,
        digit-complement 32 j (2 ^ b) hj (power-lt b 32 hb),
        digit-power b j,
      )
      (ground (arith, digit-le-one w j))

module _ (bm : Bitmap) (v : IsValid bm) (p : ℕ) (h : p < 256) where
  word-insert :
      (i : ℕ)
      → word_of (insert bm p) i
        ≡ (if p / 32 == i then bit_or (word_of bm i) (2 ^ (p % 32) % 2 ^ 32) else word_of bm i)
  unfolding insert
  word-insert i = ground (
    arith,
    v.size,
    get_or-set_self bm.level1 (p / 32) (bit_or (word_of bm (p / 32)) (2 ^ (p % 32) % 2 ^ 32)) 0,
    get_or-set_ne bm.level1 (p / 32) i (bit_or (word_of bm (p / 32)) (2 ^ (p % 32) % 2 ^ 32)) 0,
  )

  -- After `flint_prio_bitmap_set` the occupied priorities are `prio` and those from before.
  pub occupied-insert : (q : ℕ) → occupied (insert bm p) q ≡ (p == q || occupied bm q)
  occupied-insert q =
      ground (
        arith,
        word-insert (q / 32),
        with_bit (word_of bm (q / 32)) (p % 32) (q % 32) (omega arith),
      )

  pub insert-IsValid : IsValid (insert bm p)
  insert-IsValid = record {
    size = unfold insert in (length-set bm.level1 (p / 32) _ ∙ v.size);
    words = λ i.
        ground
          (arith, word-insert i, v.words i, bit_or-lt 32 (word_of bm i) (2 ^ (p % 32) % 2 ^ 32));
    narrow =
        unfold insert in
        bit_or-lt 8 bm.summary _ v.narrow
          (rw (one_bit_lem (p / 32) (omega arith)) (power-lt (p / 32) 8 (omega arith)));
    marks = λ i lt.
        unfold insert in
        ground (
          arith,
          word-insert i,
          v.marks i lt,
          with_bit bm.summary (p / 32) i (omega arith),
          with_bit-ne (word_of bm i) (p % 32) (omega arith),
        );
  }

  abbrev left_of : ℕ → ℕ
  left_of i = bit_and (word_of bm i) (2 ^ 32 - 1 - 2 ^ (p % 32) % 2 ^ 32)

  word-clear : (i : ℕ) → word_of (clear bm p) i ≡ (if p / 32 == i then left_of i else word_of bm i)
  unfolding clear
  word-clear i = ground (
    arith,
    v.size,
    get_or-set_self bm.level1 (p / 32) (left_of (p / 32)) 0,
    get_or-set_ne bm.level1 (p / 32) i (left_of (p / 32)) 0,
  )

  -- After `flint_prio_bitmap_clear` the occupied priorities are those from before but `prio`.
  pub occupied-clear : (q : ℕ) → occupied (clear bm p) q ≡ (not (p == q) && occupied bm q)
  occupied-clear q = ground (
    arith,
    word-clear (q / 32),
    without_bit (word_of bm (q / 32)) (p % 32) (q % 32) (omega arith) (omega arith),
  )

  pub clear-IsValid : IsValid (clear bm p)
  clear-IsValid = record {
    size = unfold clear in (length-set bm.level1 (p / 32) _ ∙ v.size);
    words = λ i. ground (
      arith,
      word-clear i,
      v.words i,
      bit_and-lt 32 (word_of bm i) (2 ^ 32 - 1 - 2 ^ (p % 32) % 2 ^ 32),
    );
    narrow =
        unfold clear in
        ground (arith, v.narrow, bit_and-lt 8 bm.summary (2 ^ 32 - 1 - 2 ^ (p / 32) % 2 ^ 32));
    marks = λ i lt.
        unfold clear in
        ground (
          arith,
          word-clear i,
          v.marks i lt,
          without_bit bm.summary (p / 32) i (omega arith) (omega arith),
          zero-bit_and (2 ^ 32 - 1 - 2 ^ (p % 32) % 2 ^ 32),
        );
  }
