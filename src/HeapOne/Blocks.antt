-- ===== src/HeapOne/Blocks.antt =====
-- The blocks that heap_1 hands out.
use flint_rtos.Bits.{bit_and-mask}
use flint_rtos.Base.{
  ℕ, ◌-◌, ◌+◌, ◌%◌, ◌^◌, ◌≤◌, ◌<◌, ◌≡◌, ◌⊎◌, arith, refl, true, leb, bit_and, none, some,
}
use flint_rtos.HeapOne.{aligned, malloc}

low_bits : (w : ℕ) → bit_and w 15 ≡ w % 16
low_bits w = bit_and-mask 4 w

aligned-up :
    (wanted : ℕ)
    → wanted ≤ 2 ^ 63
    → (wanted ≤ aligned wanted) × (aligned wanted < wanted + 16) × (aligned wanted % 16 ≡ 0)
unfolding aligned
aligned-up wanted small = ground (arith, low_bits wanted)

aligned-wraps : (wanted : ℕ) → 2 ^ 64 - 16 < wanted → wanted < 2 ^ 64 → aligned wanted ≡ 0
unfolding aligned
aligned-wraps wanted big word = ground (arith, low_bits wanted)

module _ (total wanted next : ℕ) (whole : next % 16 ≡ 0) (inside : next ≤ total)
    (addressed : total < 2 ^ 63) where
  -- From a free byte at a multiple of 16 within a heap of less than 2 ^ 63 bytes, a request of at most
  -- 2 ^ 63 bytes gives the block from the free byte on, or nothing. In the first case the next free byte is behind the
  -- block by less than 16 bytes, a multiple of 16 again, and within the heap; in the second case it
  -- stays, and fewer than the wanted size and 15 bytes were left.
  pub malloc-block :
      wanted ≤ 2 ^ 63
      → (((malloc total wanted next).0 ≡ some next)
          × (next + wanted ≤ (malloc total wanted next).1)
          × ((malloc total wanted next).1 < next + wanted + 16)
          × ((malloc total wanted next).1 % 16 ≡ 0)
          × ((malloc total wanted next).1 ≤ total))
        ⊎ (((malloc total wanted next).0 ≡ none)
            × ((malloc total wanted next).1 ≡ next)
            × (total < next + wanted + 15))
  unfolding malloc
  malloc-block small =
      let up = aligned-up wanted small in
      let fits : (next + aligned wanted) % 2 ^ 64 ≡ next + aligned wanted = omega arith in
      ground (arith, up, fits)

  -- From a free byte at a multiple of 16 within a heap of less than 2 ^ 63 bytes, a request of one of the
  -- last 15 sizes below 2 ^ 64 wraps around to 0: it gives the free byte, which stays free.
  pub malloc-wraps :
      2 ^ 64 - 16 < wanted → wanted < 2 ^ 64 → malloc total wanted next ≡ (some next, next)
  unfolding malloc
  malloc-wraps big word =
      let here : (next + aligned wanted) % 2 ^ 64 ≡ next =
        omega (arith, aligned-wraps wanted big word) in
      let yes : leb next total ≡ true = ground arith in rw (here, yes) refl
