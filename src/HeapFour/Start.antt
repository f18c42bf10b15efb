-- ===== src/HeapFour/Start.antt =====
-- `vPortInitialiseBlocks`.
use flint_rtos.Base.{ℕ, ◌+◌, ◌-◌, ◌%◌, ◌^◌, ◌≤◌, ◌<◌, ◌≡◌, arith, refl, [], ◌∷◌, true}
use flint_rtos.HeapFour.{Heap, header, first_block, end_block, one_block, initialise}
use flint_rtos.HeapFour.Tiles.{Tile}
use flint_rtos.HeapFour.Pool.{IsPool}

abbrev pub whole_pool : ℕ → ℕ → Tile
whole_pool first end = record { address = first; bytes = end - first; is_free = true }

one_block-IsPool :
    (first end : ℕ) (h : Heap)
    → 16 ≤ first
    → first % 16 ≡ 0
    → end % 16 ≡ 0
    → first < end
    → end < 2 ^ 63
    → IsPool (one_block first end h) first (whole_pool first end ∷ [])
unfolding one_block
one_block-IsPool first end h low a e lt word = record {
  low = low;
  aligned = a;
  word = word;
  end_next = ground arith;
  start_size = ground arith;
  head = ground arith;
  row = (
    refl,
    record {
      some_bytes = omega arith;
      whole = omega arith;
      sized = ground arith;
      linked = ground arith;
    },
    omega arith,
  );
  apart = (refl, tt);
  marks = (refl, tt);
  counted = omega arith;
  least = omega arith;
}

-- The ends of the pool.
bounds :
    (base total : ℕ)
    → 0 < base
    → 64 ≤ total
    → (16 ≤ first_block base)
      × (first_block base % 16 ≡ 0)
      × (end_block base total % 16 ≡ 0)
      × (base ≤ first_block base)
      × (first_block base + 32 ≤ end_block base total)
      × (end_block base total + header ≤ base + total)
unfolding first_block end_block
bounds base total pos large = ground arith

-- In a pool of 64 bytes at least, within the lower half of the addresses, `vPortInitialiseBlocks` makes
-- a valid pool of one free block, which starts at the base or after it and leaves room for the end
-- marker.
pub initialise-IsPool :
    (base total : ℕ) (h : Heap)
    → 0 < base
    → 64 ≤ total
    → base + total < 2 ^ 63
    → IsPool
        (initialise base total h)
        (first_block base)
        (whole_pool (first_block base) (end_block base total) ∷ [])
      × (base ≤ first_block base)
      × (end_block base total + header ≤ base + total)
unfolding initialise
initialise-IsPool base total h pos large word =
    let b = bounds base total pos large in
    (
      one_block-IsPool (first_block base) (end_block base total) h b.0 b.1 b.2 (omega (arith, b))
          (omega (arith, b, word)),
      b.3,
      b.5,
    )
