-- ===== src/Examples/HeapFour.antt =====
-- A pool of 208 bytes at 1000, new or with its first block taken.
use flint_rtos.Base.{ℕ, ◌+◌, ◌≡◌, ◌⊎◌, refl, arith, true, ◌==◌, if◌then◌else◌, List, [], ◌∷◌, some}
use mathlib.Core.Option
use flint_rtos.HeapFour.{Heap, header, first_block, end_block, initialise, needed, malloc, free}
use flint_rtos.HeapFour.Tiles.{Tile, onto}
use flint_rtos.HeapFour.Walk.{Smaller}
use flint_rtos.HeapFour.Merge.{rest}
use flint_rtos.HeapFour.Insert.{joined}
use flint_rtos.HeapFour.Pool.{IsPool}
use flint_rtos.HeapFour.Free.{free-IsPool}
use flint_rtos.HeapFour.Out.{taken}
use flint_rtos.HeapFour.Take.{Allocated}
use flint_rtos.HeapFour.Malloc.{malloc_lem}
use flint_rtos.HeapFour.Start.{whole_pool, initialise-IsPool}

abbrev blank : Heap
blank = record { next = λ a. 0; size = λ a. 0; end = 0; remaining = 0; minimum = 0 }

abbrev fresh : Heap
fresh = initialise 1000 208 blank

abbrev fresh_row : List Tile
fresh_row = whole_pool (first_block 1000) (end_block 1000 208) ∷ []

fresh-IsPool : IsPool fresh (first_block 1000) fresh_row
fresh-IsPool = (initialise-IsPool 1000 208 blank (omega arith) (omega arith) (omega arith)).0

malloc_lem_example :
    ((p : ℕ) × (h' : Heap) × (malloc 1000 208 40 fresh ≡ some (p, h'))
      × Allocated fresh h' (first_block 1000) (needed 40) fresh_row p)
    ⊎ ((malloc 1000 208 40 fresh ≡ some (0, fresh)) × Smaller (needed 40) fresh_row)
malloc_lem_example = malloc_lem fresh-IsPool 1000 208 40 (omega arith) (omega arith)

-- The first 64 bytes are taken, and 112 are free.
abbrev used : Heap
used = record {
  next = λ a. if a == 1 then 1072 else if a == 1072 then 1184 else 0;
  size = λ a. if a == 1008 then 0x8000000000000040 else if a == 1072 then 112 else 0;
  end = 1184;
  remaining = 112;
  minimum = 112;
}

abbrev left_free : Tile
left_free = record { address = 1072; bytes = 112; is_free = true }

used-IsPool : IsPool used 1008 (taken 1008 64 ∷ left_free ∷ [])
used-IsPool = record {
  low = omega arith;
  aligned = refl;
  word = omega arith;
  end_next = refl;
  start_size = refl;
  head = refl;
  row = (
    refl,
    record { some_bytes = omega arith; whole = refl; sized = refl; linked = refl },
    (refl, record { some_bytes = omega arith; whole = refl; sized = refl; linked = refl }, refl),
  );
  apart = (refl, (refl, tt));
  marks = (refl, (refl, tt));
  counted = refl;
  least = omega arith;
}

free-IsPool_example :
    (h' : Heap) × (free (1008 + header) used ≡ some h')
    × IsPool h' 1008 (onto (rest []) (joined 1008 64 [] (left_free ∷ []) ∷ rest (left_free ∷ [])))
free-IsPool_example = free-IsPool [] (taken 1008 64) (left_free ∷ []) used-IsPool refl

-- The fresh pool's first block is handed out behind its header.
first_pointer : Option.map (λ r. r.0) (malloc 1000 208 40 fresh) ≡ some 1024
unfolding malloc initialise
first_pointer = refl
