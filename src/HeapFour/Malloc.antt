-- ===== src/HeapFour/Malloc.antt =====
-- `pvPortMalloc`.
use flint_rtos.Base.{
  ℕ, ◌+◌, ◌%◌, ◌^◌, ◌≤◌, ◌<◌, ◌≡◌, ◌⊎◌, inl, inr, arith, refl, ◌∙◌, true, false, ltb, leb, ◌==◌,
  ◌||◌, Bool-cases, List, [], ◌∷◌, some,
}
use flint_rtos.HeapFour.{Heap, header, malloc, allocate, needed}
use flint_rtos.HeapFour.Tiles.{Tile, Right-le, free_bytes}
use flint_rtos.HeapFour.Walk.{Smaller, Fit, NoFit, find_fit_lem}
use flint_rtos.HeapFour.Pool.{IsPool}
use flint_rtos.HeapFour.Take.{Allocated, take_block-Allocated}

-- The wanted bytes and the header fit in, with less than 16 bytes of padding.
pub needed_bounds :
    (wanted : ℕ)
    → wanted < 2 ^ 63
    → (wanted + header ≤ needed wanted)
      × (needed wanted < wanted + header + 16)
      × (needed wanted % 16 ≡ 0)
unfolding needed
needed_bounds wanted small = ground arith

Smaller-all : (w : ℕ) (ts : List Tile) → free_bytes ts < w → Smaller w ts
Smaller-all w [] lt = tt
Smaller-all w (t ∷ ts) lt = (λ e. ground (arith, e, lt), Smaller-all w ts (ground (arith, lt)))

module _ {h : Heap} {first : ℕ} {ts : List Tile} (v : IsPool h first ts) (base total wanted : ℕ)
    (pos : 0 < wanted) (small : wanted < 2 ^ 63) where
  abbrev w : ℕ
  w = needed wanted

  bounds : (wanted + header ≤ w) × (w < wanted + header + 16) × (w % 16 ≡ 0)
  bounds = needed_bounds wanted small

  made : malloc base total wanted h ≡ allocate wanted h
  unfolding malloc
  made =
      let e : (h.end == 0) ≡ false = ground (arith, Right-le h first ts v.row, v.low) in rw e refl

  asked : (wanted == 0 || leb (2 ^ 63) wanted) ≡ false
  asked = ground (arith, pos, small)

  malloc-full : ltb h.remaining w ≡ true → malloc base total wanted h ≡ some (0, h)
  unfolding allocate
  malloc-full full = made ∙ rw (asked, full) refl

  malloc-NoFit : ltb h.remaining w ≡ false → NoFit h w ts → malloc base total wanted h ≡ some (0, h)
  unfolding allocate
  malloc-NoFit room n =
      let end : (h.end == h.end) ≡ true = ground arith in made ∙ rw (asked, room, n.found, end) refl

  malloc-Fit :
      ltb h.remaining w ≡ false
      → (f : Fit h first w ts)
      → (p : ℕ) × (h' : Heap) × (malloc base total wanted h ≡ some (p, h'))
        × Allocated h h' first w ts p
  unfolding allocate
  malloc-Fit room f =
      let (h', e, a) = take_block-Allocated v w (omega (arith, bounds.0)) bounds.2 f in
      let inside = Right-le h (f.tile.address + f.tile.bytes) f.after f.right.2 in
      let other : (f.tile.address == h.end) ≡ false =
        ground (arith, inside, f.right.1.some_bytes) in
      (f.tile.address + header, h', made ∙ rw (asked, room, f.found, other) e, a)

  -- From a valid pool, a request of a number of bytes that is not 0 and below 2 ^ 63 ends in one of two ways: it
  -- hands out the first free block that is large enough for the bytes and the header, or a part of it,
  -- and keeps the pool valid, or it returns NULL and changes nothing, where no free block is large enough.
  pub malloc_lem :
      ((p : ℕ) × (h' : Heap) × (malloc base total wanted h ≡ some (p, h'))
        × Allocated h h' first (needed wanted) ts p)
      ⊎ ((malloc base total wanted h ≡ some (0, h)) × Smaller (needed wanted) ts)
  malloc_lem = elim (Bool-cases (ltb h.remaining w)) [
    | inl full ↦ inr (malloc-full full, Smaller-all w ts (ground (arith, full, v.counted)))
    | inr room ↦
        elim (find_fit_lem h first first w [] ts (refl, v.head) v.row tt (omega (arith, v.low))
          v.end_next) [
            | inl f ↦ inl (malloc-Fit room f)
            | inr n ↦ inr (malloc-NoFit room n, n.small)
          ]
  ]
