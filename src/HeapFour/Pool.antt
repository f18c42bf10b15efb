-- ===== src/HeapFour/Pool.antt =====
-- The invariant of the allocator.
use flint_rtos.Base.{
  ℕ, ◌+◌, ◌%◌, ◌^◌, ◌≤◌, ◌<◌, ◌≡◌, arith, refl, true, false, Bool-cases, inl, inr, List, [], ◌∷◌,
}
use flint_rtos.HeapFour.{Heap, start}
use flint_rtos.HeapFour.Tiles.{Tile, Right, first_free, Apart, free_bytes}
use flint_rtos.HeapFour.Rows.{Marked}
use flint_rtos.HeapFour.Merge.{rest, extra}

-- The blocks `ts` fill the pool from `first` to `pxEnd`; the free ones are the free list, no two of
-- them are side by side, the taken ones are marked, and the counters are right.
pub record IsPool (h : Heap) (first : ℕ) (ts : List Tile) : Type 0 where
  pub low : 16 ≤ first
  pub aligned : first % 16 ≡ 0
  pub word : h.end < 2 ^ 63
  pub end_next : h.next h.end ≡ 0
  pub start_size : h.size start ≡ 0
  pub head : h.next start ≡ first_free h.end ts
  pub row : Right h first ts
  pub apart : Apart false ts
  pub marks : Marked h ts
  pub counted : h.remaining ≡ free_bytes ts
  pub least : h.minimum ≤ h.remaining

pub Right-bytes : (h : Heap) (b : ℕ) (ts : List Tile) → Right h b ts → b + free_bytes ts ≤ h.end
Right-bytes h b [] r = omega (arith, r)
Right-bytes h b (t ∷ ts) r = ground (arith, Right-bytes h (b + t.bytes) ts r.2)

pub Apart-rest : (ts : List Tile) → Apart false ts → Apart true (rest ts)
Apart-rest [] a = tt
Apart-rest (t ∷ ts) a = elim (Bool-cases t.is_free) [
  | inl e ↦ rw e (rw e at a.1)
  | inr e ↦ simp (e) (refl, rw e at a.1)
]

pub Marked-rest : (h : Heap) (ts : List Tile) → Marked h ts → Marked h (rest ts)
Marked-rest h [] m = tt
Marked-rest h (t ∷ ts) m = elim (Bool-cases t.is_free) [
  | inl e ↦ rw e m.1
  | inr e ↦ simp (e) (rw e at m.0, m.1)
]

pub free_bytes-rest : (ts : List Tile) → extra ts + free_bytes (rest ts) ≡ free_bytes ts
free_bytes-rest [] = refl
free_bytes-rest (t ∷ ts) = elim (Bool-cases t.is_free) [
  | inl e ↦ rw e refl
  | inr e ↦ simp (e) (omega arith)
]
