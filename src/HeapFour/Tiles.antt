-- ===== src/HeapFour/Tiles.antt =====
-- The pool as a row of blocks, free ones and taken ones, seen from a place `b` between two of them:
-- the blocks to the left, nearest first, and those to the right.
use flint_rtos.Base.{
  ℕ, ◌+◌, ◌%◌, ◌≤◌, ◌<◌, ◌≡◌, ◌≢◌, arith, ◌∙◌, sym, subst, inl, inr, Bool, Bool-cases, false, ◌&&◌,
  if◌then◌else◌, List, [], ◌∷◌,
}
use flint_rtos.HeapFour.{Heap, start}

pub record Tile : Type 0 where
  pub address : ℕ
  pub bytes : ℕ
  pub is_free : Bool

-- The first free block of a row that ends at `e`, or `e`.
abbrev pub first_free : ℕ → List Tile → ℕ
first_free e [] = e
first_free e (t ∷ ts) = if t.is_free then t.address else first_free e ts

-- The nearest free block to the left, or `xStart`.
abbrev pub last_free : List Tile → ℕ
last_free [] = start
last_free (t ∷ ls) = if t.is_free then t.address else last_free ls

-- The header of the block if it is free: its size, and its link to `q`.
pub record HasTile (h : Heap) (t : Tile) (q : ℕ) : Type 0 where
  pub some_bytes : 0 < t.bytes
  pub whole : t.bytes % 16 ≡ 0
  pub sized : (if t.is_free then h.size t.address else t.bytes) ≡ t.bytes
  pub linked : (if t.is_free then h.next t.address else q) ≡ q

-- The blocks from `b` to `pxEnd`.
abbrev pub Right : Heap → ℕ → List Tile → Type 0
Right h b [] = b ≡ h.end
Right h b (t ∷ ts) = (t.address ≡ b) × HasTile h t (first_free h.end ts) × Right h (b + t.bytes) ts

-- The blocks from `first` to `b`, the last free one of which is linked to `q`.
abbrev pub Left : Heap → ℕ → ℕ → ℕ → List Tile → Type 0
Left h first b q [] = (b ≡ first) × (h.next start ≡ q)
Left h first b q (t ∷ ls) =
    (t.address + t.bytes ≡ b)
    × HasTile h t q
    × Left h first t.address (if t.is_free then t.address else q) ls

-- No two free blocks are side by side, where `f` tells if a free one comes before.
abbrev pub Apart : Bool → List Tile → Type 0
Apart f [] = Unit {0}
Apart f (t ∷ ts) = ((f && t.is_free) ≡ false) × Apart t.is_free ts

abbrev pub free_bytes : List Tile → ℕ
free_bytes [] = 0
free_bytes (t ∷ ts) = (if t.is_free then t.bytes else 0) + free_bytes ts

pub Right-le : (h : Heap) (b : ℕ) (ts : List Tile) → Right h b ts → b ≤ h.end
Right-le h b [] r = omega (arith, r)
Right-le h b (t ∷ ts) r = omega (arith, Right-le h (b + t.bytes) ts r.2)

pub Left-le : (h : Heap) (first b q : ℕ) (ls : List Tile) → Left h first b q ls → first ≤ b
Left-le h first b q [] l = omega (arith, l.0)
Left-le h first b q (t ∷ ls) l = omega (arith, l.0, Left-le h first t.address _ ls l.2)

-- What Right and Left read.
pub Right-frame :
    (h h' : Heap) (b : ℕ) (ts : List Tile)
    → h'.end ≡ h.end
    → ((a : ℕ) → b ≤ a → h'.size a ≡ h.size a)
    → ((a : ℕ) → b ≤ a → h'.next a ≡ h.next a)
    → Right h b ts
    → Right h' b ts
Right-frame h h' b [] e sizes nexts r = omega (arith, e, r)
Right-frame h h' b (t ∷ ts) e sizes nexts r = (
  r.0,
  record {
    some_bytes = r.1.some_bytes;
    whole = r.1.whole;
    sized = ground (arith, sizes t.address, r.0, r.1.sized);
    linked = ground (arith, nexts t.address, r.0, r.1.linked, e);
  },
  Right-frame h h' (b + t.bytes) ts e (λ a le. sizes a (omega arith))
      (λ a le. nexts a (omega arith)) r.2,
)

pub last_free-lt :
    (h : Heap) (first b q : ℕ) (ls : List Tile)
    → start < first
    → Left h first b q ls
    → last_free ls < b
last_free-lt h first b q [] s l = omega (arith, l.0)
last_free-lt h first b q (t ∷ ls) s l =
    ground (arith, l.0, l.1.some_bytes, last_free-lt h first t.address _ ls s l.2)

pub Left-next :
    (h : Heap) (first b q : ℕ) (ls : List Tile) → Left h first b q ls → h.next (last_free ls) ≡ q
Left-next h first b q [] l = l.1
Left-next h first b q (t ∷ ls) l = elim (Bool-cases t.is_free) [
  | inl e ↦ ground (arith, l.1.linked)
  | inr e ↦ rw e (rw e at (Left-next h first t.address _ ls l.2))
]

-- Linking the nearest free block to the left to `q'`.
pub Left-relink :
    (h h' : Heap) (first b q q' : ℕ) (ls : List Tile)
    → start < first
    → ((a : ℕ) → a < b → h'.size a ≡ h.size a)
    → ((a : ℕ) → a < b → a ≢ last_free ls → h'.next a ≡ h.next a)
    → h'.next (last_free ls) ≡ q'
    → Left h first b q ls
    → Left h' first b q' ls
Left-relink h h' first b q q' [] s sizes nexts now l = (l.0, now)
Left-relink h h' first b q q' (t ∷ ls) s sizes nexts now l = (
  l.0,
  record {
    some_bytes = l.1.some_bytes;
    whole = l.1.whole;
    sized = ground (arith, sizes t.address, l.0, l.1.some_bytes, l.1.sized);
    linked = ground (arith, now);
  },
  Left-relink h h' first t.address _ _ ls s (λ a lt. sizes a (omega (arith, l.0)))
      (λ a lt ne. nexts a (omega (arith, l.0)) (ground (arith, ne, lt)))
      (elim (Bool-cases t.is_free) [
        | inl e ↦
            let lt = last_free-lt h first t.address _ ls s l.2 in
            rw e (
              nexts (last_free ls) (omega (arith, lt, l.0)) (rw e (omega (arith, lt)))
              ∙ rw e at (Left-next h first t.address _ ls l.2))
        | inr e ↦ rw e (rw e at now)
      ])
      l.2,
)

-- The row with the blocks to the left put back before those to the right.
abbrev pub onto : List Tile → List Tile → List Tile
onto [] ts = ts
onto (t ∷ ls) ts = onto ls (t ∷ ts)

-- From one place to the next.
pub Left-cons :
    (h : Heap) (first b : ℕ) (ls : List Tile) (t : Tile) (ts : List Tile)
    → Left h first b (first_free h.end (t ∷ ts)) ls
    → Right h b (t ∷ ts)
    → Left h first (b + t.bytes) (first_free h.end ts) (t ∷ ls)
Left-cons h first b ls t ts l r = (
  ground (arith, r.0),
  r.1,
  subst (λ x. Left h first x (first_free h.end (t ∷ ts)) ls) (sym r.0) l,
)
