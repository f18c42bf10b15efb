-- ===== src/HeapFour/Rows.antt =====
-- Rows of blocks, put together and taken apart.
use flint_rtos.Base.{
  ℕ, ◌+◌, ◌^◌, ◌≤◌, ◌<◌, ◌≡◌, arith, refl, sym, subst, Bool, false, ◌&&◌, if◌then◌else◌, List, [],
  ◌∷◌,
}
use flint_rtos.HeapFour.{Heap, start}
use flint_rtos.HeapFour.Tiles.{Tile, Left, Right, Left-cons, first_free, Apart, free_bytes, onto}

-- From a place back to the start.
pub zip :
    (h : Heap) (first b : ℕ) (ls ts : List Tile)
    → Left h first b (first_free h.end ts) ls
    → Right h b ts
    → (h.next start ≡ first_free h.end (onto ls ts)) × Right h first (onto ls ts)
zip h first b [] ts l r = (l.1, subst (λ x. Right h x ts) l.0 r)
zip h first b (t ∷ ls) ts l r =
    zip h first t.address ls (t ∷ ts) l.2 (refl, l.1, subst (λ x. Right h x ts) (sym l.0) r)

-- From the start to a place.
pub unzip :
    (h : Heap) (first : ℕ) (ls ts : List Tile)
    → h.next start ≡ first_free h.end (onto ls ts)
    → Right h first (onto ls ts)
    → (b : ℕ) × Left h first b (first_free h.end ts) ls × Right h b ts
unzip h first [] ts e r = (first, (refl, e), r)
unzip h first (t ∷ ls) ts e r =
    let (b, l, r') = unzip h first ls (t ∷ ts) e r in
    (b + t.bytes, Left-cons h first b ls t ts l r', r'.2)

-- The size fields of the taken blocks have the top bit set.
abbrev pub Marked : Heap → List Tile → Type 0
Marked h [] = Unit {0}
Marked h (t ∷ ts) =
    ((if t.is_free then t.bytes + 2 ^ 63 else h.size t.address) ≡ t.bytes + 2 ^ 63) × Marked h ts

pub Marked-left :
    (h h' k : Heap) (first b q : ℕ) (ls : List Tile)
    → Left k first b q ls
    → ((a : ℕ) → a < b → h'.size a ≡ h.size a)
    → Marked h ls
    → Marked h' ls
Marked-left h h' k first b q [] l sizes m = tt
Marked-left h h' k first b q (t ∷ ls) l sizes m = (
  ground (arith, sizes t.address, l.0, l.1.some_bytes, m.0),
  Marked-left h h' k first t.address _ ls l.2 (λ a lt. sizes a (omega (arith, l.0))) m.1,
)

pub Marked-right :
    (h h' k : Heap) (b : ℕ) (ts : List Tile)
    → Right k b ts
    → ((a : ℕ) → b ≤ a → h'.size a ≡ h.size a)
    → Marked h ts
    → Marked h' ts
Marked-right h h' k b [] r sizes m = tt
Marked-right h h' k b (t ∷ ts) r sizes m = (
  ground (arith, sizes t.address, r.0, m.0),
  Marked-right h h' k (b + t.bytes) ts r.2 (λ a le. sizes a (omega arith)) m.1,
)

pub Marked-onto : (h : Heap) (ls ts : List Tile) → Marked h ls → Marked h ts → Marked h (onto ls ts)
Marked-onto h [] ts m n = n
Marked-onto h (t ∷ ls) ts m n = Marked-onto h ls (t ∷ ts) m.1 (m.0, n)

pub Marked-split :
    (h : Heap) (ls ts : List Tile) → Marked h (onto ls ts) → Marked h ls × Marked h ts
Marked-split h [] ts m = (tt, m)
Marked-split h (t ∷ ls) ts m = let (a, b) = Marked-split h ls (t ∷ ts) m in ((b.0, a), b.1)

pub free_bytes-onto : (ls ts : List Tile) → free_bytes (onto ls ts) ≡ free_bytes ls + free_bytes ts
free_bytes-onto [] ts = omega arith
free_bytes-onto (t ∷ ls) ts = omega (arith, free_bytes-onto ls (t ∷ ts))

-- Is the block beside free?
abbrev pub front : List Tile → Bool
front [] = false
front (t ∷ ts) = t.is_free

pub Apart-front :
    (f : Bool) (ts : List Tile) → Apart false ts → (f && front ts) ≡ false → Apart f ts
Apart-front f [] a e = tt
Apart-front f (t ∷ ts) a e = (e, a.1)

pub Apart-false :
    (f : Bool) (ts : List Tile) → Apart f ts → Apart false ts × ((f && front ts) ≡ false)
Apart-false f [] a = (tt, ground arith)
Apart-false f (t ∷ ts) a = ((refl, a.1), a.0)

pub Apart-onto :
    (ls ts : List Tile)
    → Apart false ls
    → Apart false ts
    → (front ls && front ts) ≡ false
    → Apart false (onto ls ts)
Apart-onto [] ts a b e = b
Apart-onto (t ∷ ls) ts a b e =
    let (c, d) = Apart-false t.is_free ls a.1 in
    Apart-onto ls (t ∷ ts) c (refl, Apart-front t.is_free ts b e) (ground (arith, d))

pub Apart-split :
    (ls ts : List Tile)
    → Apart false (onto ls ts)
    → Apart false ls × Apart false ts × ((front ls && front ts) ≡ false)
Apart-split [] ts a = (tt, a, refl)
Apart-split (t ∷ ls) ts a =
    let (b, c, d) = Apart-split ls (t ∷ ts) a in
    let (e, f) = Apart-false t.is_free ts c.1 in
    ((refl, Apart-front t.is_free ls b (ground (arith, d))), e, f)
