-- ===== src/HeapFour/Merge.antt =====
-- Joining a block with the free blocks beside it.
use flint_rtos.Base.{
  ℕ, ◌+◌, ◌^◌, ◌≤◌, ◌<◌, ◌≡◌, ◌≢◌, ◌⊎◌, arith, refl, sym, inl, inr, true, false, ◌==◌,
  if◌then◌else◌, Bool-cases, List, [], ◌∷◌,
}
use flint_rtos.HeapFour.{Heap, start, merge_before, merge_after}
use flint_rtos.HeapFour.Tiles.{Tile, Left, Right, Right-le, first_free, last_free}

-- What is left of the blocks beside, once a free neighbour is joined.
abbrev pub rest : List Tile → List Tile
rest [] = []
rest (t ∷ ts) = if t.is_free then ts else t ∷ ts

-- The address and the bytes of the block with a free neighbour to the left.
abbrev pub joined_address : ℕ → List Tile → ℕ
joined_address b [] = b
joined_address b (t ∷ ls) = if t.is_free then t.address else b

abbrev pub extra : List Tile → ℕ
extra [] = 0
extra (t ∷ ts) = if t.is_free then t.bytes else 0

abbrev pub joined_link : ℕ → List Tile → ℕ
joined_link q [] = q
joined_link q (t ∷ ls) = if t.is_free then t.address else q

last_free-end :
    (h : Heap) (first b q : ℕ) (ls : List Tile)
    → start < first
    → h.size start ≡ 0
    → Left h first b q ls
    → last_free ls + h.size (last_free ls) ≤ b
last_free-end h first b q [] pos none l = omega (arith, l.0, none)
last_free-end h first b q (t ∷ ls) pos none l = elim (Bool-cases t.is_free) [
  | inl e ↦ rw e (omega (arith, l.0, rw e at l.1.sized))
  | inr e ↦ rw e (omega (arith, l.0, last_free-end h first t.address _ ls pos none l.2))
]

pub first_free-le : (h : Heap) (b : ℕ) (ts : List Tile) → Right h b ts → b ≤ first_free h.end ts
first_free-le h b [] r = omega (arith, r)
first_free-le h b (t ∷ ts) r = ground (arith, r.0, first_free-le h (b + t.bytes) ts r.2)

-- What the joining with the left neighbour does: `h1` has the block at `b1`, of `n` bytes.
pub record Before (h h1 : Heap) (b1 n : ℕ) : Type 0 where
  pub sized : h1.size b1 ≡ n
  pub sizes : (a : ℕ) → a ≢ b1 → h1.size a ≡ h.size a
  pub nexts : h1.next ≡ h.next
  pub same_end : h1.end ≡ h.end
  pub same_remaining : h1.remaining ≡ h.remaining
  pub same_minimum : h1.minimum ≡ h.minimum

merge_before_apart :
    (it b s : ℕ) (h : Heap)
    → it + h.size it ≢ b
    → h.size b ≡ s
    → ((merge_before it b h).0 ≡ b) × Before h (merge_before it b h).1 b (0 + s)
unfolding merge_before
merge_before_apart it b s h ne sized =
    let e : (it + h.size it == b) ≡ false = ground arith in
    rw e (
      refl,
      record {
        sized = omega (arith, sized);
        sizes = λ a _. refl;
        nexts = refl;
        same_end = refl;
        same_remaining = refl;
        same_minimum = refl;
      },
    )

merge_before_joined :
    (it b n s : ℕ) (h : Heap)
    → it + n ≡ b
    → h.size it ≡ n
    → h.size b ≡ s
    → n + s < 2 ^ 63
    → ((merge_before it b h).0 ≡ it) × Before h (merge_before it b h).1 it (n + s)
unfolding merge_before
merge_before_joined it b n s h touch size_it sized small =
    let e : (it + h.size it == b) ≡ true = ground (arith, size_it, touch) in
    rw e (
      refl,
      record {
        sized = ground (arith, size_it, sized, small);
        sizes = λ a ne. ground (arith, ne);
        nexts = refl;
        same_end = refl;
        same_remaining = refl;
        same_minimum = refl;
      },
    )

pub merge_before-Before :
    (h : Heap) (first b q s : ℕ) (ls : List Tile)
    → start < first
    → h.size start ≡ 0
    → h.size b ≡ s
    → b + s < 2 ^ 63
    → 0 < s
    → Left h first b q ls
    → ((merge_before (last_free ls) b h).0 ≡ joined_address b ls)
      × Before h (merge_before (last_free ls) b h).1 (joined_address b ls) (extra ls + s)
merge_before-Before h first b q s [] pos none sized small some_bytes l =
    merge_before_apart start b s h (omega (arith, none, l.0)) sized
merge_before-Before h first b q s (t ∷ ls) pos none sized small some_bytes l =
    elim (Bool-cases t.is_free) [
      | inl e ↦ rw e (
          merge_before_joined t.address b t.bytes s h l.0 (rw e at l.1.sized) sized
            (omega (arith, l.0, small)))
      | inr e ↦
          let below = last_free-end h first t.address _ ls pos none l.2 in
          rw e (
            merge_before_apart (last_free ls) b s h
              (λ touch. omega (arith, below, touch, l.0, l.1.some_bytes)) sized)
    ]

-- What joining with the right neighbour does to the block at `b`.
pub record After (h h2 : Heap) (b n q : ℕ) : Type 0 where
  pub sized : h2.size b ≡ n
  pub linked : h2.next b ≡ q
  pub sizes : (a : ℕ) → a ≢ b → h2.size a ≡ h.size a
  pub nexts : (a : ℕ) → a ≢ b → h2.next a ≡ h.next a
  pub same_end : h2.end ≡ h.end
  pub same_remaining : h2.remaining ≡ h.remaining
  pub same_minimum : h2.minimum ≡ h.minimum

merge_after_apart :
    (it b s q : ℕ) (h : Heap)
    → h.next it ≡ q
    → h.size b ≡ s
    → (b + s ≢ q) ⊎ (q ≡ h.end)
    → After h (merge_after it b h) b s q
unfolding merge_after
merge_after_apart it b s q h at sized away = record {
  sized = ground (arith, at, sized, away);
  linked = ground (arith, at, sized, away);
  sizes = λ a ne. ground (arith, at, sized, away, ne);
  nexts = λ a ne. ground (arith, at, sized, away, ne);
  same_end = ground (arith, at, sized, away);
  same_remaining = ground (arith, at, sized, away);
  same_minimum = ground (arith, at, sized, away);
}

merge_after_joined :
    (it b s n q q' : ℕ) (h : Heap)
    → h.next it ≡ q
    → h.size b ≡ s
    → b + s ≡ q
    → q ≢ h.end
    → h.size q ≡ n
    → h.next q ≡ q'
    → 0 < s
    → s + n < 2 ^ 63
    → After h (merge_after it b h) b (s + n) q'
unfolding merge_after
merge_after_joined it b s n q q' h at sized touch inside size_q next_q some_bytes small = record {
  sized = ground (arith, at, sized, touch, inside, size_q, small);
  linked = ground (arith, at, sized, touch, inside, next_q);
  sizes = λ a ne. ground (arith, at, sized, touch, inside, ne);
  nexts = λ a ne. ground (arith, at, sized, touch, inside, ne);
  same_end = ground (arith, at, sized, touch, inside);
  same_remaining = ground (arith, at, sized, touch, inside);
  same_minimum = ground (arith, at, sized, touch, inside);
}

pub merge_after-After :
    (h : Heap) (it b s : ℕ) (ts : List Tile)
    → h.next it ≡ first_free h.end ts
    → h.size b ≡ s
    → 0 < s
    → Right h (b + s) ts
    → h.end < 2 ^ 63
    → After h (merge_after it b h) b (s + extra ts) (first_free h.end (rest ts))
merge_after-After h it b s [] at sized some_bytes r small =
    let same : s + 0 ≡ s = omega arith in
    rw same (merge_after_apart it b s h.end h at sized (inr refl))
merge_after-After h it b s (t ∷ ts) at sized some_bytes r small = elim (Bool-cases t.is_free) [
  | inl e ↦
      let le = Right-le h (b + s + t.bytes) ts r.2 in
      rw e (
        merge_after_joined it b s t.bytes t.address (first_free h.end ts) h (rw e at at) sized
          (sym r.0) (omega (arith, le, r.0, r.1.some_bytes)) (rw e at r.1.sized)
          (rw e at r.1.linked) some_bytes (omega (arith, le, small)))
  | inr e ↦
      let same : s + 0 ≡ s = omega arith in
      let ahead = first_free-le h (b + s + t.bytes) ts r.2 in
      rw (e, same)
        (merge_after_apart it b s (first_free h.end ts) h (rw e at at) sized
          (inl (omega (arith, ahead, r.1.some_bytes))))
]
