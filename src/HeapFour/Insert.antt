-- ===== src/HeapFour/Insert.antt =====
-- `prvInsertBlockIntoFreeList`: a block becomes free, joined with the free blocks beside it.
use flint_rtos.Base.{
  ℕ, ◌+◌, ◌%◌, ◌^◌, ◌≤◌, ◌<◌, ◌≡◌, ◌≢◌, ◌⊎◌, arith, refl, ap, sym, subst, ◌∙◌, inl, inr, true, not,
  ◌==◌, if◌then◌else◌, Bool-cases, List, [], ◌∷◌, some,
}
use flint_rtos.HeapFour.{Heap, start, merge_before, merge_after, link, insert_block, set_next}
use flint_rtos.HeapFour.Tiles.{
  Tile, HasTile, Left, Right, Left-le, Right-le, Left-next, Left-relink, Right-frame, first_free,
  last_free, last_free-lt,
}
use flint_rtos.HeapFour.Walk.{find_place_lem}
use flint_rtos.HeapFour.Merge.{
  rest, first_free-le, joined_address, extra, joined_link, Before, After, merge_before-Before,
  merge_after-After,
}

-- The block that comes of a block of `s` bytes at `b`.
abbrev pub joined : ℕ → ℕ → List Tile → List Tile → Tile
joined b s ls ts = record {
  address = joined_address b ls;
  bytes = extra ls + s + extra ts;
  is_free = true;
}

-- In `h'` the block is free, and the counters are those of `h`.
pub record Inserted (h h' : Heap) (first b s : ℕ) (ls ts : List Tile) : Type 0 where
  pub left : Left h' first (joined_address b ls) (joined_address b ls) (rest ls)
  pub right : Right h' (joined_address b ls) (joined b s ls ts ∷ rest ts)
  pub start_size : h'.size start ≡ h.size start
  pub end_next : h'.next h.end ≡ h.next h.end
  pub same_end : h'.end ≡ h.end
  pub same_remaining : h'.remaining ≡ h.remaining
  pub same_minimum : h'.minimum ≡ h.minimum
  pub sizes : (a : ℕ) → a ≢ joined_address b ls → h'.size a ≡ h.size a

pub joined_address-le :
    (h : Heap) (first b q : ℕ) (ls : List Tile)
    → Left h first b q ls
    → joined_address b ls + extra ls ≡ b
joined_address-le h first b q [] l = omega arith
joined_address-le h first b q (t ∷ ls) l = ground (arith, l.0)

Left-rest :
    (h : Heap) (first b q : ℕ) (ls : List Tile)
    → Left h first b q ls
    → Left h first (joined_address b ls) (joined_link q ls) (rest ls)
Left-rest h first b q [] l = l
Left-rest h first b q (t ∷ ls) l = elim (Bool-cases t.is_free) [
  | inl e ↦ rw e (rw e at l.2)
  | inr e ↦ simp (e) (l.0, l.1, rw e at l.2)
]

Right-rest : (h : Heap) (b : ℕ) (ts : List Tile) → Right h b ts → Right h (b + extra ts) (rest ts)
Right-rest h b [] r = omega (arith, r)
Right-rest h b (t ∷ ts) r = elim (Bool-cases t.is_free) [
  | inl e ↦ rw e r.2
  | inr e ↦
      let same : b + 0 ≡ b = omega arith in simp (e) (subst (λ x. Right h x (t ∷ ts)) (sym same) r)
]

extra-left : (h : Heap) (first b q : ℕ) (ls : List Tile) → Left h first b q ls → extra ls % 16 ≡ 0
extra-left h first b q [] l = refl
extra-left h first b q (t ∷ ls) l = ground (arith, l.1.whole)

extra-right : (h : Heap) (b : ℕ) (ts : List Tile) → Right h b ts → extra ts % 16 ≡ 0
extra-right h b [] r = refl
extra-right h b (t ∷ ts) r = ground (arith, r.1.whole)

-- The nearest free block to the left is the joined block itself, or stays behind.
joined_or_behind :
    (h : Heap) (first b q : ℕ) (ls : List Tile)
    → start < first
    → Left h first b q ls
    → ((last_free ls ≡ joined_address b ls) × (joined_link q ls ≡ joined_address b ls))
      ⊎ ((last_free ls < joined_address b ls) × (last_free (rest ls) ≡ last_free ls))
joined_or_behind h first b q [] low l = inr (omega (arith, l.0), refl)
joined_or_behind h first b q (t ∷ ls) low l = elim (Bool-cases t.is_free) [
  | inl e ↦ rw e (inl (refl, refl))
  | inr e ↦
      let lt = last_free-lt h first t.address _ ls low l.2 in
      simp (e) (inr (omega (arith, lt, l.0, l.1.some_bytes), refl))
]

module _ (h : Heap) (first b s : ℕ) (ls ts : List Tile) (low : start < first)
    (word : h.end < 2 ^ 63) (none : h.size start ≡ 0) (sized : h.size b ≡ s) (some_bytes : 0 < s)
    (whole : s % 16 ≡ 0) (l : Left h first b (first_free h.end ts) ls)
    (r : Right h (b + s) ts) where
  abbrev it : ℕ
  it = last_free ls

  abbrev b1 : ℕ
  b1 = joined_address b ls

  inside : b + s ≤ h.end
  inside = Right-le h (b + s) ts r

  before : ((merge_before it b h).0 ≡ b1) × Before h (merge_before it b h).1 b1 (extra ls + s)
  before =
      merge_before-Before h first b _ s ls low none sized (omega (arith, inside, word)) some_bytes l

  abbrev h1 : Heap
  h1 = (merge_before it b h).1

  at : b1 + extra ls ≡ b
  at = joined_address-le h first b _ ls l

  Right-h1 : Right h1 (b1 + (extra ls + s)) ts
  Right-h1 =
      let e : b1 + (extra ls + s) ≡ b + s = omega (arith, at) in
      rw e (
        Right-frame h h1 (b + s) ts before.1.same_end
          (λ a le. before.1.sizes a (omega (arith, le, at, some_bytes)))
          (λ a le. ap (λ f. f a) before.1.nexts) r)

  abbrev h2 : Heap
  h2 = merge_after it b1 h1

  after : After h1 h2 b1 (extra ls + s + extra ts) (first_free h1.end (rest ts))
  after =
      merge_after-After h1 it b1 (extra ls + s) ts
        (ap (λ f. f it) before.1.nexts
          ∙ Left-next h first b _ ls l
          ∙ ap (λ e. first_free e ts) (sym before.1.same_end))
        before.1.sized (omega (arith, some_bytes)) Right-h1 (omega (arith, before.1.same_end, word))

  abbrev h3 : Heap
  h3 = if not (it == b1) then set_next it b1 h2 else h2

  link-h3 : link it b h ≡ h3
  unfolding link
  link-h3 =
      ap (λ x. if not (it == x) then set_next it x (merge_after it x h1) else merge_after it x h1)
        before.0

  below : first ≤ b1
  below = Left-le h first b1 _ (rest ls) (Left-rest h first b _ ls l)

  side :
      ((it ≡ b1) × (joined_link (first_free h.end ts) ls ≡ b1))
      ⊎ ((it < b1) × (last_free (rest ls) ≡ it))
  side = joined_or_behind h first b _ ls low l

  sizes : (a : ℕ) → a ≢ b1 → h3.size a ≡ h.size a
  sizes a ne = ground (arith, before.1.sizes a ne, after.sizes a ne)

  nexts : (a : ℕ) → a ≢ b1 → a ≢ it → h3.next a ≡ h.next a
  nexts a ne ni = ground (arith, ap (λ f. f a) before.1.nexts, after.nexts a ne)

  nexts_above : (a : ℕ) → b1 < a → h3.next a ≡ h.next a
  nexts_above a lt = elim side [
    | inl same ↦ nexts a (omega arith) (omega (arith, same.0))
    | inr behind ↦ nexts a (omega arith) (omega (arith, behind.0))
  ]

  left : Left h first b1 (joined_link (first_free h.end ts) ls) (rest ls)
  left = Left-rest h first b _ ls l

  now : h3.next (last_free (rest ls)) ≡ b1
  now = elim side [
    | inl same ↦
        let lt = last_free-lt h first b1 _ (rest ls) low left in
        nexts (last_free (rest ls)) (omega (arith, lt)) (omega (arith, lt, same.0))
        ∙ Left-next h first b1 _ (rest ls) left
        ∙ same.1
    | inr behind ↦ rw behind.1 (ground (arith, behind.0))
  ]

  left-rest : Left h3 first b1 b1 (rest ls)
  left-rest =
      Left-relink h h3 first b1 _ b1 (rest ls) low (λ a lt. sizes a (omega arith))
        (λ a lt ne. elim side [
          | inl same ↦ nexts a (omega arith) (omega (arith, same.0))
          | inr behind ↦ nexts a (omega arith) (omega (arith, ne, behind.1))
        ])
        now left

  same_end : h3.end ≡ h.end
  same_end = ground (arith, after.same_end, before.1.same_end)

  right-rest : Right h3 (b1 + (extra ls + s + extra ts)) (rest ts)
  right-rest =
      let e : b + s + extra ts ≡ b1 + (extra ls + s + extra ts) = omega (arith, at) in
      Right-frame h h3 _ (rest ts) same_end (λ a le. sizes a (omega (arith, some_bytes)))
        (λ a le. nexts_above a (omega (arith, some_bytes)))
        (subst (λ x. Right h x (rest ts)) e (Right-rest h (b + s) ts r))

  tile : HasTile h3 (joined b s ls ts) (first_free h3.end (rest ts))
  tile = record {
    some_bytes = omega (arith, some_bytes);
    whole = omega (arith, extra-left h first b _ ls l, extra-right h (b + s) ts r, whole);
    sized = ground (arith, after.sized);
    linked =
        ground (arith, after.linked)
        ∙ ap (λ e. first_free e (rest ts)) (before.1.same_end ∙ sym same_end);
  }

  link-Inserted : Inserted h h3 first b s ls ts
  link-Inserted = record {
    left = left-rest;
    right = (refl, tile, right-rest);
    start_size = sizes start (omega (arith, below, low));
    end_next = nexts_above h.end (omega (arith, inside, at, some_bytes));
    same_end = same_end;
    same_remaining = ground (arith, after.same_remaining, before.1.same_remaining);
    same_minimum = ground (arith, after.same_minimum, before.1.same_minimum);
    sizes = sizes;
  }

  -- The walk ends, and the block is in the list.
  pub insert_block-Inserted :
      (h' : Heap) × (insert_block b h ≡ some h') × Inserted h h' first b s ls ts
  unfolding insert_block
  insert_block-Inserted =
      let found =
        find_place_lem h first b _ ls l low (omega (arith, first_free-le h (b + s) ts r))
          (omega (arith, inside)) in
      (h3, rw found (ap some link-h3), link-Inserted)
