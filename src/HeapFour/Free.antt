-- ===== src/HeapFour/Free.antt =====
-- `vPortFree`.
use flint_rtos.Base.{
  ℕ, ◌+◌, ◌-◌, ◌%◌, ◌^◌, ◌≤◌, ◌<◌, ◌≡◌, arith, refl, ap, sym, subst, ◌∙◌, true, false, leb, ◌==◌,
  update, List, ◌∷◌, some,
}
use flint_rtos.HeapFour.{Heap, header, free, insert_block, add_size}
use flint_rtos.HeapFour.Tiles.{
  Tile, Left, Right, Left-le, Left-next, Right-le, Left-relink, Right-frame, last_free-lt,
  first_free, Apart, free_bytes, onto,
}
use flint_rtos.HeapFour.Rows.{
  Apart-onto, Apart-split, Apart-false, Marked, Marked-left, Marked-right, Marked-split,
  Marked-onto, free_bytes-onto, zip, unzip,
}
use flint_rtos.HeapFour.Merge.{rest, extra, joined_address}
use flint_rtos.HeapFour.Insert.{joined, joined_address-le, Inserted, insert_block-Inserted}
use flint_rtos.HeapFour.Pool.{IsPool, Right-bytes, Apart-rest, Marked-rest, free_bytes-rest}

module _ {h : Heap} {first : ℕ} (ls : List Tile) (t : Tile) (ts : List Tile)
    (v : IsPool h first (onto ls (t ∷ ts))) (taken : t.is_free ≡ false) where
  abbrev h1 : Heap
  h1 = record h {
    size = update h.size t.address (h.size t.address % 2 ^ 63);
    next = update h.next t.address 0;
    remaining = add_size h.remaining (h.size t.address % 2 ^ 63);
  }

  abbrev row : List Tile
  row = onto (rest ls) (joined t.address t.bytes ls ts ∷ rest ts)

  place : Left h first t.address (first_free h.end ts) ls × Right h t.address (t ∷ ts)
  place =
      let (b, l, r) = unzip h first ls (t ∷ ts) v.head v.row in
      (
        subst (λ x. Left h first x (first_free h.end ts) ls) (sym r.0) (rw taken at l),
        subst (λ x. Right h x (t ∷ ts)) (sym r.0) r,
      )

  marked : Marked h ls × Marked h (t ∷ ts)
  marked = Marked-split h ls (t ∷ ts) v.marks

  size_field : h.size t.address ≡ t.bytes + 2 ^ 63
  size_field = rw taken at marked.1.0

  bounds : (first ≤ t.address) × (t.address + t.bytes ≤ h.end) × (0 < t.bytes) × (t.bytes % 16 ≡ 0)
  bounds = (
    Left-le h first t.address _ ls place.0,
    Right-le h (t.address + t.bytes) ts place.1.2,
    place.1.1.some_bytes,
    place.1.1.whole,
  )

  inserted :
      (h' : Heap) × (insert_block t.address h1 ≡ some h')
      × Inserted h1 h' first t.address t.bytes ls ts
  inserted =
      insert_block-Inserted h1 first t.address t.bytes ls ts (omega (arith, v.low)) v.word
        (ground (arith, v.start_size, bounds, v.low)) (ground (arith, size_field, bounds, v.word))
        bounds.2 bounds.3
        (Left-relink h h1 first t.address _ _ ls (omega (arith, v.low)) (λ a lt. ground arith)
          (λ a lt ne. ground arith)
          (ground (
            arith,
            Left-next h first t.address _ ls place.0,
            last_free-lt h first t.address _ ls (omega (arith, v.low)) place.0,
          ))
          place.0)
        (Right-frame h h1 (t.address + t.bytes) ts refl (λ a le. ground (arith, bounds))
          (λ a le. ground (arith, bounds)) place.1.2)

  free-some :
      (h' : Heap) → insert_block t.address h1 ≡ some h' → free (t.address + header) h ≡ some h'
  unfolding free
  free-some h' e =
      let back : t.address + header - header ≡ t.address = omega arith in
      let some_p : (t.address + header == 0) ≡ false = ground arith in
      let mark : leb (2 ^ 63) (h.size t.address) ≡ true = ground (arith, size_field) in
      rw (back, some_p, mark) e

  sums : free_bytes row ≡ free_bytes (onto ls (t ∷ ts)) + t.bytes
  sums = ground (
    arith,
    taken,
    free_bytes-onto (rest ls) (joined t.address t.bytes ls ts ∷ rest ts),
    free_bytes-onto ls (t ∷ ts),
    free_bytes-rest ls,
    free_bytes-rest ts,
  )

  row-Apart : Apart false row
  row-Apart =
      let (a, b, c) = Apart-split ls (t ∷ ts) v.apart in
      let (d, e) = Apart-false true (rest ls) (Apart-rest ls a) in
      Apart-onto (rest ls) (joined t.address t.bytes ls ts ∷ rest ts) d
        (refl, Apart-rest ts (rw taken at b.1)) (ground (arith, e))

  at : joined_address t.address ls + extra ls ≡ t.address
  at = joined_address-le h first t.address _ ls place.0

  Inserted-IsPool : (h' : Heap) → Inserted h1 h' first t.address t.bytes ls ts → IsPool h' first row
  Inserted-IsPool h' i =
      let (head, r) =
        zip h' first _ (rest ls) (joined t.address t.bytes ls ts ∷ rest ts) i.left i.right in
      let fits = Right-bytes h' first row r in
      record {
        low = v.low;
        aligned = v.aligned;
        word = omega (arith, i.same_end, v.word);
        end_next = ap h'.next i.same_end ∙ i.end_next ∙ ground (arith, v.end_next, bounds);
        start_size = i.start_size ∙ ground (arith, v.start_size, bounds, v.low);
        head = head;
        row = r;
        apart = row-Apart;
        marks =
            Marked-onto h' (rest ls) (joined t.address t.bytes ls ts ∷ rest ts)
              (Marked-left h h' h' first _ _ (rest ls) i.left
                (λ a lt. i.sizes a (omega arith) ∙ ground (arith, at)) (Marked-rest h ls marked.0))
              (
                refl,
                Marked-right h h' h' _ (rest ts) i.right.2
                    (λ a le. i.sizes a (omega (arith, at, bounds)) ∙ ground (arith, at, bounds))
                    (Marked-rest h ts marked.1.1),
              );
        counted = ground (
          arith, i.same_remaining, v.counted, sums, size_field, fits, i.same_end, v.word, bounds,
        );
        least = ground (
          arith, i.same_remaining, i.same_minimum, v.counted, v.least, sums, size_field, fits,
          i.same_end, v.word, bounds,
        );
      }

  -- `vPortFree` of a block that is taken makes it free, joined with the free blocks beside it, and keeps
  -- the pool valid: every other block is as it was.
  pub free-IsPool : (h' : Heap) × (free (t.address + header) h ≡ some h') × IsPool h' first row
  free-IsPool = let (h', e, i) = inserted in (h', free-some h' e, Inserted-IsPool h' i)
