-- ===== src/HeapFour/Take.antt =====
-- Taking the block that was found, or a part of it.
use flint_rtos.Base.{
  ℕ, ◌+◌, ◌-◌, ◌*◌, ◌%◌, ◌≤◌, ◌<◌, ◌≡◌, ◌⊎◌, inl, inr, arith, refl, ap, sym, subst, ◌∙◌, true,
  false, ltb, Bool-cases, List, [], ◌∷◌, some,
}
use mathlib.Core.Option
use flint_rtos.HeapFour.{
  Heap, header, split, mark_taken, take_block, set_next, set_size, sub_size, insert_block,
}
use flint_rtos.HeapFour.Tiles.{
  Tile, Left, Right, Left-le, Left-next, Right-le, Left-relink, Right-frame, last_free,
  last_free-lt, first_free, Apart, free_bytes, onto,
}
use flint_rtos.HeapFour.Rows.{
  Apart-onto, Apart-split, Apart-false, Marked, Marked-left, Marked-right, Marked-split, front,
  free_bytes-onto,
}
use flint_rtos.HeapFour.Walk.{Smaller, Fit}
use flint_rtos.HeapFour.Merge.{rest, extra}
use flint_rtos.HeapFour.Insert.{joined, Inserted, insert_block-Inserted}
use flint_rtos.HeapFour.Pool.{IsPool}
use flint_rtos.HeapFour.Out.{taken, IsOut, mark_taken-IsPool}

-- A block of at least `w` bytes is handed out at `p`, the first that is large enough, or the first `w`
-- bytes of it if more than 32 bytes are left over.
pub record Allocated (h h' : Heap) (first w : ℕ) (ts : List Tile) (p : ℕ) : Type 0 where
  pub before : List Tile
  pub tile : Tile
  pub after : List Tile
  pub row : onto before (tile ∷ after) ≡ ts
  pub is_free : tile.is_free ≡ true
  pub earlier : Smaller w before
  pub pointer : p ≡ tile.address + header
  pub bytes : ℕ
  pub left_over : List Tile
  pub parts :
      ((w + 32 < tile.bytes)
        × (bytes ≡ w)
        × (left_over
            ≡ record { address = tile.address + w; bytes = tile.bytes - w; is_free = true }
              ∷ after))
      ⊎ ((w ≤ tile.bytes) × (tile.bytes ≤ w + 32) × (bytes ≡ tile.bytes) × (left_over ≡ after))
  pub pool : IsPool h' first (onto before (taken tile.address bytes ∷ left_over))

module _ {h : Heap} {first : ℕ} {ts : List Tile} (v : IsPool h first ts) (w : ℕ) (pos : 0 < w)
    (whole : w % 16 ≡ 0) (f : Fit h first w ts) where
  abbrev b : ℕ
  b = f.tile.address

  abbrev size : ℕ
  size = f.tile.bytes

  abbrev prev : ℕ
  prev = last_free f.before

  abbrev q : ℕ
  q = first_free h.end f.after

  abbrev h1 : Heap
  h1 = set_next prev (h.next b) h

  sized : h.size b ≡ size
  sized = rw f.is_free at f.right.1.sized

  linked : h.next b ≡ q
  linked = rw f.is_free at f.right.1.linked

  inside : b + size ≤ h.end
  inside = Right-le h (b + size) f.after f.right.2

  below : first ≤ b
  below = Left-le h first b _ f.before f.left

  prev-lt : prev < b
  prev-lt = last_free-lt h first b _ f.before (omega (arith, v.low)) f.left

  left1 : Left h1 first b q f.before
  left1 =
      Left-relink h h1 first b b q f.before (omega (arith, v.low)) (λ a lt. refl)
        (λ a lt ne. ground (arith, ne)) (ground (arith, linked)) f.left

  right1 : Right h1 (b + size) f.after
  right1 =
      Right-frame h h1 (b + size) f.after refl (λ a le. refl)
        (λ a le. ground (arith, prev-lt, f.right.1.some_bytes)) f.right.2

  apart : Apart false f.before × Apart true f.after × (front f.before ≡ false)
  apart =
      let (x, y, z) =
        Apart-split f.before (f.tile ∷ f.after) (subst (Apart false) (sym f.row) v.apart) in
      (x, rw f.is_free at y.1, ground (arith, z, f.is_free))

  marks : Marked h f.before × Marked h f.after
  marks =
      let (x, y) =
        Marked-split h f.before (f.tile ∷ f.after) (subst (Marked h) (sym f.row) v.marks) in
      (x, y.1)

  counted : h.remaining ≡ free_bytes f.before + size + free_bytes f.after
  counted = ground (
    arith,
    v.counted,
    ap free_bytes f.row,
    free_bytes-onto f.before (f.tile ∷ f.after),
    f.is_free,
  )

  -- The whole block is taken.
  whole-IsOut : IsOut h1 first b size f.before f.after
  whole-IsOut = record {
    low = v.low;
    aligned = v.aligned;
    word = v.word;
    end_next = ground (arith, v.end_next, prev-lt, inside);
    start_size = v.start_size;
    left = left1;
    right = right1;
    sized = sized;
    some_bytes = f.right.1.some_bytes;
    whole = f.right.1.whole;
    apart =
        Apart-onto f.before (taken b size ∷ f.after) apart.0
          (refl, (Apart-false true f.after apart.1).0) (ground (arith, apart.2));
    marks = (
      Marked-left h h1 h first b _ f.before f.left (λ a lt. refl) marks.0,
      Marked-right h h1 h (b + size) f.after f.right.2 (λ a le. refl) marks.1,
    );
    counted = counted;
    least = v.least;
  }

  rest_after : (extra f.after ≡ 0) × (rest f.after ≡ f.after)
  rest_after = go f.after apart.1
    where
      go : (xs : List Tile) → Apart true xs → (extra xs ≡ 0) × (rest xs ≡ xs)
      go [] a = (refl, refl)
      go (x ∷ xs) a = simp (a.0) (refl, refl)

  -- The first `w` bytes are taken.
  module _ (more : w + 32 < size) where
    abbrev k : Heap
    k = set_size b w (set_size (b + w) (sub_size (h1.size b) w) h1)

    left_bytes : sub_size (h1.size b) w ≡ size - w
    left_bytes = omega (arith, sized, inside, v.word, more)

    abbrev part : Tile
    part = record { address = b + w; bytes = size - w; is_free = true }

    inserted :
        (h2 : Heap) × (insert_block (b + w) k ≡ some h2)
        × Inserted k h2 first (b + w) (size - w) (taken b w ∷ f.before) f.after
    inserted =
        let e : b + w + (size - w) ≡ b + size = omega (arith, more) in
        insert_block-Inserted k first (b + w) (size - w) (taken b w ∷ f.before) f.after
          (omega (arith, v.low)) v.word (ground (arith, v.start_size, below, v.low))
          (ground (arith, left_bytes, pos)) (omega (arith, more))
          (omega (arith, more, whole, f.right.1.whole))
          (
            refl,
            record { some_bytes = pos; whole = whole; sized = refl; linked = refl },
            Left-relink h1 k first b q q f.before (omega (arith, v.low)) (λ a lt. ground arith)
                (λ a lt ne. refl) (Left-next h1 first b q f.before left1) left1,
          )
          (rw e (
            Right-frame h1 k (b + size) f.after refl (λ a le. ground (arith, more, pos))
              (λ a le. refl) right1))

    same_row :
        (joined (b + w) (size - w) (taken b w ∷ f.before) f.after ∷ rest f.after) ≡ (part ∷ f.after)
    same_row =
        let e : 0 + (size - w) + extra f.after ≡ size - w = omega (arith, rest_after.0) in
        rw (e, rest_after.1) refl

    part-IsOut :
        (h2 : Heap)
        → Inserted k h2 first (b + w) (size - w) (taken b w ∷ f.before) f.after
        → IsOut h2 first b w f.before (part ∷ f.after)
    part-IsOut h2 i = record {
      low = v.low;
      aligned = v.aligned;
      word = omega (arith, i.same_end, v.word);
      end_next = ap h2.next i.same_end ∙ i.end_next ∙ ground (arith, v.end_next, prev-lt, inside);
      start_size = i.start_size ∙ ground (arith, v.start_size, below, v.low);
      left = i.left.2;
      right = subst (Right h2 (b + w)) same_row i.right;
      sized = i.sizes b (omega (arith, pos)) ∙ ground arith;
      some_bytes = pos;
      whole = whole;
      apart =
          Apart-onto f.before (taken b w ∷ part ∷ f.after) apart.0 (refl, (refl, apart.1))
            (ground (arith, apart.2));
      marks = (
        Marked-left h h2 h first b _ f.before f.left
            (λ a lt. i.sizes a (omega arith) ∙ ground arith) marks.0,
        (
          refl,
          Marked-right h h2 h (b + size) f.after f.right.2
              (λ a le. i.sizes a (omega (arith, more)) ∙ ground (arith, more, pos)) marks.1,
        ),
      );
      counted = i.same_remaining ∙ omega (arith, counted, more);
      least = omega (arith, i.same_remaining, i.same_minimum, v.least);
    }

    split-more : (h2 : Heap) → insert_block (b + w) k ≡ some h2 → split b w h1 ≡ some h2
    unfolding split
    split-more h2 e =
        let large : ltb (header * 2) (sub_size (h1.size b) w) ≡ true = ground (arith, left_bytes) in
        rw large e

  split-less : ltb (w + 32) size ≡ false → split b w h1 ≡ some h1
  unfolding split
  split-less less =
      let small : ltb (header * 2) (sub_size (h1.size b) w) ≡ false =
        ground (arith, sized, less, f.large, inside, v.word) in
      rw small refl

  take_block-some :
      (h2 : Heap)
      → split b w h1 ≡ some h2
      → take_block prev b w h ≡ some (b + header, mark_taken b h2)
  unfolding take_block
  take_block-some h2 e =
      ap (Option.map (λ h'. (h.next prev + header, mark_taken b h'))) e
      ∙ ap (λ a. some (a + header, mark_taken b h2)) (Left-next h first b b f.before f.left)

  pub take_block-Allocated :
      (h' : Heap) × (take_block prev b w h ≡ some (b + header, h'))
      × Allocated h h' first w ts (b + header)
  take_block-Allocated = elim (Bool-cases (ltb (w + 32) size)) [
    | inl more ↦
        let (h2, e, i) = inserted (ground (arith, more)) in
        (
          mark_taken b h2,
          take_block-some h2 (split-more (ground (arith, more)) h2 e),
          record {
            before = f.before;
            tile = f.tile;
            after = f.after;
            row = f.row;
            is_free = f.is_free;
            earlier = f.earlier;
            pointer = refl;
            bytes = w;
            left_over = part (ground (arith, more)) ∷ f.after;
            parts = inl (ground (arith, more), refl, refl);
            pool =
                mark_taken-IsPool h2 first b w f.before _ (part-IsOut (ground (arith, more)) h2 i);
          },
        )
    | inr less ↦ (
      mark_taken b h1,
      take_block-some h1 (split-less less),
      record {
        before = f.before;
        tile = f.tile;
        after = f.after;
        row = f.row;
        is_free = f.is_free;
        earlier = f.earlier;
        pointer = refl;
        bytes = size;
        left_over = f.after;
        parts = inr (f.large, ground (arith, less), refl, refl);
        pool = mark_taken-IsPool h1 first b size f.before f.after whole-IsOut;
      },
    )
  ]
