-- ===== src/HeapFour/Out.antt =====
-- A block that is out of the free list, before its mark and the counters are written.
use flint_rtos.Base.{ℕ, ◌+◌, ◌%◌, ◌^◌, ◌≤◌, ◌<◌, ◌≡◌, arith, refl, false, List, ◌∷◌}
use flint_rtos.HeapFour.{Heap, start, mark_taken}
use flint_rtos.HeapFour.Tiles.{
  Tile, Left, Right, Left-le, Left-next, Right-le, Left-relink, Right-frame, last_free-lt,
  first_free, Apart, free_bytes, onto,
}
use flint_rtos.HeapFour.Rows.{Marked, Marked-left, Marked-right, Marked-onto, free_bytes-onto, zip}
use flint_rtos.HeapFour.Pool.{IsPool, Right-bytes}

abbrev pub taken : ℕ → ℕ → Tile
taken b n = record { address = b; bytes = n; is_free = false }

-- The block at `b` is out of the free list, and its mark and the counters are still to be written.
pub record IsOut (h : Heap) (first b n : ℕ) (ls rs : List Tile) : Type 0 where
  pub low : 16 ≤ first
  pub aligned : first % 16 ≡ 0
  pub word : h.end < 2 ^ 63
  pub end_next : h.next h.end ≡ 0
  pub start_size : h.size start ≡ 0
  pub left : Left h first b (first_free h.end rs) ls
  pub right : Right h (b + n) rs
  pub sized : h.size b ≡ n
  pub some_bytes : 0 < n
  pub whole : n % 16 ≡ 0
  pub apart : Apart false (onto ls (taken b n ∷ rs))
  pub marks : Marked h ls × Marked h rs
  pub counted : h.remaining ≡ free_bytes ls + n + free_bytes rs
  pub least : h.minimum ≤ h.remaining

pub mark_taken-IsPool :
    (h : Heap) (first b n : ℕ) (ls rs : List Tile)
    → IsOut h first b n ls rs
    → IsPool (mark_taken b h) first (onto ls (taken b n ∷ rs))
unfolding mark_taken
mark_taken-IsPool h first b n ls rs o =
    let inside = Right-le h (b + n) rs o.right in
    let below = Left-le h first b _ ls o.left in
    let lt = last_free-lt h first b _ ls (omega (arith, o.low)) o.left in
    let k = mark_taken b h in
    let left : Left k first b (first_free h.end rs) ls =
      Left-relink h k first b _ _ ls (omega (arith, o.low)) (λ a less. ground arith)
        (λ a less ne. ground arith) (ground (arith, lt, Left-next h first b _ ls o.left)) o.left in
    let right : Right k (b + n) rs =
      Right-frame h k (b + n) rs refl (λ a le. ground (arith, o.some_bytes))
        (λ a le. ground (arith, o.some_bytes)) o.right in
    let (head, row) = zip k first b ls (taken b n ∷ rs) left (
      refl,
      record { some_bytes = o.some_bytes; whole = o.whole; sized = refl; linked = refl },
      right,
    ) in
    let fits = Right-bytes k first (onto ls (taken b n ∷ rs)) row in
    record {
      low = o.low;
      aligned = o.aligned;
      word = o.word;
      end_next = ground (arith, o.end_next, inside, o.some_bytes);
      start_size = ground (arith, o.start_size, below, o.low);
      head = head;
      row = row;
      apart = o.apart;
      marks =
          Marked-onto k ls (taken b n ∷ rs)
            (Marked-left h k h first b _ ls o.left (λ a less. ground arith) o.marks.0)
            (
              ground (arith, o.sized, inside, o.word),
              Marked-right h k h (b + n) rs o.right (λ a le. ground (arith, o.some_bytes))
                  o.marks.1,
            );
      counted =
          omega (arith, o.counted, o.sized, free_bytes-onto ls (taken b n ∷ rs), fits, o.word);
      least = ground arith;
    }
