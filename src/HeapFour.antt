-- ===== src/HeapFour.antt =====
-- portable/MemMang/heap_4.c: the first-fit allocator. A block is the address of its header, of 16
-- bytes, whose two fields are functions of the address; `xStart` is at address 1, where no block is,
-- and NULL is 0. `none` means that the fuel of a loop ran out. Of a 64-bit word the top bit is set
-- just if it is 2 ^ 63 at least.
pub mod Tiles
pub mod Rows
pub mod Walk
pub mod Merge
pub mod Insert
pub mod Pool
pub mod Free
pub mod Out
pub mod Take
pub mod Malloc
pub mod Start
use mathlib.Core.Option
use flint_rtos.Base.{
  ℕ, zero, suc, ◌+◌, ◌-◌, ◌*◌, ◌%◌, ◌^◌, Bool, not, ◌==◌, ◌&&◌, ◌||◌, ltb, leb, if◌then◌else◌,
  update,
}
use flint_rtos.Base.{Option, none, some}

abbrev pub start : ℕ
start = 1

abbrev pub header : ℕ
header = 16

-- The pool's links, `pxEnd` and the two counters.
pub record Heap : Type 0 where
  pub next : ℕ → ℕ
  pub size : ℕ → ℕ
  pub end : ℕ
  pub remaining : ℕ
  pub minimum : ℕ

abbrev pub set_next : ℕ → ℕ → Heap → Heap
set_next b v h = record h { next = update h.next b v }

abbrev pub set_size : ℕ → ℕ → Heap → Heap
set_size b v h = record h { size = update h.size b v }

-- size_t arithmetic.
abbrev pub add_size : ℕ → ℕ → ℕ
add_size a b = (a + b) % 2 ^ 64

abbrev pub sub_size : ℕ → ℕ → ℕ
sub_size a b = (a + 2 ^ 64 - b) % 2 ^ 64

abbrev pub is_allocated : ℕ → Heap → Bool
is_allocated b h = leb (2 ^ 63) (h.size b)

-- The `for` loop of `prvInsertBlockIntoFreeList`.
unfoldable pub find_place : ℕ → Heap → ℕ → ℕ → Option ℕ
find_place zero h b it = none
find_place (suc fuel) h b it =
    let rest = find_place fuel h b (h.next it) in if ltb (h.next it) b then rest else some it

-- Joining the block with the one before it, if that is next to it.
unfoldable pub merge_before : ℕ → ℕ → Heap → ℕ × Heap
merge_before it b h =
    if it + h.size it == b then (it, set_size it (add_size (h.size it) (h.size b)) h) else (b, h)

-- Joining the block with the one after it, or linking it to that one.
unfoldable pub merge_after : ℕ → ℕ → Heap → Heap
merge_after it b h =
    let after = h.next it in
    if b + h.size b == after
    then if not (after == h.end)
      then (let h1 = set_size b (add_size (h.size b) (h.size after)) h in
          set_next b (h1.next (h1.next it)) h1)
      else set_next b h.end h
    else set_next b after h

unfoldable pub link : ℕ → ℕ → Heap → Heap
unfolding merge_before merge_after
link it b h0 =
    let (b1, h1) = merge_before it b h0 in
    let h2 = merge_after it b1 h1 in if not (it == b1) then set_next it b1 h2 else h2

-- Fuel for as many rounds as there are addresses below `pxEnd`.
unfoldable pub insert_block : ℕ → Heap → Option Heap
unfolding find_place link
insert_block b h = Option.map (λ it. link it b h) (find_place h.end h b start)

-- The start of the pool at `base`, and the place of `pxEnd` in a pool of `total` bytes.
unfoldable pub first_block : ℕ → ℕ
first_block base = if not (base % 16 == 0) then base + 15 - (base + 15) % 16 else base

unfoldable pub end_block : ℕ → ℕ → ℕ
unfolding first_block
end_block base total =
    let first = first_block base in
    let left = total - (first - base) in let top = first + left - header in top - top % 16

-- One block from `first` to `end`.
unfoldable pub one_block : ℕ → ℕ → Heap → Heap
one_block first end h0 =
    let h1 = set_size start 0 (set_next start first h0) in
    let h2 = set_next end 0 (set_size end 0 (record h1 { end = end })) in
    let h3 = set_next first end (set_size first (end - first) h2) in
    record h3 { remaining = end - first; minimum = end - first }

unfoldable pub initialise : ℕ → ℕ → Heap → Heap
unfolding first_block end_block one_block
initialise base total h = one_block (first_block base) (end_block base total) h

-- The wanted size with the header, up to the next multiple of 16.
unfoldable pub needed : ℕ → ℕ
needed wanted =
    let w = add_size wanted header in if not (w % 16 == 0) then add_size w (16 - w % 16) else w

-- The `while` loop of `pvPortMalloc`.
unfoldable pub find_fit : ℕ → Heap → ℕ → ℕ → ℕ → Option (ℕ × ℕ)
find_fit zero h w prev b = none
find_fit (suc fuel) h w prev b =
    let rest = find_fit fuel h w b (h.next b) in
    if ltb (h.size b) w && not (h.next b == 0) then rest else some (prev, b)

-- The rest of a block of which `w` bytes are taken becomes a block, if it is large enough.
unfoldable pub split : ℕ → ℕ → Heap → Option Heap
unfolding insert_block
split b w h =
    if ltb (header * 2) (sub_size (h.size b) w)
    then insert_block (b + w) (set_size b w (set_size (b + w) (sub_size (h.size b) w) h))
    else some h

-- The counters and the mark on the block.
unfoldable pub mark_taken : ℕ → Heap → Heap
mark_taken b h =
    let left = sub_size h.remaining (h.size b) in
    record h {
      remaining = left;
      minimum = if ltb left h.minimum then left else h.minimum;
      size = update h.size b (h.size b % 2 ^ 63 + 2 ^ 63);
      next = update h.next b 0;
    }

-- The block found is taken from the list; its contents are at the address returned.
unfoldable pub take_block : ℕ → ℕ → ℕ → Heap → Option (ℕ × Heap)
unfolding split mark_taken
take_block prev b w h =
    Option.map (λ h'. (h.next prev + header, mark_taken b h'))
      (split b w (set_next prev (h.next b) h))

-- The call once the pool is there.
unfoldable pub allocate : ℕ → Heap → Option (ℕ × Heap)
unfolding needed find_fit take_block
allocate wanted h =
    let w = needed wanted in
    let found = find_fit h.end h w start (h.next start) in
    if wanted == 0 || leb (2 ^ 63) wanted
    then some (0, h)
    else if ltb h.remaining w
    then some (0, h)
    else elim found [
      | none ↦ none
      | some (prev, b) ↦ if not (b == h.end) then take_block prev b w h else some (0, h)
    ]

-- `base` and `total` are the address and the size of `ucHeap`.
unfoldable pub malloc : ℕ → ℕ → ℕ → Heap → Option (ℕ × Heap)
unfolding allocate initialise
malloc base total wanted h =
    if h.end == 0 then allocate wanted (initialise base total h) else allocate wanted h

unfoldable pub free : ℕ → Heap → Option Heap
unfolding insert_block
free p h =
    let b = p - header in
    let size = h.size b % 2 ^ 63 in
    let h1 = record h {
      size = update h.size b size;
      next = update h.next b 0;
      remaining = add_size h.remaining size;
    } in
    if p == 0 then some h else if not (is_allocated b h) then some h else insert_block b h1
