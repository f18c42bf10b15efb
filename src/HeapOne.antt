-- ===== src/HeapOne.antt =====
-- portable/MemMang/heap_1.c: the allocator that never frees. An address is its distance from the
-- start of `ucHeap`; `total` is configTOTAL_HEAP_SIZE.
pub mod Blocks
use mathlib.Core.Option
use flint_rtos.Base.{ℕ, ◌+◌, ◌-◌, ◌%◌, ◌^◌, ◌==◌, leb, not, if◌then◌else◌, bit_and}
use flint_rtos.Base.{Option, none, some}

abbrev pub align_mask : ℕ
align_mask = 15

-- The wanted size up to the next multiple of 16.
unfoldable pub aligned : ℕ → ℕ
aligned wanted =
    if not (bit_and wanted align_mask == 0)
    then (wanted + (16 - bit_and wanted align_mask)) % 2 ^ 64
    else wanted

-- On `xNextFreeByte`.
unfoldable pub malloc : ℕ → ℕ → ℕ → Option ℕ × ℕ
unfolding aligned
malloc total wanted next =
    if leb ((next + aligned wanted) % 2 ^ 64) total
    then (some next, (next + aligned wanted) % 2 ^ 64)
    else (none, next)

-- `vPortInitialiseBlocks`, which also takes back every block, and `vPortFree`, which takes back none.
unfoldable pub reset_heap : ℕ → ℕ
reset_heap next = 0

unfoldable pub keep_block : ℕ → ℕ → ℕ
keep_block pv next = next

-- `xPortGetFreeHeapSize` and `xPortGetMinimumEverFreeHeapSize`.
unfoldable pub free_heap_size : ℕ → ℕ → ℕ
free_heap_size total next = (total + 2 ^ 64 - next) % 2 ^ 64
