-- ===== src/Cap/Slots.antt =====
-- The calls as one type, and what decides whether they are accepted.
use flint_rtos.Base.{ℕ, ◌≡◌, ◌≢◌, arith}
use flint_rtos.Status.{Status}
use flint_rtos.Cap.{Space, copy, mint, move, delete}

-- The operations that a holder of capabilities can ask for; `install` is the boot builder's.
pub data Op : Type 0 where
  copying : (dst_cn dst src_cn src mask : ℕ) → Op
  minting : (dst_cn dst src_cn src mask badge : ℕ) → Op
  moving : (dst_cn dst src_cn src : ℕ) → Op
  deleting : (cn slot : ℕ) → Op

unfoldable pub run : Op → Space → Status × Space
unfolding copy mint move delete
run (copying dst_cn dst src_cn src mask) s = copy s dst_cn dst src_cn src mask
run (minting dst_cn dst src_cn src mask badge) s = mint s dst_cn dst src_cn src mask badge
run (moving dst_cn dst src_cn src) s = move s dst_cn dst src_cn src
run (deleting cn slot) s = delete s cn slot

-- On any error an operation has no effect at all (the promise of include/flint/status.h).
pub run-atomic : (op : Op) (s : Space) → (run op s).0 ≢ Status.ok → (run op s).1 ≡ s
unfolding run
run-atomic (copying dst_cn dst src_cn src mask) s h = ground arith
run-atomic (minting dst_cn dst src_cn src mask badge) s h = ground arith
run-atomic (moving dst_cn dst src_cn src) s h = ground arith
run-atomic (deleting cn slot) s h = ground arith
