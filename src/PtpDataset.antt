-- ===== src/PtpDataset.antt =====
-- port/ptp/ptp_core.c: the comparison of two masters by their datasets. An identity is a function from
-- the number of a byte.
pub mod Order
use flint_rtos.Base.{ℕ, zero, suc, ◌+◌, not, ◌==◌, ◌||◌, ltb, if◌then◌else◌}
use flint_rtos.Int.{ℤ, pos, negsuc, is_pos, is_neg}

pub record Dataset : Type 0 where
  pub prio1 : ℕ
  pub clk_class : ℕ
  pub clk_accuracy : ℕ
  pub variance : ℕ
  pub prio2 : ℕ
  pub gm_id : ℕ → ℕ
  pub steps_removed : ℕ
  pub port_id : ℕ → ℕ

-- The loop of `cmp_bytes` with `n` rounds to go, from byte `i` on.
unfoldable pub cmp_from : ℕ → ℕ → (ℕ → ℕ) → (ℕ → ℕ) → ℤ
cmp_from zero i a b = pos 0
cmp_from (suc n) i a b =
    let rest = cmp_from n (i + 1) a b in
    if not (a i == b i) then (if ltb (a i) (b i) then negsuc 0 else pos 1) else rest

abbrev pub cmp_bytes : (ℕ → ℕ) → (ℕ → ℕ) → ℕ → ℤ
cmp_bytes a b n = cmp_from n 0 a b

-- Below 0 if `a` is better.
unfoldable pub dataset_cmp : Dataset → Dataset → ℤ
dataset_cmp a b =
    let c = cmp_bytes a.gm_id b.gm_id 8 in
    if not (a.prio1 == b.prio1)
    then (if ltb a.prio1 b.prio1 then negsuc 0 else pos 1)
    else if not (a.clk_class == b.clk_class)
    then (if ltb a.clk_class b.clk_class then negsuc 0 else pos 1)
    else if not (a.clk_accuracy == b.clk_accuracy)
    then (if ltb a.clk_accuracy b.clk_accuracy then negsuc 0 else pos 1)
    else if not (a.variance == b.variance)
    then (if ltb a.variance b.variance then negsuc 0 else pos 1)
    else if not (a.prio2 == b.prio2)
    then (if ltb a.prio2 b.prio2 then negsuc 0 else pos 1)
    else if is_pos c || is_neg c
    then c
    else if not (a.steps_removed == b.steps_removed)
    then (if ltb a.steps_removed b.steps_removed then negsuc 0 else pos 1)
    else cmp_bytes a.port_id b.port_id 10
