-- ===== src/PtpDelay.antt =====
-- port/ptp/ptp_core.c: the filter of the path delay, the median of the last samples.
pub mod Sort
pub mod Median
use flint_rtos.Base.{ℕ, zero, suc, ◌+◌, ◌-◌, ◌/◌, ◌%◌, ◌==◌, ltb, if◌then◌else◌, update}
use flint_rtos.Int.{ℤ, ◌+ℤ◌, quot, wrap, ltb_ℤ}

abbrev pub delay_window : ℕ
delay_window = 8

-- The samples, of which `n` are in use, the place of the next one, and the filtered delay.
pub record Delay : Type 0 where
  pub win : ℕ → ℤ
  pub n : ℕ
  pub idx : ℕ
  pub ns : ℤ

-- The `while` loop of the insertion sort, from `j` down.
unfoldable pub shift : ℕ → ℤ → (ℕ → ℤ) → ℕ → ℤ
shift zero v s = update s 0 v
shift (suc j) v s =
    let rest = shift j v (update s (suc j) (s j)) in
    if ltb_ℤ v (s j) then rest else update s (suc j) v

-- The `for` loop with `rounds` to go, from `i` on.
unfoldable pub sort_from : ℕ → ℕ → (ℕ → ℤ) → ℕ → ℤ
sort_from zero i s = s
sort_from (suc rounds) i s = sort_from rounds (i + 1) (shift i (s i) s)

-- The loop that copies the samples into an array that held `s`.
unfoldable pub copy_samples : ℕ → (ℕ → ℤ) → (ℕ → ℤ) → ℕ → ℤ
copy_samples zero win s = s
copy_samples (suc n) win s = update (copy_samples n win s) n (win n)

unfoldable pub median : ℕ → (ℕ → ℤ) → ℤ
median n s = if n % 2 == 1 then s (n / 2) else quot (wrap 64 (s (n / 2 - 1) +ℤ s (n / 2))) 2

-- `delay_add`, with what the local array holds at first.
unfoldable pub delay_add : (ℕ → ℤ) → ℤ → Delay → Delay
delay_add s sample d =
    let win = update d.win d.idx sample in
    let n = if ltb d.n delay_window then d.n + 1 else d.n in
    record {
      win = win;
      n = n;
      idx = (d.idx + 1) % delay_window;
      ns = median n (sort_from (n - 1) 1 (copy_samples n win s));
    }
