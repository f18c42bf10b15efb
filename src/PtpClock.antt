-- ===== src/PtpClock.antt =====
-- port/ptp/ptp_clock.c: the clock that the servo steers, a line over the counter of the processor. The
-- frequency of the counter and the value that a call reads from it are arguments.
pub mod Anchor
use flint_rtos.Base.{ℕ, ◌+◌, ◌-◌, ◌*◌, ◌%◌, ◌^◌, ◌==◌, ◌||◌, leb, ltb, if◌then◌else◌}
use flint_rtos.Int.{ℤ, pos, negsuc, pos_part, neg_part, ◌+ℤ◌, ◌*ℤ◌, times, quot, rem, of_word, wrap}
use flint_rtos.PtpTime.{TimeInternal, ns_per_s, ns_to_time}

abbrev pub max_ppb : ℕ
max_ppb = 500000

pub record Clock : Type 0 where
  pub base_cnt : ℕ
  pub base_ns : ℤ
  pub ppb : ℤ
  pub epoch : ℕ

-- Frequencies of 2 ^ 63 and above are negative as `int64_t`.
unfoldable pub ticks_to_ns : ℕ → ℤ → ℤ
ticks_to_ns freq dt =
    if freq == 0 || leb (2 ^ 63) freq
    then pos 0
    else wrap 64
        (wrap 64 (quot dt freq *ℤ ns_per_s) +ℤ quot (wrap 64 (rem dt freq *ℤ ns_per_s)) freq)

unfoldable pub scale_ppb : ℤ → ℤ → ℤ
scale_ppb d ppb =
    wrap 64 (
      wrap 64 (times (quot d ns_per_s) ppb) +ℤ quot (wrap 64 (times (rem d ns_per_s) ppb)) ns_per_s)

unfoldable pub from_cnt : ℕ → ℕ → Clock → ℤ
from_cnt freq cnt c =
    let d = ticks_to_ns freq (of_word 64 ((cnt + 2 ^ 64 - c.base_cnt) % 2 ^ 64)) in
    wrap 64 (wrap 64 (c.base_ns +ℤ d) +ℤ scale_ppb d c.ppb)

-- `ptp_clock_now`, on the counter value `cnt`.
unfoldable pub clock_now : ℕ → ℕ → Clock → TimeInternal
clock_now freq cnt c = ns_to_time (from_cnt freq cnt c)

unfoldable pub rebase : ℕ → ℕ → Clock → Clock
rebase freq now c = record c { base_ns = from_cnt freq now c; base_cnt = now }

unfoldable pub step : ℕ → ℕ → ℤ → Clock → Clock
step freq now delta c =
    let c1 = rebase freq now c in
    record c1 { base_ns = wrap 64 (c1.base_ns +ℤ delta); epoch = (c1.epoch + 1) % 2 ^ 32 }

-- Between -max_ppb and max_ppb.
unfoldable pub clamp_ppb : ℤ → ℤ
clamp_ppb v =
    if ltb max_ppb (pos_part v)
    then pos max_ppb
    else if ltb max_ppb (neg_part v)
    then negsuc (max_ppb - 1)
    else v

unfoldable pub adjfreq : ℕ → ℕ → ℤ → Clock → Clock
adjfreq freq now ppb c = record (rebase freq now c) { ppb = clamp_ppb ppb }
