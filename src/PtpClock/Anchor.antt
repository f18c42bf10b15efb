-- ===== src/PtpClock/Anchor.antt =====
-- Where the line of the clock passes through after it is steered.
use flint_rtos.Base.{ℕ, ◌+◌, ◌-◌, ◌%◌, ◌^◌, ◌≤◌, ◌<◌, ◌≡◌, arith}
use flint_rtos.Int.{ℤ, pos, pos_part, neg_part, ◌+ℤ◌, ◌*ℤ◌, times, quot, rem, of_word, wrap}
use flint_rtos.PtpClock.{
  Clock, max_ppb, ticks_to_ns, scale_ppb, from_cnt, rebase, step, clamp_ppb, adjfreq,
}

abbrev pub IsWord64 : ℤ → Type 0
IsWord64 a = (pos_part a < 2 ^ 63) × (neg_part a ≤ 2 ^ 63)

wrap-IsWord64 : (a : ℤ) → IsWord64 (wrap 64 a)
unfolding wrap
wrap-IsWord64 a = (ground arith, ground arith)

wrap-word : (a : ℤ) → IsWord64 a → wrap 64 a ≡ a
unfolding wrap
wrap-word a b = ground arith

no_ticks : (freq : ℕ) → ticks_to_ns freq (pos 0) ≡ pos 0
unfolding ticks_to_ns quot rem ◌*ℤ◌ ◌+ℤ◌ wrap
no_ticks freq = ground arith

no_ppb : (ppb : ℤ) → scale_ppb (pos 0) ppb ≡ pos 0
unfolding scale_ppb quot rem times ◌+ℤ◌ wrap
no_ppb ppb = ground arith

plus_nothing : (a : ℤ) → a +ℤ pos 0 ≡ a
unfolding ◌+ℤ◌
plus_nothing a = ground arith

-- At its anchor the clock shows the base.
anchor :
    (freq : ℕ) (c : Clock)
    → c.base_cnt < 2 ^ 64
    → IsWord64 c.base_ns
    → from_cnt freq c.base_cnt c ≡ c.base_ns
unfolding from_cnt
anchor freq c b w =
    let same : of_word 64 ((c.base_cnt + 2 ^ 64 - c.base_cnt) % 2 ^ 64) ≡ pos 0 = ground arith in
    rw
      (
        same,
        no_ticks freq,
        no_ppb c.ppb,
        plus_nothing c.base_ns,
        wrap-word c.base_ns w,
        plus_nothing c.base_ns,
      )
      (wrap-word c.base_ns w)

from_cnt-IsWord64 : (freq cnt : ℕ) (c : Clock) → IsWord64 (from_cnt freq cnt c)
unfolding from_cnt
from_cnt-IsWord64 freq cnt c = wrap-IsWord64 _

-- At the counter value that a call reads, ptp_clock_adjfreq leaves the time that the clock shows as it was,
-- and ptp_clock_step moves it by the step, within 64 bits.
pub steer-continuous :
    (freq now : ℕ) (c : Clock) (ppb delta : ℤ)
    → now < 2 ^ 64
    → (from_cnt freq now (adjfreq freq now ppb c) ≡ from_cnt freq now c)
      × (from_cnt freq now (step freq now delta c) ≡ wrap 64 (from_cnt freq now c +ℤ delta))
unfolding adjfreq step rebase
steer-continuous freq now c ppb delta b = (
  anchor freq (adjfreq freq now ppb c) b (from_cnt-IsWord64 freq now c),
  anchor freq (step freq now delta c) b (wrap-IsWord64 _),
)

-- The bound on the frequency.
abbrev pub InPpb : ℤ → Type 0
InPpb a = (pos_part a ≤ max_ppb) × (neg_part a ≤ max_ppb)

pub clamp_ppb-InPpb : (a : ℤ) → InPpb (clamp_ppb a)
unfolding clamp_ppb
clamp_ppb-InPpb a = (ground arith, ground arith)
