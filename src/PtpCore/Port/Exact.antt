-- ===== src/PtpCore/Port/Exact.antt =====
-- The sample of the path delay that a Delay_Resp message gives.
use flint_rtos.Base.{ℕ, ◌≡◌, ◌≤◌, refl, arith, ==_refl, true, false, not, ◌||◌, ◌==◌, ltb}
use flint_rtos.Int.{
  ℤ, pos, negsuc, pos_part, neg_part, ◌+ℤ◌, ◌-ℤ◌, ◌*ℤ◌, quot, wrap, negate, signed,
}
use flint_rtos.PtpMsg.{from}
use flint_rtos.PtpClock.{Clock}
use flint_rtos.PtpServo.{abs64}
use flint_rtos.PtpDelay.{delay_add}
use flint_rtos.PtpCore.{Core, rd16, rd_ts_ns, rd_corr_ns, same_bytes}
use flint_rtos.PtpCore.Measure.{Around, handle_delay_resp, delay_resp_len, delay_max_ns}

-- The message answers the request that is outstanding, and both halves of the exchange belong to the
-- present epoch of the clock.
pub record Answers (b : ℕ → ℕ) (len : ℕ) (g : Core) (c : Clock) : Type 0 where
  pub long : 54 ≤ len
  pub outstanding : g.dreq_outstanding ≡ true
  pub sequence : rd16 (from 30 b) ≡ g.dreq_seq
  pub for_us : same_bytes (from 44 b) g.self_id 10 ≡ true
  pub leg : g.ms_valid ≡ true
  pub request_epoch : g.t3_epoch ≡ c.epoch
  pub leg_epoch : g.ms_epoch ≡ c.epoch

-- The leg from the master took `d + o` and the leg to it `d - o`: the path takes `d` and the clock is `o`
-- ahead.
pub record Legs (b : ℕ → ℕ) (g : Core) (d o : ℤ) : Type 0 where
  pub there : g.ms_leg ≡ d +ℤ o
  pub back : wrap 64 (wrap 64 (rd_ts_ns (from 34 b) -ℤ rd_corr_ns b) -ℤ g.t3_ns) ≡ d -ℤ o
  pub near : (pos_part d ≤ 10000000) × (neg_part d ≤ 10000000)

legs-sum : (d o : ℤ) → (d +ℤ o) +ℤ (d -ℤ o) ≡ d *ℤ 2
legs-sum d o = grind signed

quot-twice : (d : ℤ) → pos_part d ≤ 10000000 → neg_part d ≤ 10000000 → quot (wrap 64 (d *ℤ 2)) 2 ≡ d
unfolding quot wrap ◌*ℤ◌
quot-twice (pos n) p q = ground arith
quot-twice (negsuc n) p q = ground arith

near-abs64 :
    (d : ℤ)
    → pos_part d ≤ 10000000
    → neg_part d ≤ 10000000
    → ltb delay_max_ns (pos_part (abs64 d)) ≡ false
unfolding abs64 wrap negate
near-abs64 (pos n) p q = ground arith
near-abs64 (negsuc n) p q = ground arith

-- If a message answers the outstanding request within one epoch of the clock, the leg from the master took
-- `d + o` and the leg to it `d - o`, for a path delay `d` of at most 10 ms, then the handler adds exactly `d`
-- to the filter and closes the request, whatever the offset `o` of the clock.
pub handle_delay_resp-Legs :
    (env : Around) (b : ℕ → ℕ) (len : ℕ) (g : Core) (c : Clock) (d o : ℤ)
    → Answers b len g c
    → Legs b g d o
    → handle_delay_resp env b len g c
      ≡ record g { dreq_outstanding = false; delay = delay_add env.samples d g.delay }
unfolding handle_delay_resp
handle_delay_resp-Legs env b len g c d o a l =
    let back = wrap 64 (wrap 64 (rd_ts_ns (from 34 b) -ℤ rd_corr_ns b) -ℤ g.t3_ns) in
    let open_request : (ltb len delay_resp_len || not g.dreq_outstanding) ≡ false =
      rw (a.outstanding) (ground (arith, a.long)) in
    let answers : (not (rd16 (from 30 b) == g.dreq_seq)
          || not (same_bytes (from 44 b) g.self_id 10))
        ≡ false =
      rw (a.sequence, a.for_us, ==_refl g.dreq_seq) refl in
    let one_epoch : (not (g.t3_epoch == c.epoch)
          || not g.ms_valid
          || not (g.ms_epoch == g.t3_epoch))
        ≡ false =
      rw (a.request_epoch, a.leg_epoch, a.leg, ==_refl c.epoch) refl in
    let half : quot (wrap 64 (g.ms_leg +ℤ back)) 2 ≡ d =
      rw (l.there, l.back, legs-sum d o) (quot-twice d l.near.0 l.near.1) in
    rw (open_request, answers, one_epoch, half, near-abs64 d l.near.0 l.near.1) refl
