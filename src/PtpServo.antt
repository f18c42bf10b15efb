-- ===== src/PtpServo.antt =====
-- port/ptp/ptp_servo.c: the controller that steers the clock onto the master. `freq` is the frequency of
-- the counter and `reads i` what the call reads from it the i-th time that it steers the clock.
pub mod Bounded
use flint_rtos.Base.{ℕ, ◌+◌, ◌-◌, ◌*◌, ◌/◌, ◌%◌, ◌^◌, not, ◌==◌, ◌||◌, leb, ltb, if◌then◌else◌}
use flint_rtos.Int.{ℤ, pos, pos_part, ◌+ℤ◌, ◌-ℤ◌, ◌*ℤ◌, negate, quot, is_neg, of_word, wrap}
use flint_rtos.PtpTime.{ns_per_s}
use flint_rtos.PtpClock.{Clock, step, clamp_ppb, adjfreq}

abbrev pub step_ns : ℕ
step_ns = 1000000

abbrev pub outliers_max : ℕ
outliers_max = 3

pub data ServoState : Type 0 where
  unlocked : ServoState
  stepped : ServoState
  locked : ServoState

pub record Servo : Type 0 where
  pub state : ServoState
  pub drift_ppb : ℤ
  pub ref_cnt : ℕ
  pub ref_raw : ℤ
  pub last_cnt : ℕ
  pub outliers : ℕ

abbrev pub init : Servo
init = record {
  state = unlocked;
  drift_ppb = pos 0;
  ref_cnt = 0;
  ref_raw = pos 0;
  last_cnt = 0;
  outliers = 0;
}

unfoldable pub abs64 : ℤ → ℤ
abs64 v = if is_neg v then wrap 64 (negate v) else v

unfoldable pub span_ns : ℕ → ℕ → ℕ → ℤ
span_ns freq from to =
    let dt = (to + 2 ^ 64 - from) % 2 ^ 64 in
    if freq == 0
    then pos 0
    else of_word 64
        ((dt / freq * ns_per_s % 2 ^ 64 + dt % freq * ns_per_s % 2 ^ 64 / freq) % 2 ^ 64)

unfoldable pub do_step : ℕ → ℕ → ℤ → ℤ → ℕ → Servo → Clock → Servo × Clock
do_step freq now raw d rx_cnt s c = (
  record s { ref_cnt = rx_cnt; ref_raw = d },
  step freq now (wrap 64 (negate (wrap 64 (raw -ℤ d)))) c,
)

-- The case PTP_SERVO_STEPPED.
unfoldable pub sample_stepped : ℕ → (ℕ → ℕ) → ℤ → ℤ → ℤ → ℕ → Servo → Clock → Servo × Clock
sample_stepped freq reads raw delay d rx_cnt s c =
    let t = span_ns freq s.ref_cnt rx_cnt in
    let moved = wrap 64 (wrap 64 (raw -ℤ s.ref_raw) *ℤ ns_per_s) in
    let drift = clamp_ppb (wrap 64 (quot moved (pos_part t) -ℤ c.ppb)) in
    let s1 = record s { drift_ppb = drift } in
    let c1 = adjfreq freq (reads 0) (clamp_ppb (wrap 64 (negate drift))) c in
    let (s2, c2) = do_step freq (reads 1) raw d rx_cnt s1 c1 in
    if ltb (pos_part t) (ns_per_s / 8)
    then (s, c)
    else if is_neg delay
    then (record s1 { ref_cnt = rx_cnt; ref_raw = raw }, c1)
    else (record s2 { state = locked; last_cnt = rx_cnt }, c2)

-- An offset beyond the threshold in the case PTP_SERVO_LOCKED.
unfoldable pub outlier : ℕ → ℕ → ℤ → ℤ → ℕ → Servo → Clock → Servo × Clock
outlier freq now raw d rx_cnt s c =
    let n = (s.outliers + 1) % 2 ^ 32 in
    let (s1, c1) = do_step freq now raw d rx_cnt (record s { outliers = 0 }) c in
    if leb outliers_max n
    then (record s1 { state = stepped }, c1)
    else (record s { outliers = n }, c)

-- The controller, with the gains 3 / 10 and 1 / 20 for a second.
unfoldable pub control : ℕ → ℕ → ℤ → ℕ → Servo → Clock → Servo × Clock
control freq now offset rx_cnt s c =
    let t0 = pos_part (span_ns freq s.last_cnt rx_cnt) in
    let t = if t0 == 0 || ltb (8 * ns_per_s) t0 then ns_per_s else t0 in
    let p = quot (wrap 64 (wrap 64 (offset *ℤ 3) *ℤ ns_per_s)) (10 * t) in
    let i = quot (wrap 64 (wrap 64 (offset *ℤ 1) *ℤ ns_per_s)) (20 * t) in
    let drift = clamp_ppb (wrap 64 (s.drift_ppb +ℤ i)) in
    (
      record s { outliers = 0; last_cnt = rx_cnt; drift_ppb = drift },
      adjfreq freq now (clamp_ppb (wrap 64 (negate (wrap 64 (drift +ℤ p))))) c,
    )

-- The case PTP_SERVO_LOCKED.
unfoldable pub sample_locked : ℕ → ℕ → ℤ → ℤ → ℕ → Servo → Clock → Servo × Clock
sample_locked freq now raw d rx_cnt s c =
    let offset = wrap 64 (raw -ℤ d) in
    if ltb step_ns (pos_part (abs64 offset))
    then outlier freq now raw d rx_cnt s c
    else control freq now offset rx_cnt s c

-- The `switch` on the state.
unfoldable pub sample_state :
    ServoState → ℕ → (ℕ → ℕ) → ℤ → ℤ → ℤ → ℕ → Servo → Clock → Servo × Clock
sample_state unlocked freq reads raw delay d rx_cnt s c =
    let (s1, c1) = do_step freq (reads 0) raw d rx_cnt s c in (record s1 { state = stepped }, c1)
sample_state stepped freq reads raw delay d rx_cnt s c =
    sample_stepped freq reads raw delay d rx_cnt s c
sample_state locked freq reads raw delay d rx_cnt s c =
    sample_locked freq (reads 0) raw d rx_cnt s c

-- `ptp_servo_sample`, with the offset that it returns.
unfoldable pub sample : ℕ → (ℕ → ℕ) → ℤ → ℤ → ℕ → Servo → Clock → ℤ × Servo × Clock
sample freq reads raw delay rx_cnt s c =
    let d = if is_neg delay then pos 0 else delay in
    let (s', c') = sample_state s.state freq reads raw delay d rx_cnt s c in
    (wrap 64 (raw -ℤ d), s', c')
