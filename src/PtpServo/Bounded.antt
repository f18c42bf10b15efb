-- ===== src/PtpServo/Bounded.antt =====
-- What every sample keeps.
use flint_rtos.Base.{
  ℕ, subst, sym, ◌+◌, ◌/◌, ◌%◌, ◌^◌, ◌<◌, ◌≡◌, refl, arith, Bool, true, false, leb, ltb,
  if◌then◌else◌, inl, inr, Bool-cases,
}
use flint_rtos.Int.{ℤ, pos, pos_part, ◌-ℤ◌, is_neg, wrap}
use flint_rtos.PtpTime.{ns_per_s}
use flint_rtos.PtpClock.{Clock, rebase, step, adjfreq}
use flint_rtos.PtpClock.Anchor.{InPpb, clamp_ppb-InPpb}
use flint_rtos.PtpServo.{
  ServoState, unlocked, stepped, locked, Servo, step_ns, abs64, span_ns, do_step, sample_stepped,
  outlier, control, sample_locked, sample_state, sample,
}

-- The drift and the frequency are within the limit, and fewer samples in a row were out of bounds than
-- unlock the servo.
pub record IsBounded (s : Servo) (c : Clock) : Type 0 where
  pub drift : InPpb s.drift_ppb
  pub frequency : InPpb c.ppb
  pub few : s.outliers < 3

Both : Servo × Clock → Type 0
Both r = IsBounded r.0 r.1

pair-Both : (s : Servo) (c : Clock) → InPpb s.drift_ppb → InPpb c.ppb → s.outliers < 3 → Both (s, c)
unfolding Both
pair-Both s c d f few = record { drift = d; frequency = f; few = few }

either-Both : (b : Bool) (x y : Servo × Clock) → Both x → Both y → Both (if b then x else y)
either-Both true x y hx hy = hx
either-Both false x y hx hy = hy

module _ (freq : ℕ) (reads : ℕ → ℕ) (raw delay d : ℤ) (rx_cnt : ℕ) where
  stepped-Both :
      (s : Servo) (c : Clock)
      → IsBounded s c
      → Both (sample_stepped freq reads raw delay d rx_cnt s c)
  unfolding sample_stepped do_step step rebase adjfreq
  stepped-Both s c b =
      elim (Bool-cases (ltb (pos_part (span_ns freq s.ref_cnt rx_cnt)) (ns_per_s / 8))) [
        | inl e ↦ simp e (pair-Both s c b.drift b.frequency b.few)
        | inr e ↦ elim (Bool-cases (is_neg delay)) [
          | inl none_yet ↦
              simp (e, none_yet) (pair-Both _ _ (clamp_ppb-InPpb _) (clamp_ppb-InPpb _) b.few)
          | inr measured ↦
              simp (e, measured) (pair-Both _ _ (clamp_ppb-InPpb _) (clamp_ppb-InPpb _) b.few)
        ]
      ]

  outlier-Both :
      (now : ℕ) (s : Servo) (c : Clock) → IsBounded s c → Both (outlier freq now raw d rx_cnt s c)
  unfolding outlier do_step step rebase
  outlier-Both now s c b = elim (Bool-cases (leb 3 ((s.outliers + 1) % 2 ^ 32))) [
    | inl e ↦ rw e (pair-Both _ _ b.drift b.frequency (omega arith))
    | inr e ↦ rw e (pair-Both _ _ b.drift b.frequency (ground arith))
  ]

  control-Both :
      (now : ℕ) (offset : ℤ) (s : Servo) (c : Clock) → Both (control freq now offset rx_cnt s c)
  unfolding control adjfreq rebase
  control-Both now offset s c = pair-Both _ _ (clamp_ppb-InPpb _) (clamp_ppb-InPpb _) (omega arith)

  state-Both :
      (st : ServoState) (s : Servo) (c : Clock)
      → IsBounded s c
      → Both (sample_state st freq reads raw delay d rx_cnt s c)
  unfolding sample_state do_step step rebase sample_locked
  state-Both unlocked s c b = (pair-Both _ _ b.drift b.frequency b.few)
  state-Both stepped s c b = stepped-Both s c b
  state-Both locked s c b =
      (either-Both (ltb step_ns (pos_part (abs64 (wrap 64 (raw -ℤ d)))))
        (outlier freq (reads 0) raw d rx_cnt s c)
        (control freq (reads 0) (wrap 64 (raw -ℤ d)) rx_cnt s c) (outlier-Both (reads 0) s c b)
        (control-Both (reads 0) (wrap 64 (raw -ℤ d)) s c))

-- A sample keeps the estimate of the drift and the frequency of the clock within 500 ppm, and the number of
-- outliers in a row below three.
pub sample-IsBounded :
    (freq : ℕ) (reads : ℕ → ℕ) (raw delay : ℤ) (rx_cnt : ℕ) (s : Servo) (c : Clock)
    → IsBounded s c
    → IsBounded
        (sample freq reads raw delay rx_cnt s c).1
        (sample freq reads raw delay rx_cnt s c).2
unfolding sample Both
sample-IsBounded freq reads raw delay rx_cnt s c b =
    state-Both freq reads raw delay (if is_neg delay then pos 0 else delay) rx_cnt s.state s c b

-- Locked, and with a step epoch of `n`.
Steady : ℕ → Servo × Clock → Type 0
Steady n r = (r.0.state ≡ locked) × (r.1.epoch ≡ n)

pair-Steady : (n : ℕ) (s : Servo) (c : Clock) → s.state ≡ locked → c.epoch ≡ n → Steady n (s, c)
unfolding Steady
pair-Steady n s c on same = (on, same)

either-Steady :
    (b : Bool) (n : ℕ) (x y : Servo × Clock)
    → Steady n x
    → Steady n y
    → Steady n (if b then x else y)
either-Steady true n x y hx hy = hx
either-Steady false n x y hx hy = hy

locked-Steady :
    (freq : ℕ) (reads : ℕ → ℕ) (raw delay d : ℤ) (rx_cnt : ℕ) (s : Servo) (c : Clock)
    → s.state ≡ locked
    → s.outliers < 2
    → Steady c.epoch (sample_state locked freq reads raw delay d rx_cnt s c)
unfolding sample_state sample_locked outlier control adjfreq rebase
locked-Steady freq reads raw delay d rx_cnt s c on few =
    let early : leb 3 ((s.outliers + 1) % 2 ^ 32) ≡ false = ground arith in
    (either-Steady (ltb step_ns (pos_part (abs64 (wrap 64 (raw -ℤ d))))) c.epoch
      (outlier freq (reads 0) raw d rx_cnt s c)
      (control freq (reads 0) (wrap 64 (raw -ℤ d)) rx_cnt s c)
      (simp early (pair-Steady c.epoch _ _ on refl)) (pair-Steady c.epoch _ _ on refl))

-- With fewer than two outliers before it, a sample leaves a locked servo locked and does not step the clock.
pub sample_steady :
    (freq : ℕ) (reads : ℕ → ℕ) (raw delay : ℤ) (rx_cnt : ℕ) (s : Servo) (c : Clock)
    → s.state ≡ locked
    → s.outliers < 2
    → ((sample freq reads raw delay rx_cnt s c).1.state ≡ locked)
      × ((sample freq reads raw delay rx_cnt s c).2.epoch ≡ c.epoch)
unfolding sample Steady
sample_steady freq reads raw delay rx_cnt s c on few =
    let d : ℤ = if is_neg delay then pos 0 else delay in
    subst (λ st. Steady c.epoch (sample_state st freq reads raw delay d rx_cnt s c)) (sym on)
      (locked-Steady freq reads raw delay d rx_cnt s c on few)
