-- ===== src/PtpCore/Port/Guards.antt =====
-- What stays true of the slave while messages come in and time passes.
use flint_rtos.Base.{
  true-false, and-left, either, ℕ, ◌≤◌, ◌<◌, ◌≡◌, refl, arith, true, false, not, sym, ◌∙◌, bit_and,
  ◌||◌, ◌&&◌, inl, inr, Bool-cases, ◌==◌, ltb,
}
use flint_rtos.Int.{ℤ, is_neg, pos_part, quot, ◌+ℤ◌, ◌-ℤ◌, wrap}
use flint_rtos.PtpClock.{Clock}
use flint_rtos.PtpServo.{unlocked, sample, abs64}
use flint_rtos.PtpServo.Bounded.{IsBounded, sample-IsBounded}
use flint_rtos.PtpDataset.{dataset_cmp}
use flint_rtos.PtpDelay.{Delay, delay_add}
use flint_rtos.PtpMsg.{from}
use flint_rtos.PtpCore.{
  Core, rd16, rd_ts_ns, rd_corr_ns, announce_len_min, announced, same_bytes, reset_measurements,
  handle_announce, note_announce,
}
use flint_rtos.PtpCore.Measure.{
  Around, report, sync_complete, handle_sync, handle_follow_up, handle_delay_resp, sync_len,
  delay_resp_len, delay_max_ns,
}

-- Without a master, no measurement is under way.
pub record IsIdle (g : Core) : Type 0 where
  pub waiting : g.sync_waiting_fup ≡ false
  pub leg : g.ms_valid ≡ false
  pub due : g.dreq_due ≡ false
  pub outstanding : g.dreq_outstanding ≡ false
  pub samples : g.delay.n ≡ 0
  pub state : g.servo.state ≡ unlocked

-- The delay filter stays within its window, the leg from the master belongs to the present epoch of the
-- clock, and the servo and the correction of the clock are within their bounds.
pub record IsValid (g : Core) (c : Clock) : Type 0 where
  pub few : g.delay.n ≤ 8
  pub slot : g.delay.idx < 8
  pub idle : g.have_master ≡ false → IsIdle g
  pub leg : g.ms_valid ≡ true → g.ms_epoch ≡ c.epoch
  pub bounded : IsBounded g.servo c

abbrev Valid : Core × Clock → Type 0
Valid r = IsValid r.0 r.1

sync_complete-IsValid :
    (env : Around) (t1 corr : ℤ) (g : Core) (c : Clock)
    → g.have_master ≡ true
    → IsValid g c
    → Valid (sync_complete env t1 corr g c)
unfolding sync_complete report
sync_complete-IsValid env t1 corr g c master v =
    let raw = wrap 64 (g.t2_ns -ℤ wrap 64 (t1 +ℤ corr)) in
    let out = sample env.freq env.reads raw g.delay.ns g.t2_cnt g.servo c in
    let steered = sample-IsBounded env.freq env.reads raw g.delay.ns g.t2_cnt g.servo c v.bounded in
    elim (Bool-cases (g.t2_epoch == c.epoch)) [
      | inl e ↦ elim (Bool-cases (out.2.epoch == g.t2_epoch)) [
        | inl same ↦ rw e (
            rw same (record {
              few = v.few;
              slot = v.slot;
              idle = λ no. absurd (true-false (sym master ∙ no));
              leg = λ _. ground (arith, same);
              bounded = steered;
            }))
        | inr other ↦ rw e (
            rw other (record {
              few = v.few;
              slot = v.slot;
              idle = λ no. absurd (true-false (sym master ∙ no));
              leg = λ valid. absurd (true-false (sym valid));
              bounded = steered;
            }))
      ]
      | inr e ↦ rw e v
    ]

-- A record whose filter, leg and servo are those of a valid one, while there is a master.
pub with_master :
    (g g' : Core) (c : Clock)
    → g.have_master ≡ true
    → IsValid g c
    → g'.have_master ≡ g.have_master
    → g'.delay ≡ g.delay
    → g'.ms_valid ≡ g.ms_valid
    → g'.ms_epoch ≡ g.ms_epoch
    → g'.servo ≡ g.servo
    → IsValid g' c
with_master g g' c master v have delay valid epoch servo = record {
  few = rw delay v.few;
  slot = rw delay v.slot;
  idle = λ no. absurd (true-false (sym master ∙ sym have ∙ no));
  leg = λ e. epoch ∙ v.leg (sym valid ∙ e);
  bounded = rw servo v.bounded;
}

pub handle_sync-IsValid :
    (env : Around) (b : ℕ → ℕ) (len rx_cnt : ℕ) (g : Core) (c : Clock)
    → g.have_master ≡ true
    → IsValid g c
    → Valid (handle_sync env b len rx_cnt g c)
unfolding handle_sync
handle_sync-IsValid env b len rx_cnt g c master v = elim (Bool-cases (ltb len sync_len)) [
  | inl e ↦ rw e v
  | inr e ↦ elim (Bool-cases (bit_and (b 6) 2 == 0)) [
    | inl one ↦ rw e (
        rw one (
          sync_complete-IsValid env _ _ _ c master
            (with_master g _ c master v refl refl refl refl refl)))
    | inr two ↦ rw e (rw two (with_master g _ c master v refl refl refl refl refl))
  ]
]

pub handle_follow_up-IsValid :
    (env : Around) (b : ℕ → ℕ) (len : ℕ) (g : Core) (c : Clock)
    → g.have_master ≡ true
    → IsValid g c
    → Valid (handle_follow_up env b len g c)
unfolding handle_follow_up
handle_follow_up-IsValid env b len g c master v =
    elim (Bool-cases
      (ltb len sync_len || not g.sync_waiting_fup || not (rd16 (from 30 b) == g.sync_seq))) [
        | inl e ↦ rw e v
        | inr e ↦ rw e (
            sync_complete-IsValid env _ _ _ c master
              (with_master g _ c master v refl refl refl refl refl))
      ]

delay_add-Window :
    (s : ℕ → ℤ) (sample : ℤ) (d : Delay)
    → d.n ≤ 8
    → ((delay_add s sample d).n ≤ 8) × ((delay_add s sample d).idx < 8)
unfolding delay_add
delay_add-Window s sample d small = ground arith

pub handle_delay_resp-IsValid :
    (env : Around) (b : ℕ → ℕ) (len : ℕ) (g : Core) (c : Clock)
    → g.have_master ≡ true
    → IsValid g c
    → IsValid (handle_delay_resp env b len g c) c
unfolding handle_delay_resp
handle_delay_resp-IsValid env b len g c master v =
    let t4 = wrap 64 (rd_ts_ns (from 34 b) -ℤ rd_corr_ns b) in
    let half = quot (wrap 64 (g.ms_leg +ℤ wrap 64 (t4 -ℤ g.t3_ns))) 2 in
    let answered =
      with_master g (record g { dreq_outstanding = false }) c master v refl refl refl refl refl in
    let (few, slot) = delay_add-Window env.samples half g.delay v.few in
    either (λ h. IsValid h c) (ltb len delay_resp_len || not g.dreq_outstanding) (λ _. v)
      (λ _.
        either (λ h. IsValid h c)
          (not (rd16 (from 30 b) == g.dreq_seq) || not (same_bytes (from 44 b) g.self_id 10))
          (λ _. v)
          (λ _.
            either (λ h. IsValid h c)
              (not (g.t3_epoch == c.epoch) || not g.ms_valid || not (g.ms_epoch == g.t3_epoch))
              (λ _. answered)
              (λ _.
                either (λ h. IsValid h c) (ltb delay_max_ns (pos_part (abs64 half))) (λ _. answered)
                  (λ _. record {
                    few = few;
                    slot = slot;
                    idle = λ no. absurd (true-false (sym master ∙ no));
                    leg = v.leg;
                    bounded = v.bounded;
                  }))))

pub reset-IsValid : (g : Core) (c : Clock) → IsBounded g.servo c → IsValid (reset_measurements g) c
unfolding reset_measurements
reset-IsValid g c bounded = record {
  few = omega arith;
  slot = omega arith;
  idle = λ no. record {
    waiting = refl;
    leg = refl;
    due = refl;
    outstanding = refl;
    samples = refl;
    state = refl;
  };
  leg = λ e. absurd (true-false (sym e));
  bounded = record {
    drift = (omega arith, omega arith);
    frequency = bounded.frequency;
    few = omega arith;
  };
}

note_announce-IsValid :
    (b : ℕ → ℕ) (g : Core) (c : Clock)
    → g.have_master ≡ true
    → IsValid g c
    → IsValid (note_announce b g) c
unfolding note_announce
note_announce-IsValid b g c master v = with_master g _ c master v refl refl refl refl refl

pub handle_announce-IsValid :
    (b : ℕ → ℕ) (len : ℕ) (g : Core) (c : Clock) → IsValid g c → IsValid (handle_announce b len g) c
unfolding handle_announce note_announce reset_measurements
handle_announce-IsValid b len g c v =
    let known = g.have_master && same_bytes (announced b).port_id g.master.port_id 10 in
    let chosen = record g { master = announced b; have_master = true } in
    let fresh = reset-IsValid chosen c v.bounded in
    either (λ h. IsValid h c) (ltb len announce_len_min) (λ _. v)
      (λ _.
        either (λ h. IsValid h c) known
          (λ e.
            with_master g (note_announce b (record g { master = announced b })) c (and-left _ _ e) v
              refl refl refl refl refl)
          (λ _.
            either (λ h. IsValid h c)
              (not g.have_master || is_neg (dataset_cmp (announced b) g.master))
              (λ _. note_announce-IsValid b (reset_measurements chosen) c refl fresh) (λ _. v)))
