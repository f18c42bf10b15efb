-- ===== src/PtpCore/Port/Kept.antt =====
-- A message and a poll keep the slave valid.
use flint_rtos.Base.{
  List, [], ◌∷◌, true-false, and-left, either, ℕ, ◌+◌, ◌≡◌, refl, arith, true, false, not, sym, ◌∙◌,
  ◌&&◌, Option, none, some, inl, inr, Bool-cases, ltb, leb, ◌-◌, ◌%◌, ◌^◌,
}
use flint_rtos.PtpClock.{Clock, clock_now}
use flint_rtos.PtpClock.Anchor.{InPpb}
use flint_rtos.PtpMsg.{pack_delay_req, delay_req_length}
use flint_rtos.PtpTime.{internal_to_ts}
use flint_rtos.PtpCore.{Core, is_unlocked, reset_measurements, from_master}
use flint_rtos.PtpCore.Measure.{Around, send_delay_req, note_sent, transmit, ptp_event_port}
use flint_rtos.PtpCore.Port.{init, rx, poll}
use flint_rtos.PtpCore.Port.Cases.{rx_cases}
use flint_rtos.PtpCore.Port.Guards.{
  IsIdle, IsValid, with_master, handle_sync-IsValid, handle_follow_up-IsValid,
  handle_delay_resp-IsValid, reset-IsValid, handle_announce-IsValid,
}

rx-IsValid :
    (env : Around) (buf : ℕ → ℕ) (len port rx_cnt : ℕ) (g : Core) (c : Clock)
    → IsValid g c
    → IsValid (rx env buf len port rx_cnt g c).0 (rx env buf len port rx_cnt g c).1
unfolding from_master
rx-IsValid env buf len port rx_cnt g c v =
    rx_cases (λ r. IsValid r.0 r.1) env buf len port rx_cnt g c v
      (λ e. handle_sync-IsValid env buf len rx_cnt g c (and-left _ _ e) v)
      (handle_announce-IsValid buf len g c v)
      (λ e. handle_follow_up-IsValid env buf len g c (and-left _ _ e) v)
      (λ e. handle_delay_resp-IsValid env buf len g c (and-left _ _ e) v)

note_sent-IsValid :
    (freq : ℕ) (sent : Option ℕ) (g : Core) (c : Clock)
    → g.have_master ≡ true
    → IsValid g c
    → IsValid (note_sent freq sent g c) c
unfolding note_sent
note_sent-IsValid freq none g c master v = v
note_sent-IsValid freq (some tx_cnt) g c master v =
    with_master g _ c master v refl refl refl refl refl

-- The fields that tell whether a measurement is under way.
IsIdle-same :
    (g g' : Core)
    → IsIdle g
    → g'.sync_waiting_fup ≡ g.sync_waiting_fup
    → g'.ms_valid ≡ g.ms_valid
    → g'.dreq_due ≡ g.dreq_due
    → g'.dreq_outstanding ≡ g.dreq_outstanding
    → g'.delay ≡ g.delay
    → g'.servo ≡ g.servo
    → IsIdle g'
IsIdle-same g g' i waiting leg due outstanding delay servo = record {
  waiting = waiting ∙ i.waiting;
  leg = leg ∙ i.leg;
  due = due ∙ i.due;
  outstanding = outstanding ∙ i.outstanding;
  samples = rw delay i.samples;
  state = rw servo i.state;
}

due-master : (g : Core) (c : Clock) → IsValid g c → g.dreq_due ≡ true → g.have_master ≡ true
due-master g c v due = elim (Bool-cases g.have_master) [
  | inl e ↦ e
  | inr e ↦ absurd (true-false (sym due ∙ (v.idle e).due))
]

send_delay_req-IsValid :
    (env : Around) (g : Core) (c : Clock)
    → g.have_master ≡ true
    → IsValid g c
    → IsValid (send_delay_req env g c) c
unfolding send_delay_req
send_delay_req-IsValid env g c master v =
    let origin = internal_to_ts (clock_now env.freq (env.reads 0) c) in
    let g1 = record g { dreq_seq = (g.dreq_seq + 1) % 2 ^ 16 } in
    let buf = (pack_delay_req env.bytes g.self g1.dreq_seq origin).1 in
    let sent = transmit env.tx ptp_event_port buf delay_req_length in
    let begun = with_master g g1 c master v refl refl refl refl refl in
    let w = note_sent-IsValid env.freq sent g1 c master begun in
    record {
      few = w.few;
      slot = w.slot;
      idle = λ no.
          IsIdle-same (note_sent env.freq sent g1 c) _ (w.idle no) refl refl refl refl refl refl;
      leg = w.leg;
      bounded = w.bounded;
    }

poll-IsValid :
    (env : Around) (now_ms : ℕ) (g : Core) (c : Clock)
    → IsValid g c
    → IsValid (poll env now_ms g c) c
unfolding poll
poll-IsValid env now_ms g c v =
    let g1 = record g { now_ms = now_ms } in
    either (λ h. IsValid h c)
      (g.have_master && ltb g.announce_timeout_ms ((now_ms + 2 ^ 32 - g.last_announce_ms) % 2 ^ 32))
      (λ _. reset-IsValid (record g1 { have_master = false }) c v.bounded)
      (λ _.
        either (λ h. IsValid h c)
          (g.dreq_due
            && not (is_unlocked g.servo.state)
            && leb 900 ((now_ms + 2 ^ 32 - g.last_dreq_ms) % 2 ^ 32))
          (λ e.
            let due =
              and-left g.dreq_due _
                (and-left (g.dreq_due && not (is_unlocked g.servo.state)) _ e) in
            let master = due-master g c v due in
            send_delay_req-IsValid env (record g1 { dreq_due = false }) c master
              (with_master g (record g1 { dreq_due = false }) c master v refl refl refl refl refl))
          (λ _. record {
            few = v.few;
            slot = v.slot;
            idle = λ no. IsIdle-same g g1 (v.idle no) refl refl refl refl refl refl;
            leg = v.leg;
            bounded = v.bounded;
          }))

init-IsValid : (mac : ℕ → ℕ) (domain : ℕ) (c : Clock) → InPpb c.ppb → IsValid (init mac domain) c
unfolding init reset_measurements
init-IsValid mac domain c near = record {
  few = omega arith;
  slot = omega arith;
  idle = λ _. record {
    waiting = refl;
    leg = refl;
    due = refl;
    outstanding = refl;
    samples = refl;
    state = refl;
  };
  leg = λ e. absurd (true-false (sym e));
  bounded = record { drift = (omega arith, omega arith); frequency = near; few = omega arith };
}

-- A message that comes in, or a poll.
pub data Event : Type 0 where
  message : Around → (ℕ → ℕ) → ℕ → ℕ → ℕ → Event
  tick : Around → ℕ → Event

-- The calls of the port one after the other.
unfoldable pub run : List Event → Core → Clock → Core × Clock
run [] g c = (g, c)
run (message env buf len port rx_cnt ∷ later) g c =
    let (g', c') = rx env buf len port rx_cnt g c in run later g' c'
run (tick env now_ms ∷ later) g c = run later (poll env now_ms g c) c

run-IsValid :
    (events : List Event) (g : Core) (c : Clock)
    → IsValid g c
    → IsValid (run events g c).0 (run events g c).1
unfolding run
run-IsValid [] g c v = v
run-IsValid (message env buf len port rx_cnt ∷ later) g c v =
    let r = rx env buf len port rx_cnt g c in
    run-IsValid later r.0 r.1 (rx-IsValid env buf len port rx_cnt g c v)
run-IsValid (tick env now_ms ∷ later) g c v =
    run-IsValid later (poll env now_ms g c) c (poll-IsValid env now_ms g c v)

-- From ptp_core_init, with a clock whose correction is within 500 ppm, whatever messages come in and
-- whenever the slave is polled: the delay filter stays within its window; without a master nothing is
-- measured or due and the servo is unlocked; a leg that may be used for the delay belongs to the present
-- epoch of the clock; and the servo and the correction of the clock stay within their bounds.
pub run-init-IsValid :
    (mac : ℕ → ℕ) (domain : ℕ) (events : List Event) (c : Clock)
    → InPpb c.ppb
    → IsValid (run events (init mac domain) c).0 (run events (init mac domain) c).1
run-init-IsValid mac domain events c near =
    run-IsValid events (init mac domain) c (init-IsValid mac domain c near)
