-- ===== src/PtpCore/Port/Rate.antt =====
-- How often the slave sends a Delay_Req, whatever messages come in between.
use flint_rtos.Base.{
  either, and-right, ℕ, ◌+◌, ◌-◌, ◌%◌, ◌^◌, ◌<◌, ◌≡◌, ◌≢◌, refl, ◌∙◌, arith, true, false, not, ◌&&◌,
  ◌||◌, ◌==◌, ltb, leb, bit_and, List, [], ◌∷◌,
}
use flint_rtos.Int.{ℤ, pos_part, ◌+ℤ◌, ◌-ℤ◌, quot, wrap, is_neg}
use flint_rtos.PtpMsg.{from}
use flint_rtos.PtpClock.{Clock}
use flint_rtos.PtpServo.{sample, abs64}
use flint_rtos.PtpDataset.{dataset_cmp}
use flint_rtos.PtpCore.{
  Core, rd16, rd_ts_ns, rd_corr_ns, announce_len_min, announced, same_bytes, is_unlocked,
  reset_measurements, note_announce, handle_announce,
}
use flint_rtos.PtpCore.Measure.{
  Around, sync_len, delay_resp_len, delay_max_ns, report, sync_complete, handle_sync,
  handle_follow_up, handle_delay_resp, send_delay_req,
}
use flint_rtos.PtpCore.Port.{rx, poll}
use flint_rtos.PtpCore.Port.Cases.{rx_cases}

-- A call of `ptp_core_rx` and what is around it.
pub record Arrival : Type 0 where
  pub env : Around
  pub buf : ℕ → ℕ
  pub len : ℕ
  pub port : ℕ
  pub rx_cnt : ℕ

-- The messages in the order of their arrival.
unfoldable pub receive_all : List Arrival → Core → Clock → Core × Clock
receive_all [] g c = (g, c)
receive_all (a ∷ rest) g c =
    let (g', c') = rx a.env a.buf a.len a.port a.rx_cnt g c in receive_all rest g' c'

-- The number and the time of the last request are the same.
record SameRequest (g : Core) (h : Core) : Type 0 where
  number : h.dreq_seq ≡ g.dreq_seq
  time : h.last_dreq_ms ≡ g.last_dreq_ms

sync_complete-SameRequest :
    (env : Around) (t1 corr : ℤ) (g0 g : Core) (c : Clock)
    → SameRequest g0 g
    → SameRequest g0 (sync_complete env t1 corr g c).0
unfolding sync_complete report
sync_complete-SameRequest env t1 corr g0 g c same =
    let raw = wrap 64 (g.t2_ns -ℤ wrap 64 (t1 +ℤ corr)) in
    let out = sample env.freq env.reads raw g.delay.ns g.t2_cnt g.servo c in
    either (λ (r : Core × Clock). SameRequest g0 r.0) (not (g.t2_epoch == c.epoch)) (λ _. same)
      (λ _.
        either (λ (h : Core). SameRequest g0 (record (report out.0 h) { dreq_due = true }))
          (out.2.epoch == g.t2_epoch) (λ _. record { number = same.number; time = same.time })
          (λ _. record { number = same.number; time = same.time }))

handle_sync-SameRequest :
    (env : Around) (b : ℕ → ℕ) (len rx_cnt : ℕ) (g : Core) (c : Clock)
    → SameRequest g (handle_sync env b len rx_cnt g c).0
unfolding handle_sync
handle_sync-SameRequest env b len rx_cnt g c =
    let same : SameRequest g g = record { number = refl; time = refl } in
    either (λ (r : Core × Clock). SameRequest g r.0) (ltb len sync_len) (λ _. same)
      (λ _.
        either (λ (r : Core × Clock). SameRequest g r.0) (not (bit_and (b 6) 2 == 0))
          (λ _. record { number = refl; time = refl })
          (λ _. sync_complete-SameRequest env _ _ g _ c (record { number = refl; time = refl })))

handle_follow_up-SameRequest :
    (env : Around) (b : ℕ → ℕ) (len : ℕ) (g : Core) (c : Clock)
    → SameRequest g (handle_follow_up env b len g c).0
unfolding handle_follow_up
handle_follow_up-SameRequest env b len g c =
    either (λ (r : Core × Clock). SameRequest g r.0)
      (ltb len sync_len || not g.sync_waiting_fup || not (rd16 (from 30 b) == g.sync_seq))
      (λ _. record { number = refl; time = refl })
      (λ _. sync_complete-SameRequest env _ _ g _ c (record { number = refl; time = refl }))

handle_delay_resp-SameRequest :
    (env : Around) (b : ℕ → ℕ) (len : ℕ) (g : Core) (c : Clock)
    → SameRequest g (handle_delay_resp env b len g c)
unfolding handle_delay_resp
handle_delay_resp-SameRequest env b len g c =
    let t4 = wrap 64 (rd_ts_ns (from 34 b) -ℤ rd_corr_ns b) in
    let half = quot (wrap 64 (g.ms_leg +ℤ wrap 64 (t4 -ℤ g.t3_ns))) 2 in
    let same : SameRequest g g = record { number = refl; time = refl } in
    let closed : SameRequest g (record g { dreq_outstanding = false }) = record {
      number = refl;
      time = refl;
    } in
    either (SameRequest g) (ltb len delay_resp_len || not g.dreq_outstanding) (λ _. same)
      (λ _.
        either (SameRequest g)
          (not (rd16 (from 30 b) == g.dreq_seq) || not (same_bytes (from 44 b) g.self_id 10))
          (λ _. same)
          (λ _.
            either (SameRequest g)
              (not (g.t3_epoch == c.epoch) || not g.ms_valid || not (g.ms_epoch == g.t3_epoch))
              (λ _. closed)
              (λ _.
                either (SameRequest g) (ltb delay_max_ns (pos_part (abs64 half))) (λ _. closed)
                  (λ _. record { number = refl; time = refl }))))

handle_announce-SameRequest :
    (b : ℕ → ℕ) (len : ℕ) (g : Core) → SameRequest g (handle_announce b len g)
unfolding handle_announce note_announce reset_measurements
handle_announce-SameRequest b len g =
    let same : SameRequest g g = record { number = refl; time = refl } in
    either (SameRequest g) (ltb len announce_len_min) (λ _. same)
      (λ _.
        either (SameRequest g)
          (g.have_master && same_bytes (announced b).port_id g.master.port_id 10)
          (λ _. record { number = refl; time = refl })
          (λ _.
            either (SameRequest g)
              (not g.have_master || is_neg (dataset_cmp (announced b) g.master))
              (λ _. record { number = refl; time = refl }) (λ _. same)))

rx-SameRequest :
    (env : Around) (buf : ℕ → ℕ) (len port rx_cnt : ℕ) (g : Core) (c : Clock)
    → SameRequest g (rx env buf len port rx_cnt g c).0
rx-SameRequest env buf len port rx_cnt g c =
    rx_cases (λ (r : Core × Clock). SameRequest g r.0) env buf len port rx_cnt g c
      (record { number = refl; time = refl }) (λ _. handle_sync-SameRequest env buf len rx_cnt g c)
      (handle_announce-SameRequest buf len g) (λ _. handle_follow_up-SameRequest env buf len g c)
      (λ _. handle_delay_resp-SameRequest env buf len g c)

receive_all-SameRequest :
    (ms : List Arrival) (g : Core) (c : Clock) → SameRequest g (receive_all ms g c).0
unfolding receive_all
receive_all-SameRequest [] g c = record { number = refl; time = refl }
receive_all-SameRequest (a ∷ rest) g c =
    let r = rx a.env a.buf a.len a.port a.rx_cnt g c in
    let first = rx-SameRequest a.env a.buf a.len a.port a.rx_cnt g c in
    let later = receive_all-SameRequest rest r.0 r.1 in
    record { number = later.number ∙ first.number; time = later.time ∙ first.time }

-- A poll that sends a request notes the time of it.
poll-sent :
    (env : Around) (now_ms : ℕ) (g : Core) (c : Clock)
    → (poll env now_ms g c).dreq_seq ≢ g.dreq_seq
    → (poll env now_ms g c).last_dreq_ms ≡ now_ms
unfolding poll send_delay_req reset_measurements
poll-sent env now_ms g c =
    either (λ (h : Core). h.dreq_seq ≢ g.dreq_seq → h.last_dreq_ms ≡ now_ms)
      (g.have_master && ltb g.announce_timeout_ms ((now_ms + 2 ^ 32 - g.last_announce_ms) % 2 ^ 32))
      (λ _ other. absurd (other refl))
      (λ _.
        either (λ (h : Core). h.dreq_seq ≢ g.dreq_seq → h.last_dreq_ms ≡ now_ms)
          (g.dreq_due
            && not (is_unlocked g.servo.state)
            && leb 900 ((now_ms + 2 ^ 32 - g.last_dreq_ms) % 2 ^ 32))
          (λ _ _. refl) (λ _ other. absurd (other refl)))

poll-early :
    (env : Around) (now_ms : ℕ) (g : Core) (c : Clock)
    → (now_ms + 2 ^ 32 - g.last_dreq_ms) % 2 ^ 32 < 900
    → (poll env now_ms g c).dreq_seq ≡ g.dreq_seq
unfolding poll reset_measurements
poll-early env now_ms g c early =
    either (λ (h : Core). h.dreq_seq ≡ g.dreq_seq)
      (g.have_master && ltb g.announce_timeout_ms ((now_ms + 2 ^ 32 - g.last_announce_ms) % 2 ^ 32))
      (λ _. refl)
      (λ _.
        either (λ (h : Core). h.dreq_seq ≡ g.dreq_seq)
          (g.dreq_due
            && not (is_unlocked g.servo.state)
            && leb 900 ((now_ms + 2 ^ 32 - g.last_dreq_ms) % 2 ^ 32))
          (λ e.
            absurd (
              ground (arith, early, and-right (g.dreq_due && not (is_unlocked g.servo.state)) _ e)))
          (λ _. refl))

-- When a poll at `now` sends a request, that is, takes a new number for one, then after any messages a poll
-- less than 900 ms after `now`, on the 32-bit counter of milliseconds, sends none.
pub poll-rate :
    (env env' : Around) (now_ms later_ms : ℕ) (ms : List Arrival) (g : Core) (c : Clock)
    → (poll env now_ms g c).dreq_seq ≢ g.dreq_seq
    → (later_ms + 2 ^ 32 - now_ms) % 2 ^ 32 < 900
    → (poll env' later_ms
        (receive_all ms (poll env now_ms g c) c).0
        (receive_all ms (poll env now_ms g c) c).1).dreq_seq
      ≡ (poll env now_ms g c).dreq_seq
poll-rate env env' now_ms later_ms ms g c sent soon =
    let g1 = poll env now_ms g c in
    let r = receive_all ms g1 c in
    let same = receive_all-SameRequest ms g1 c in
    let at = same.time ∙ poll-sent env now_ms g c sent in
    poll-early env' later_ms r.0 r.1 (rw at soon) ∙ same.number
