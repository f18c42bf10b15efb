-- ===== src/PtpCore/Measure.antt =====
-- port/ptp/ptp_core.c: the Sync, Follow_Up, Delay_Req and Delay_Resp messages. What the log prints is
-- left out.
use flint_rtos.Base.{
  ℕ, ◌+◌, ◌%◌, ◌^◌, bit_and, true, false, not, ◌==◌, ◌||◌, leb, ltb, if◌then◌else◌, Option, none,
  some,
}
use flint_rtos.Int.{ℤ, pos_part, ◌+ℤ◌, ◌-ℤ◌, quot, wrap}
use flint_rtos.PtpTime.{internal_to_ts}
use flint_rtos.PtpMsg.{from, delay_req_length, pack_delay_req}
use flint_rtos.PtpClock.{Clock, from_cnt, clock_now}
use flint_rtos.PtpServo.{abs64, sample}
use flint_rtos.PtpDelay.{delay_add}
use flint_rtos.PtpStats
use flint_rtos.PtpStats.{stats_window, count_offset}
use flint_rtos.PtpCore.{Core, rd16, rd_ts_ns, rd_corr_ns, same_bytes, is_locked}

abbrev pub delay_max_ns : ℕ
delay_max_ns = 10000000

abbrev pub delay_resp_len : ℕ
delay_resp_len = 54

abbrev pub sync_len : ℕ
sync_len = 44

abbrev pub ptp_event_port : ℕ
ptp_event_port = 319

-- What is around a call: the frequency of the counter, what the call reads from it the i-th time, the
-- transmit hook, unless it is NULL, and what the call's local arrays hold at first. The hook answers
-- with the counter at the transmission, on success.
pub record Around : Type 0 where
  pub freq : ℕ
  pub reads : ℕ → ℕ
  pub tx : Option (ℕ → (ℕ → ℕ) → ℕ → Option ℕ)
  pub bytes : ℕ → ℕ
  pub samples : ℕ → ℤ

-- The statistics after `report`.
unfoldable pub report : ℤ → Core → Core
report offset g =
    let counted = if is_locked g.servo.state then count_offset offset g.stats else g.stats in
    record g { stats = if leb stats_window counted.n then PtpStats.empty else counted }

unfoldable pub sync_complete : Around → ℤ → ℤ → Core → Clock → Core × Clock
sync_complete env t1_ns corr_ns g c =
    let raw = wrap 64 (g.t2_ns -ℤ wrap 64 (t1_ns +ℤ corr_ns)) in
    let (offset, servo', c') = sample env.freq env.reads raw g.delay.ns g.t2_cnt g.servo c in
    let g1 = record g { n_sync = (g.n_sync + 1) % 2 ^ 32; servo = servo'; last_offset = offset } in
    let g2 =
      if c'.epoch == g.t2_epoch
      then record g1 { ms_leg = raw; ms_epoch = g.t2_epoch; ms_valid = true }
      else record g1 { ms_valid = false } in
    if not (g.t2_epoch == c.epoch)
    then (g, c)
    else (record (report offset g2) { dreq_due = true }, c')

unfoldable pub handle_sync : Around → (ℕ → ℕ) → ℕ → ℕ → Core → Clock → Core × Clock
handle_sync env b len rx_cnt g c =
    let g1 = record g {
      sync_seq = rd16 (from 30 b);
      t2_cnt = rx_cnt;
      t2_ns = from_cnt env.freq rx_cnt c;
      t2_epoch = c.epoch;
      sync_corr = rd_corr_ns b;
    } in
    if ltb len sync_len
    then (g, c)
    else if not (bit_and (b 6) 2 == 0)
    then (record g1 { sync_waiting_fup = true }, c)
    else sync_complete env (rd_ts_ns (from 34 b)) g1.sync_corr
        (record g1 { sync_waiting_fup = false }) c

unfoldable pub handle_follow_up : Around → (ℕ → ℕ) → ℕ → Core → Clock → Core × Clock
handle_follow_up env b len g c =
    if ltb len sync_len || not g.sync_waiting_fup || not (rd16 (from 30 b) == g.sync_seq)
    then (g, c)
    else sync_complete env (rd_ts_ns (from 34 b)) (wrap 64 (g.sync_corr +ℤ rd_corr_ns b))
        (record g { sync_waiting_fup = false }) c

unfoldable pub handle_delay_resp : Around → (ℕ → ℕ) → ℕ → Core → Clock → Core
handle_delay_resp env b len g c =
    let t4 = wrap 64 (rd_ts_ns (from 34 b) -ℤ rd_corr_ns b) in
    let sm = wrap 64 (t4 -ℤ g.t3_ns) in
    let half = quot (wrap 64 (g.ms_leg +ℤ sm)) 2 in
    let g1 = record g { dreq_outstanding = false } in
    if ltb len delay_resp_len || not g.dreq_outstanding
    then g
    else if not (rd16 (from 30 b) == g.dreq_seq) || not (same_bytes (from 44 b) g.self_id 10)
    then g
    else if not (g.t3_epoch == c.epoch) || not g.ms_valid || not (g.ms_epoch == g.t3_epoch)
    then g1
    else if ltb delay_max_ns (pos_part (abs64 half))
    then g1
    else record g1 { delay = delay_add env.samples half g.delay }

-- The answer of the hook, which is not called if it is NULL.
unfoldable pub transmit : Option (ℕ → (ℕ → ℕ) → ℕ → Option ℕ) → ℕ → (ℕ → ℕ) → ℕ → Option ℕ
transmit none port buf len = none
transmit (some tx) port buf len = tx port buf len

-- The body of the `if` of `send_delay_req`.
unfoldable pub note_sent : ℕ → Option ℕ → Core → Clock → Core
note_sent freq none g c = g
note_sent freq (some tx_cnt) g c = record g {
  t3_ns = from_cnt freq tx_cnt c;
  t3_epoch = c.epoch;
  dreq_outstanding = true;
}

unfoldable pub send_delay_req : Around → Core → Clock → Core
send_delay_req env g c =
    let origin = internal_to_ts (clock_now env.freq (env.reads 0) c) in
    let g1 = record g { dreq_seq = (g.dreq_seq + 1) % 2 ^ 16 } in
    let buf = (pack_delay_req env.bytes g.self g1.dreq_seq origin).1 in
    let sent = transmit env.tx ptp_event_port buf delay_req_length in
    record (note_sent env.freq sent g1 c) { last_dreq_ms = g.now_ms }
