-- ===== src/PtpCore.antt =====
-- port/ptp/ptp_core.c: the state of the slave, its master and its measurements.
pub mod Measure
pub mod Port
use flint_rtos.Base.{
  ℕ, ◌+◌, ◌*◌, ◌%◌, ◌^◌, bit_or, bit_and, Bool, true, false, not, ◌==◌, ◌&&◌, ◌||◌, ltb,
  if◌then◌else◌,
}
use flint_rtos.Bits.{◌<<<◌, ◌>>>◌}
use flint_rtos.Int.{
  ℤ, pos, negsuc, pos_part, neg_part, ◌+ℤ◌, ◌-ℤ◌, ◌*ℤ◌, quot, is_pos, is_neg, of_word, wrap, ltb_ℤ,
}
use flint_rtos.PtpTime.{ns_per_s}
use flint_rtos.PtpMsg.{MsgHeader, from, be_bytes}
use flint_rtos.PtpClock.{Clock, from_cnt}
use flint_rtos.PtpServo
use flint_rtos.PtpServo.{Servo, ServoState, unlocked, stepped, locked}
use flint_rtos.PtpDataset.{Dataset, cmp_bytes, dataset_cmp}
use flint_rtos.PtpDelay.{Delay}
use flint_rtos.PtpStats
use flint_rtos.PtpStats.{Stats}

abbrev pub announce_len_min : ℕ
announce_len_min = 64

abbrev pub flag1_utc_valid : ℕ
flag1_utc_valid = 4

abbrev pub flag1_ptp_timescale : ℕ
flag1_ptp_timescale = 8

-- The tests of the state of the servo.
abbrev pub is_unlocked : ServoState → Bool
is_unlocked unlocked = true
is_unlocked stepped = false
is_unlocked locked = false

abbrev pub is_locked : ServoState → Bool
is_locked unlocked = false
is_locked stepped = false
is_locked locked = true

-- The fields of the delay filter and of the statistics stand in records of their own.
pub record Core : Type 0 where
  pub self : MsgHeader
  pub self_id : ℕ → ℕ
  pub have_master : Bool
  pub master : Dataset
  pub last_announce_ms : ℕ
  pub announce_timeout_ms : ℕ
  pub utc_offset : ℤ
  pub flags1 : ℕ
  pub sync_waiting_fup : Bool
  pub sync_seq : ℕ
  pub t2_cnt : ℕ
  pub t2_ns : ℤ
  pub sync_corr : ℤ
  pub t2_epoch : ℕ
  pub ms_valid : Bool
  pub ms_leg : ℤ
  pub ms_epoch : ℕ
  pub dreq_due : Bool
  pub dreq_outstanding : Bool
  pub dreq_seq : ℕ
  pub t3_ns : ℤ
  pub t3_epoch : ℕ
  pub last_dreq_ms : ℕ
  pub now_ms : ℕ
  pub delay : Delay
  pub servo : Servo
  pub last_offset : ℤ
  pub n_sync : ℕ
  pub stats : Stats

unfoldable pub rd16 : (ℕ → ℕ) → ℕ
rd16 p = bit_or (p 0 <<< 8) (p 1) % 2 ^ 16

unfoldable pub rd32 : (ℕ → ℕ) → ℕ
rd32 p = bit_or (bit_or (bit_or (p 0 <<< 24 % 2 ^ 32) (p 1 <<< 16)) (p 2 <<< 8)) (p 3)

unfoldable pub rd_ts_ns : (ℕ → ℕ) → ℤ
rd_ts_ns p = wrap 64 (wrap 64 (of_word 64 (be_bytes 6 p) *ℤ ns_per_s) +ℤ pos (rd32 (from 6 p)))

unfoldable pub rd_corr_ns : (ℕ → ℕ) → ℤ
rd_corr_ns hdr = quot (of_word 64 (be_bytes 8 (from 8 hdr))) 65536

unfoldable pub reset_measurements : Core → Core
reset_measurements g = record g {
  sync_waiting_fup = false;
  ms_valid = false;
  dreq_due = false;
  dreq_outstanding = false;
  delay = record g.delay { n = 0; idx = 0; ns = negsuc 0 };
  stats = PtpStats.empty;
  servo = PtpServo.init;
}

unfoldable pub log_interval_ms : ℤ → ℕ
log_interval_ms log2s =
    let low = if ltb_ℤ log2s (negsuc 6) then negsuc 6 else log2s in
    let l = if ltb_ℤ (pos 6) low then pos 6 else low in
    if is_neg l then 1000 >>> neg_part l else 1000 <<< pos_part l % 2 ^ 32

-- The dataset that an Announce message carries.
unfoldable pub announced : (ℕ → ℕ) → Dataset
announced b = record {
  prio1 = b 47;
  clk_class = b 48;
  clk_accuracy = b 49;
  variance = rd16 (from 50 b);
  prio2 = b 52;
  gm_id = from 53 b;
  steps_removed = rd16 (from 61 b);
  port_id = from 20 b;
}

-- The end of `handle_announce`, for the master that it keeps.
unfoldable pub note_announce : (ℕ → ℕ) → Core → Core
note_announce b g = record g {
  last_announce_ms = g.now_ms;
  announce_timeout_ms = (3 * log_interval_ms (of_word 8 (b 33)) + 500) % 2 ^ 32;
  utc_offset = of_word 16 (rd16 (from 44 b));
  flags1 = b 7;
}

-- The test `cmp_bytes(a, b, n) == 0`.
abbrev pub same_bytes : (ℕ → ℕ) → (ℕ → ℕ) → ℕ → Bool
same_bytes a b n = not (is_pos (cmp_bytes a b n) || is_neg (cmp_bytes a b n))

unfoldable pub handle_announce : (ℕ → ℕ) → ℕ → Core → Core
handle_announce b len g =
    let ds = announced b in
    if ltb len announce_len_min
    then g
    else if g.have_master && same_bytes ds.port_id g.master.port_id 10
    then note_announce b (record g { master = ds })
    else if not g.have_master || is_neg (dataset_cmp ds g.master)
    then note_announce b (reset_measurements (record g { master = ds; have_master = true }))
    else g

unfoldable pub from_master : (ℕ → ℕ) → Core → Bool
from_master b g = g.have_master && same_bytes (from 20 b) g.master.port_id 10

-- `ptp_core_utc_now_ns`, where the counter reads `cnt`.
unfoldable pub utc_now_ns : ℕ → ℕ → Core → Clock → ℤ
utc_now_ns freq cnt g c =
    let t = from_cnt freq cnt c in
    if not (bit_and g.flags1 flag1_ptp_timescale == 0)
      && not (bit_and g.flags1 flag1_utc_valid == 0)
    then wrap 64 (t -ℤ wrap 64 (g.utc_offset *ℤ ns_per_s))
    else t
