-- ===== src/PtpCore/Port.antt =====
-- port/ptp/ptp_core.c: the functions that the port calls.
pub mod Cases
pub mod Guards
pub mod Kept
pub mod Master
pub mod Exact
pub mod Rate
pub mod Echo
use flint_rtos.Base.{
  ℕ, ◌+◌, ◌-◌, ◌%◌, ◌^◌, bit_and, Bool, true, false, not, ◌==◌, ◌&&◌, leb, ltb, if◌then◌else◌,
  Option, none, some, List, [], ◌∷◌, ◌++◌, get_or,
}
use flint_rtos.Int.{ℤ, pos, negsuc}
use flint_rtos.PtpMsg.{MsgHeader, PortIdentity, from}
use flint_rtos.PtpClock.{Clock}
use flint_rtos.PtpServo
use flint_rtos.PtpServo.{ServoState}
use flint_rtos.PtpStats
use flint_rtos.PtpCore.{
  Core, reset_measurements, handle_announce, from_master, same_bytes, is_unlocked, is_locked,
}
use flint_rtos.PtpCore.Measure.{
  Around, ptp_event_port, handle_sync, handle_follow_up, handle_delay_resp, send_delay_req,
}

abbrev pub ptp_header_length : ℕ
ptp_header_length = 34

-- The clock identity of a MAC address.
unfoldable pub identity : (ℕ → ℕ) → List ℕ
identity mac = mac 0 ∷ mac 1 ∷ mac 2 ∷ 255 ∷ 254 ∷ mac 3 ∷ mac 4 ∷ mac 5 ∷ []

-- `ptp_core_init`, on the address and the domain. The transmit hook is not kept in the state.
unfoldable pub init : (ℕ → ℕ) → ℕ → Core
init mac domain =
    let id = identity mac in
    reset_measurements (record {
      self = record {
        transport_specific = 0;
        message_type = 0;
        version_ptp = 0;
        message_length = 0;
        domain_number = domain;
        flag_field0 = 0;
        flag_field1 = 0;
        correction_lsb = 0;
        correction_msb = pos 0;
        source_port_identity = record { clock_identity = λ i. get_or id i 0; port_number = 1 };
        sequence_id = 0;
        control_field = 0;
        log_message_interval = pos 0;
      };
      self_id = λ i. get_or (id ++ 0 ∷ 1 ∷ []) i 0;
      have_master = false;
      master = record {
        prio1 = 0;
        clk_class = 0;
        clk_accuracy = 0;
        variance = 0;
        prio2 = 0;
        gm_id = λ i. 0;
        steps_removed = 0;
        port_id = λ i. 0;
      };
      last_announce_ms = 0;
      announce_timeout_ms = 0;
      utc_offset = pos 0;
      flags1 = 0;
      sync_waiting_fup = false;
      sync_seq = 0;
      t2_cnt = 0;
      t2_ns = pos 0;
      sync_corr = pos 0;
      t2_epoch = 0;
      ms_valid = false;
      ms_leg = pos 0;
      ms_epoch = 0;
      dreq_due = false;
      dreq_outstanding = false;
      dreq_seq = 0;
      t3_ns = pos 0;
      t3_epoch = 0;
      last_dreq_ms = 0;
      now_ms = 0;
      delay = record { win = λ i. pos 0; n = 0; idx = 0; ns = pos 0 };
      servo = PtpServo.init;
      last_offset = pos 0;
      n_sync = 0;
      stats = PtpStats.empty;
    })

-- `ptp_core_rx` after its guards.
unfoldable pub dispatch : Around → (ℕ → ℕ) → ℕ → ℕ → ℕ → Core → Clock → Core × Clock
dispatch env buf len port rx_cnt g c =
    let type = bit_and (buf 0) 15 in
    if port == ptp_event_port
    then (if type == 0 && from_master buf g then handle_sync env buf len rx_cnt g c else (g, c))
    else if type == 11
    then (handle_announce buf len g, c)
    else if type == 8 && from_master buf g
    then handle_follow_up env buf len g c
    else if type == 9 && from_master buf g
    then (handle_delay_resp env buf len g c, c)
    else (g, c)

unfoldable pub rx : Around → (ℕ → ℕ) → ℕ → ℕ → ℕ → Core → Clock → Core × Clock
rx env buf len port rx_cnt g c =
    if ltb len ptp_header_length
    then (g, c)
    else if not (bit_and (buf 1) 15 == 2)
    then (g, c)
    else if not (buf 4 == g.self.domain_number)
    then (g, c)
    else if same_bytes (from 20 buf) g.self_id 10
    then (g, c)
    else dispatch env buf len port rx_cnt g c

unfoldable pub poll : Around → ℕ → Core → Clock → Core
poll env now_ms g c =
    let g1 = record g { now_ms = now_ms } in
    if g.have_master && ltb g.announce_timeout_ms ((now_ms + 2 ^ 32 - g.last_announce_ms) % 2 ^ 32)
    then reset_measurements (record g1 { have_master = false })
    else if g.dreq_due
        && not (is_unlocked g.servo.state)
        && leb 900 ((now_ms + 2 ^ 32 - g.last_dreq_ms) % 2 ^ 32)
    then send_delay_req env (record g1 { dreq_due = false }) c
    else g1

-- What `ptp_core_get_status` stores. Its name of the state is `none` for "LISTENING".
pub record PtpStatus : Type 0 where
  pub have_master : Bool
  pub locked : Bool
  pub state : Option ServoState
  pub offset_ns : ℤ
  pub delay_ns : ℤ
  pub freq_ppb : ℤ
  pub n_sync : ℕ
  pub gm_id : ℕ → ℕ
  pub utc_offset : ℤ

unfoldable pub get_status : Core → Clock → PtpStatus
get_status g c = record {
  have_master = g.have_master;
  locked = g.have_master && is_locked g.servo.state;
  state = if g.have_master then some g.servo.state else none;
  offset_ns = g.last_offset;
  delay_ns = g.delay.ns;
  freq_ppb = c.ppb;
  n_sync = g.n_sync;
  gm_id = g.master.gm_id;
  utc_offset = g.utc_offset;
}
