-- ===== src/PtpCore/Port/Cases.antt =====
-- The handlers that a message may reach, and the fields that a message leaves alone.
use flint_rtos.Base.{ℕ, either, and-right, ◌≡◌, true, bit_and, not, ◌&&◌, ◌==◌, ltb}
use flint_rtos.PtpMsg.{from}
use flint_rtos.PtpClock.{Clock}
use flint_rtos.PtpCore.{Core, same_bytes, handle_announce, from_master}
use flint_rtos.PtpCore.Measure.{
  Around, ptp_event_port, handle_sync, handle_follow_up, handle_delay_resp,
}
use flint_rtos.PtpCore.Port.{ptp_header_length, dispatch, rx}

module _ (P : Core × Clock → Type 0) (env : Around) (buf : ℕ → ℕ) (len port rx_cnt : ℕ) (g : Core)
    (c : Clock) (kept : P (g, c))
    (synced : from_master buf g ≡ true → P (handle_sync env buf len rx_cnt g c))
    (announced : P (handle_announce buf len g, c))
    (followed : from_master buf g ≡ true → P (handle_follow_up env buf len g c))
    (answered : from_master buf g ≡ true → P (handle_delay_resp env buf len g c, c)) where
  dispatch_cases : P (dispatch env buf len port rx_cnt g c)
  unfolding dispatch
  dispatch_cases =
      let type = bit_and (buf 0) 15 in
      let mastered = from_master buf g in
      either P (port == ptp_event_port)
        (λ _.
          either P (type == 0 && mastered) (λ e. synced (and-right (type == 0) mastered e))
            (λ _. kept))
        (λ _.
          either P (type == 11) (λ _. announced)
            (λ _.
              either P (type == 8 && mastered) (λ e. followed (and-right (type == 8) mastered e))
                (λ _.
                  either P (type == 9 && mastered)
                    (λ e. answered (and-right (type == 9) mastered e)) (λ _. kept))))

  pub rx_cases : P (rx env buf len port rx_cnt g c)
  unfolding rx
  rx_cases =
      either P (ltb len ptp_header_length) (λ _. kept)
        (λ _.
          either P (not (bit_and (buf 1) 15 == 2)) (λ _. kept)
            (λ _.
              either P (not (buf 4 == g.self.domain_number)) (λ _. kept)
                (λ _.
                  either P (same_bytes (from 20 buf) g.self_id 10) (λ _. kept)
                    (λ _. dispatch_cases))))
