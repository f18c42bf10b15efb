-- ===== src/PtpCore/Port/Echo.antt =====
-- The slave's own request, which the multicast group brings back.
use flint_rtos.Base.{either, ℕ, ◌≡◌, refl, ◌∙◌, true, not, ◌==◌, ltb, bit_and}
use flint_rtos.Int.{pos}
use flint_rtos.PtpTime.{Timestamp}
use flint_rtos.PtpMsg.{
  from, pack_delay_req, pack_delay_header, fixed_fields, put16, put32, put_bytes, copy_identity,
}
use flint_rtos.PtpClock.{Clock}
use flint_rtos.PtpDataset.{cmp_bytes}
use flint_rtos.PtpDataset.Order.{bytes_from, compare_rows_self, compare_bytes}
use flint_rtos.PtpCore.{Core, same_bytes, reset_measurements}
use flint_rtos.PtpCore.Measure.{Around}
use flint_rtos.PtpCore.Port.{init, identity, rx}

-- The bytes of the source port identity in a request are those that `ptp_core_init` sets up.
own_bytes :
    (mac : ℕ → ℕ) (domain : ℕ) (buf : ℕ → ℕ) (seq_id : ℕ) (origin : Timestamp)
    → bytes_from 10 0 (from 20 (pack_delay_req buf (init mac domain).self seq_id origin).1)
      ≡ bytes_from 10 0 (init mac domain).self_id
unfolding bytes_from pack_delay_req pack_delay_header fixed_fields put16 put32 put_bytes
    copy_identity init identity reset_measurements
own_bytes mac domain buf seq_id origin = refl

-- Whatever state the slave is in, it ignores each Delay_Req that `ptp_core_init` lets it send: as long as
-- its identity is the one that was set up, the message changes neither its state nor the clock.
pub rx-own_request :
    (env : Around) (mac : ℕ → ℕ) (domain : ℕ) (buf : ℕ → ℕ) (seq_id : ℕ) (origin : Timestamp)
    → (len port rx_cnt : ℕ) (g : Core) (c : Clock) → g.self_id ≡ (init mac domain).self_id
    → rx env (pack_delay_req buf (init mac domain).self seq_id origin).1 len port rx_cnt g c
      ≡ (g, c)
unfolding rx
rx-own_request env mac domain buf seq_id origin len port rx_cnt g c own =
    let sent = (pack_delay_req buf (init mac domain).self seq_id origin).1 in
    let equal : cmp_bytes (from 20 sent) g.self_id 10 ≡ pos 0 =
      compare_bytes 10 0 (from 20 sent) g.self_id
      ∙ rw (own, own_bytes mac domain buf seq_id origin)
          (compare_rows_self (bytes_from 10 0 (init mac domain).self_id)) in
    let same : same_bytes (from 20 sent) g.self_id 10 ≡ true = rw equal refl in
    rw same (
      either (λ r. r ≡ (g, c)) (ltb len 34) (λ _. refl)
        (λ _.
          either (λ r. r ≡ (g, c)) (not (bit_and (sent 1) 15 == 2)) (λ _. refl)
            (λ _.
              either (λ r. r ≡ (g, c)) (not (sent 4 == g.self.domain_number)) (λ _. refl)
                (λ _. refl))))
