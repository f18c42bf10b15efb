-- ===== src/PtpMsg/Pack.antt =====
-- A Delay_Req message that is packed and read back.
use flint_rtos.Base.{
  ℕ, zero, suc, ◌+◌, ◌*◌, ◌/◌, ◌%◌, ◌^◌, ◌≤◌, ◌<◌, ◌≡◌, ◌⊎◌, inl, inr, ==_decides, refl, arith, ◌∙◌,
  bit_or, ◌==◌, if◌then◌else◌,
}
use flint_rtos.Bits.{◌<<<◌, bit_or-shift}
use flint_rtos.Int.{pos}
use flint_rtos.PtpTime.{Timestamp}
use flint_rtos.PtpMsg.{
  from, PortIdentity, MsgHeader, delay_req_length, ptp_delay_req, be32, be_bytes, put16, put_bytes,
  put32, unpack_timestamp, unpack_header, clear_bytes, copy_identity, pack_delay_header,
  fixed_fields, pack_delay_req,
}
use flint_rtos.PtpMsg.Bytes.{
  be_bytes_same, put_bytes-below, be_bytes-put_bytes, be16-bytes, be32-bytes,
}

clear-at : (n : ℕ) (buf : ℕ → ℕ) (i : ℕ) → i < n → clear_bytes n buf i ≡ 0
unfolding clear_bytes
clear-at zero buf i lt = absurd (omega arith)
clear-at (suc n) buf i lt = ground (arith, clear-at n buf i)

copy-at : (n : ℕ) (id buf : ℕ → ℕ) (i : ℕ) → i < n → copy_identity n id buf (20 + i) ≡ id i
unfolding copy_identity
copy-at zero id buf i lt = absurd (omega arith)
copy-at (suc n) id buf i lt = elim (==_decides i n) [
  | inl e ↦ rw e (ground arith)
  | inr ne ↦ ground (arith, copy-at n id buf i)
]

copy-outside :
    (n : ℕ) (id buf : ℕ → ℕ) (i : ℕ) → (i < 20) ⊎ (20 + n ≤ i) → copy_identity n id buf i ≡ buf i
unfolding copy_identity
copy-outside zero id buf i out = refl
copy-outside (suc n) id buf i out = ground (arith, copy-outside n id buf i)

-- The value of byte `i`, before the clock identity.
abbrev pub fixed_byte : ℕ → ℕ → ℕ
fixed_byte domain i =
    if i == 0 then 1 else if i == 1 then 2 else if i == 3 then 44 else if i == 4 then domain else 0

fixed_fields-at :
    (buf : ℕ → ℕ) (self : MsgHeader) (i : ℕ)
    → i < 20
    → fixed_fields buf self i ≡ fixed_byte self.domain_number i
unfolding fixed_fields put16
fixed_fields-at buf self i lt = ground (arith, clear-at 44 buf i)

-- The answer of `ptp_unpack_header` on a Delay_Req of `self`.
pub record IsDelayReq (self : MsgHeader) (seq_id : ℕ) (answer : ℕ × MsgHeader) : Type 0 where
  pub kind : answer.0 ≡ ptp_delay_req
  pub transport : answer.1.transport_specific ≡ 0
  pub type : answer.1.message_type ≡ ptp_delay_req
  pub version : answer.1.version_ptp ≡ 2
  pub total : answer.1.message_length ≡ delay_req_length
  pub domain : answer.1.domain_number ≡ self.domain_number
  pub flags0 : answer.1.flag_field0 ≡ 0
  pub flags1 : answer.1.flag_field1 ≡ 0
  pub correction : (answer.1.correction_lsb ≡ 0) × (answer.1.correction_msb ≡ pos 0)
  pub clock :
      (i : ℕ)
      → i < 8
      → answer.1.source_port_identity.clock_identity i ≡ self.source_port_identity.clock_identity i
  pub port : answer.1.source_port_identity.port_number ≡ self.source_port_identity.port_number
  pub sequence : answer.1.sequence_id ≡ seq_id
  pub control : answer.1.control_field ≡ 1
  pub interval : answer.1.log_message_interval ≡ pos 127

module _ (buf : ℕ → ℕ) (self : MsgHeader) (seq_id : ℕ) where
  abbrev head : ℕ → ℕ
  head = pack_delay_header buf self seq_id

  abbrev own_port : PortIdentity
  own_port = self.source_port_identity

  abbrev copied : ℕ → ℕ
  copied = copy_identity 8 own_port.clock_identity (fixed_fields buf self)

  head-low : (i : ℕ) → i < 28 → head i ≡ copied i
  unfolding pack_delay_header put16
  head-low i lt = ground arith

  head-fixed : (i : ℕ) → i < 20 → head i ≡ fixed_byte self.domain_number i
  head-fixed i lt =
      head-low i (omega arith)
      ∙ copy-outside 8 own_port.clock_identity (fixed_fields buf self) i (inl lt)
      ∙ fixed_fields-at buf self i lt

  head-own_port : (i : ℕ) → i < 8 → head (20 + i) ≡ own_port.clock_identity i
  head-own_port i lt =
      head-low (20 + i) (omega arith)
      ∙ copy-at 8 own_port.clock_identity (fixed_fields buf self) i lt

  head-tail :
      (i : ℕ)
      → i < 6
      → head (28 + i) ≡ (
          if i == 0
          then own_port.port_number / 2 ^ 8 % 2 ^ 8
          else if i == 1
          then own_port.port_number % 2 ^ 8
          else if i == 2
          then seq_id / 2 ^ 8 % 2 ^ 8
          else if i == 3
          then seq_id % 2 ^ 8
          else if i == 4
          then 1
          else 127)
  unfolding pack_delay_header put16
  head-tail i lt = ground arith

  module _ (origin : Timestamp) where
    abbrev secs : ℕ
    secs = bit_or (origin.msb <<< 32) origin.lsb

    abbrev message : ℕ → ℕ
    message = (pack_delay_req buf self seq_id origin).1

    message-low : (i : ℕ) → i < 34 → message i ≡ head i
    unfolding pack_delay_req put32
    message-low i lt = ground (arith, put_bytes-below 6 34 secs head i)

    message-seconds : (i : ℕ) → i < 6 → message (34 + i) ≡ put_bytes 6 34 secs head (34 + i)
    unfolding pack_delay_req put32
    message-seconds i lt = ground arith

    seconds-value :
        origin.lsb < 2 ^ 32
        → origin.msb < 2 ^ 16
        → be_bytes 6 (from 34 message) ≡ origin.msb * 2 ^ 32 + origin.lsb
    seconds-value bl bm =
        let value = bit_or-shift 32 origin.msb origin.lsb bl in
        be_bytes_same 6 (from 34 message) (from 34 (put_bytes 6 34 secs head)) message-seconds
        ∙ be_bytes-put_bytes 6 34 secs head (omega arith)
        ∙ omega (arith, value)

    nanoseconds-value :
        origin.nanoseconds_field < 2 ^ 32 → be32 (from 40 message) ≡ origin.nanoseconds_field
    unfolding pack_delay_req put32
    nanoseconds-value b =
        be32-bytes (from 40 message) origin.nanoseconds_field b refl refl refl refl

    -- The origin timestamp of a packed Delay_Req, of 48-bit seconds and 32-bit nanoseconds, is read back from
    -- byte 34 on as it was.
    pub unpack_timestamp-pack :
        origin.lsb < 2 ^ 32
        → origin.msb < 2 ^ 16
        → origin.nanoseconds_field < 2 ^ 32
        → unpack_timestamp (from 34 (pack_delay_req buf self seq_id origin).1) ≡ origin
    unfolding unpack_timestamp be32
    unpack_timestamp-pack bl bm bn =
        rw (seconds-value bl bm, nanoseconds-value bn)
          (λ i. record {
            lsb = low bl i;
            msb = high bl bm i;
            nanoseconds_field = origin.nanoseconds_field;
          })
      where
        low : origin.lsb < 2 ^ 32 → (origin.msb * 2 ^ 32 + origin.lsb) % 2 ^ 32 ≡ origin.lsb
        low b = omega arith

        high :
            origin.lsb < 2 ^ 32
            → origin.msb < 2 ^ 16
            → (origin.msb * 2 ^ 32 + origin.lsb) / 2 ^ 32 % 2 ^ 16 ≡ origin.msb
        high b c = omega arith

    message-fixed : (i : ℕ) → i < 20 → message i ≡ fixed_byte self.domain_number i
    message-fixed i lt = message-low i (omega arith) ∙ head-fixed i lt

    correction-zero : be_bytes 8 (from 8 message) ≡ 0
    unfolding be_bytes
    correction-zero =
        be_bytes_same 8 (from 8 message) (λ i. 0)
          (λ i lt. message-fixed (8 + i) (omega arith) ∙ ground arith)

    message-tail : (i : ℕ) → i < 6 → message (28 + i) ≡ head (28 + i)
    message-tail i lt = message-low (28 + i) (omega arith)

    -- The header of a packed Delay_Req, with a domain number of one byte and a port number and a sequence
    -- number of two, is read back with the type, the length and the version of a Delay_Req, the domain, the
    -- port identity and the sequence number that were packed, no flags, no correction, and the control
    -- field 1 with the interval 127.
    pub unpack_header-pack :
        own_port.port_number < 2 ^ 16
        → seq_id < 2 ^ 16
        → IsDelayReq self seq_id (unpack_header (pack_delay_req buf self seq_id origin).1)
    unfolding unpack_header
    unpack_header-pack bp bs =
        let b0 = message-fixed 0 (omega arith) in
        let b1 = message-fixed 1 (omega arith) in
        let tail : (i : ℕ) → i < 6 → _ = λ i lt. message-tail i lt ∙ head-tail i lt in
        record {
          kind = rw b0 refl;
          transport = rw b0 refl;
          type = rw b0 refl;
          version = rw b1 refl;
          total =
              be16-bytes (from 2 message) 44 (omega arith) (message-fixed 2 (omega arith))
                (message-fixed 3 (omega arith));
          domain = message-fixed 4 (omega arith);
          flags0 = message-fixed 6 (omega arith);
          flags1 = message-fixed 7 (omega arith);
          correction = (rw correction-zero refl, rw correction-zero refl);
          clock = λ i lt. message-low (20 + i) (omega arith) ∙ head-own_port i lt;
          port =
              be16-bytes (from 28 message) own_port.port_number bp (tail 0 (omega arith))
                (tail 1 (omega arith));
          sequence =
              be16-bytes (from 30 message) seq_id bs (tail 2 (omega arith)) (tail 3 (omega arith));
          control = tail 4 (omega arith);
          interval = rw (tail 5 (omega arith)) refl;
        }
