-- ===== src/PtpMsg.antt =====
-- port/ptp/ptp_msg.c: PTP messages as bytes. A pointer into a message is a function from the distance
-- to the byte there.
pub mod Bytes
pub mod Pack
use flint_rtos.Base.{
  ℕ, zero, suc, ◌+◌, ◌-◌, ◌*◌, ◌/◌, ◌%◌, ◌^◌, bit_or, bit_and, Bool, not, ◌==◌, ◌&&◌, ltb, leb,
  if◌then◌else◌, update,
}
use flint_rtos.Bits.{◌<<<◌, ◌>>>◌}
use flint_rtos.Int.{ℤ, of_word}
use flint_rtos.PtpTime.{Timestamp}

abbrev pub clock_identity_length : ℕ
clock_identity_length = 8

abbrev pub delay_req_length : ℕ
delay_req_length = 44

abbrev pub ptp_delay_req : ℕ
ptp_delay_req = 1

-- The bytes from `at` on.
abbrev pub from : ℕ → (ℕ → ℕ) → ℕ → ℕ
from at buf i = buf (at + i)

pub record PortIdentity : Type 0 where
  pub clock_identity : ℕ → ℕ
  pub port_number : ℕ

-- The fields that the port reads; the reserved ones are left out.
pub record MsgHeader : Type 0 where
  pub transport_specific : ℕ
  pub message_type : ℕ
  pub version_ptp : ℕ
  pub message_length : ℕ
  pub domain_number : ℕ
  pub flag_field0 : ℕ
  pub flag_field1 : ℕ
  pub correction_lsb : ℕ
  pub correction_msb : ℤ
  pub source_port_identity : PortIdentity
  pub sequence_id : ℕ
  pub control_field : ℕ
  pub log_message_interval : ℤ

unfoldable pub be16 : (ℕ → ℕ) → ℕ
be16 p = bit_or (p 0 <<< 8) (p 1) % 2 ^ 16

unfoldable pub be32 : (ℕ → ℕ) → ℕ
be32 p = bit_or (bit_or (bit_or (p 0 <<< 24 % 2 ^ 32) (p 1 <<< 16)) (p 2 <<< 8)) (p 3)

-- The loop of `be48` and `be64`, after `n` rounds.
unfoldable pub be_bytes : ℕ → (ℕ → ℕ) → ℕ
be_bytes zero p = 0
be_bytes (suc n) p = bit_or (be_bytes n p <<< 8 % 2 ^ 64) (p n)

abbrev pub be48 : (ℕ → ℕ) → ℕ
be48 = be_bytes 6

abbrev pub be64 : (ℕ → ℕ) → ℕ
be64 = be_bytes 8

unfoldable pub put16 : ℕ → ℕ → (ℕ → ℕ) → ℕ → ℕ
put16 at v buf = update (update buf at ((v >>> 8) % 2 ^ 8)) (at + 1) (v % 2 ^ 8)

-- The loop of `put48`, for the `n` bytes at the front.
unfoldable pub put_bytes : ℕ → ℕ → ℕ → (ℕ → ℕ) → ℕ → ℕ
put_bytes zero at v buf = buf
put_bytes (suc n) at v buf = put_bytes n at (v >>> 8) (update buf (at + n) (v % 2 ^ 8))

abbrev pub put48 : ℕ → ℕ → (ℕ → ℕ) → ℕ → ℕ
put48 = put_bytes 6

unfoldable pub put32 : ℕ → ℕ → (ℕ → ℕ) → ℕ → ℕ
put32 at v buf =
    let b1 = update buf at ((v >>> 24) % 2 ^ 8) in
    let b2 = update b1 (at + 1) ((v >>> 16) % 2 ^ 8) in
    let b3 = update b2 (at + 2) ((v >>> 8) % 2 ^ 8) in update b3 (at + 3) (v % 2 ^ 8)

unfoldable pub unpack_timestamp : (ℕ → ℕ) → Timestamp
unpack_timestamp buf =
    let secs = be48 buf in
    record {
      lsb = secs % 2 ^ 32;
      msb = (secs >>> 32) % 2 ^ 16;
      nanoseconds_field = be32 (from 6 buf);
    }

-- The first answer is the message type.
unfoldable pub unpack_header : (ℕ → ℕ) → ℕ × MsgHeader
unpack_header buf =
    let cf = be64 (from 8 buf) in
    (
      bit_and (buf 0) 15 % 2 ^ 8,
      record {
        transport_specific = buf 0 >>> 4;
        message_type = bit_and (buf 0) 15;
        version_ptp = bit_and (buf 1) 15;
        message_length = be16 (from 2 buf);
        domain_number = buf 4;
        flag_field0 = buf 6;
        flag_field1 = buf 7;
        correction_lsb = cf % 2 ^ 32;
        correction_msb = of_word 32 (cf >>> 32);
        source_port_identity = record {
          clock_identity = from 20 buf;
          port_number = be16 (from 28 buf);
        };
        sequence_id = be16 (from 30 buf);
        control_field = buf 32;
        log_message_interval = of_word 8 (buf 33);
      },
    )

unfoldable pub header_two_step : MsgHeader → Bool
header_two_step hdr = not (bit_and hdr.flag_field0 2 == 0)

-- The loop that writes 0 to the first `n` bytes.
unfoldable pub clear_bytes : ℕ → (ℕ → ℕ) → ℕ → ℕ
clear_bytes zero buf = buf
clear_bytes (suc n) buf = update (clear_bytes n buf) n 0

-- The loop that copies the first `n` bytes of the clock identity.
unfoldable pub copy_identity : ℕ → (ℕ → ℕ) → (ℕ → ℕ) → ℕ → ℕ
copy_identity zero id buf = buf
copy_identity (suc n) id buf = update (copy_identity n id buf) (20 + n) (id n)

-- The message up to the flags, on a buffer that is cleared.
unfoldable pub fixed_fields : (ℕ → ℕ) → MsgHeader → ℕ → ℕ
fixed_fields buf self =
    let b1 = update (clear_bytes delay_req_length buf) 0 ptp_delay_req in
    let b2 = put16 2 delay_req_length (update b1 1 2) in
    update (update (update b2 4 self.domain_number) 6 0) 7 0

-- The message with its header, but for the timestamp.
unfoldable pub pack_delay_header : (ℕ → ℕ) → MsgHeader → ℕ → ℕ → ℕ
pack_delay_header buf self seq_id =
    let id = self.source_port_identity in
    let b1 = copy_identity clock_identity_length id.clock_identity (fixed_fields buf self) in
    let b2 = put16 30 seq_id (put16 28 id.port_number b1) in update (update b2 32 1) 33 127

unfoldable pub pack_delay_req : (ℕ → ℕ) → MsgHeader → ℕ → Timestamp → ℕ × (ℕ → ℕ)
pack_delay_req buf self seq_id origin =
    let secs = bit_or (origin.msb <<< 32) origin.lsb in
    (
      delay_req_length,
      put32 40 origin.nanoseconds_field (put48 34 secs (pack_delay_header buf self seq_id)),
    )
