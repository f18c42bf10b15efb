-- ===== src/Examples/Ptp.antt =====
-- Times of some seconds, and a Delay_Req.
use flint_rtos.Base.{◌+◌, ◌≡◌, refl, arith, inr}
use flint_rtos.Int.{pos, negsuc, ◌+ℤ◌}
use flint_rtos.PtpTime.{
  TimeInternal, Timestamp, add, to_ns, ns_to_time, ts_to_internal, internal_to_ts,
}
use flint_rtos.PtpTime.Value.{value, IsNormal, IsShort, add-value}
use flint_rtos.PtpTime.RoundTrip.{ns_to_time-to_ns, ts_to_internal-internal_to_ts}
use flint_rtos.PtpMsg.{MsgHeader, unpack_header, pack_delay_req}
use flint_rtos.PtpMsg.Pack.{IsDelayReq, unpack_header-pack}

-- 2.9 s and -3.2 s.
abbrev early : TimeInternal
early = record { seconds = pos 2; nanoseconds = pos 900000000 }

abbrev late : TimeInternal
late = record { seconds = negsuc 2; nanoseconds = negsuc 199999999 }

early-IsShort : IsShort early
early-IsShort = record {
  seconds_below = (omega arith, omega arith);
  small = (omega arith, omega arith);
}

late-IsShort : IsShort late
late-IsShort = record {
  seconds_below = (omega arith, omega arith);
  small = (omega arith, omega arith);
}

add-value_example : IsNormal (add early late) × (value (add early late) ≡ value early +ℤ value late)
add-value_example = add-value early late early-IsShort late-IsShort

ns_to_time-to_ns_example : ns_to_time (to_ns late) ≡ late
ns_to_time-to_ns_example =
    ns_to_time-to_ns late (record { small = (omega arith, omega arith); signs = inr refl })
      (omega arith, omega arith)

ts_to_internal-internal_to_ts_example : ts_to_internal (internal_to_ts late) ≡ late
ts_to_internal-internal_to_ts_example =
    ts_to_internal-internal_to_ts late (omega arith) (omega arith) (omega arith) (omega arith)

abbrev self : MsgHeader
self = record {
  transport_specific = 0;
  message_type = 0;
  version_ptp = 2;
  message_length = 0;
  domain_number = 5;
  flag_field0 = 2;
  flag_field1 = 0;
  correction_lsb = 0;
  correction_msb = pos 0;
  source_port_identity = record { clock_identity = λ i. i + 16; port_number = 258 };
  sequence_id = 0;
  control_field = 0;
  log_message_interval = pos 0;
}

abbrev origin : Timestamp
origin = record { lsb = 305419896; msb = 4660; nanoseconds_field = 123456789 }

unpack_header-pack_example :
    IsDelayReq self 513 (unpack_header (pack_delay_req (λ i. 255) self 513 origin).1)
unpack_header-pack_example =
    unpack_header-pack (λ i. 255) self 513 origin (omega arith) (omega arith)

-- A timestamp of 2 ^ 31 seconds, in the year 2038, is taken for one before 1970.
after_2038 :
    ts_to_internal (record { lsb = 2147483648; msb = 0; nanoseconds_field = 0 })
    ≡ record { seconds = negsuc 2147483647; nanoseconds = pos 0 }
unfolding ts_to_internal
after_2038 = refl
