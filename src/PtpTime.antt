-- ===== src/PtpTime.antt =====
-- port/ptp/ptp_time.c: times as seconds and nanoseconds, two signed 32-bit words.
pub mod Value
pub mod RoundTrip
use flint_rtos.Base.{ℕ, ◌+◌, ◌*◌, ◌/◌, ◌%◌, ◌^◌, bit_or, ◌&&◌, if◌then◌else◌}
use flint_rtos.Bits.{◌<<<◌}
use flint_rtos.Int.{ℤ, pos, ◌+ℤ◌, ◌-ℤ◌, ◌*ℤ◌, quot, rem, is_pos, is_neg, to_word, of_word, wrap}

abbrev pub ns_per_s : ℕ
ns_per_s = 1000000000

pub record TimeInternal : Type 0 where
  pub seconds : ℤ
  pub nanoseconds : ℤ

-- The time on the wire.
pub record Timestamp : Type 0 where
  pub lsb : ℕ
  pub msb : ℕ
  pub nanoseconds_field : ℕ

-- The `if` of `ptp_time_normalize`.
unfoldable pub align : TimeInternal → TimeInternal
align r =
    if is_pos r.seconds && is_neg r.nanoseconds
    then record {
      seconds = wrap 32 (r.seconds -ℤ pos 1);
      nanoseconds = wrap 32 (r.nanoseconds +ℤ pos ns_per_s);
    }
    else if is_neg r.seconds && is_pos r.nanoseconds
    then record {
      seconds = wrap 32 (r.seconds +ℤ pos 1);
      nanoseconds = wrap 32 (r.nanoseconds -ℤ pos ns_per_s);
    }
    else r

unfoldable pub normalize : TimeInternal → TimeInternal
normalize r = align (record {
  seconds = wrap 32 (r.seconds +ℤ quot r.nanoseconds ns_per_s);
  nanoseconds = rem r.nanoseconds ns_per_s;
})

unfoldable pub add : TimeInternal → TimeInternal → TimeInternal
add x y = normalize (record {
  seconds = wrap 32 (x.seconds +ℤ y.seconds);
  nanoseconds = wrap 32 (x.nanoseconds +ℤ y.nanoseconds);
})

unfoldable pub sub : TimeInternal → TimeInternal → TimeInternal
sub x y = normalize (record {
  seconds = wrap 32 (x.seconds -ℤ y.seconds);
  nanoseconds = wrap 32 (x.nanoseconds -ℤ y.nanoseconds);
})

unfoldable pub to_ns : TimeInternal → ℤ
to_ns t = wrap 64 (wrap 64 (t.seconds *ℤ ns_per_s) +ℤ t.nanoseconds)

unfoldable pub ns_to_time : ℤ → TimeInternal
ns_to_time ns =
    normalize
      (record { seconds = wrap 32 (quot ns ns_per_s); nanoseconds = wrap 32 (rem ns ns_per_s) })

unfoldable pub div2 : TimeInternal → TimeInternal
div2 r = ns_to_time (quot (to_ns r) 2)

unfoldable pub ts_to_internal : Timestamp → TimeInternal
ts_to_internal ext =
    let secs = bit_or (ext.msb <<< 32) ext.lsb in
    record { seconds = of_word 32 (secs % 2 ^ 32); nanoseconds = of_word 32 ext.nanoseconds_field }

unfoldable pub internal_to_ts : TimeInternal → Timestamp
internal_to_ts t = record {
  lsb = to_word 32 t.seconds;
  msb = 0;
  nanoseconds_field = to_word 32 t.nanoseconds;
}
