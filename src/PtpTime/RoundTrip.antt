-- ===== src/PtpTime/RoundTrip.antt =====
-- Conversions of times there and back.
use flint_rtos.Base.{ℕ, ◌-◌, ◌*◌, ◌%◌, ◌^◌, ◌≤◌, ◌<◌, ◌≡◌, refl, arith, ◌∙◌, sym, bit_or}
use flint_rtos.Bits.{◌<<<◌, bit_or-shift}
use flint_rtos.Int.{ℤ, pos_part, neg_part, ◌+ℤ◌, ◌*ℤ◌, quot, to_word, of_word}
use flint_rtos.PtpTime.{
  TimeInternal, Timestamp, ns_per_s, to_ns, ns_to_time, div2, ts_to_internal, internal_to_ts,
}
use flint_rtos.PtpTime.Value.{Below, value, IsNormal, normal_unique, to_ns-value, ns_to_time-value}

normal-Below :
    (t : TimeInternal) (ns : ℤ)
    → Below ((2 ^ 31 - 3) * ns_per_s) ns
    → IsNormal t
    → value t ≡ ns
    → Below (2 ^ 31) t.seconds
unfolding ◌+ℤ◌ ◌*ℤ◌
normal-Below t ns b n e = ground (arith, n.small, n.signs)

value-Below :
    (t : TimeInternal)
    → Below (2 ^ 31 - 4) t.seconds
    → Below ns_per_s t.nanoseconds
    → Below ((2 ^ 31 - 3) * ns_per_s) (value t)
unfolding ◌+ℤ◌ ◌*ℤ◌
value-Below t bs bn = ground arith

-- A number of nanoseconds of less than 2 ^ 31 - 3 seconds that becomes a time is read back from it.
pub to_ns-ns_to_time : (ns : ℤ) → Below ((2 ^ 31 - 3) * ns_per_s) ns → to_ns (ns_to_time ns) ≡ ns
to_ns-ns_to_time ns b =
    let (normal, same) = ns_to_time-value ns b in
    let small = normal.small in
    to_ns-value (ns_to_time ns) (normal-Below (ns_to_time ns) ns b normal same)
      (omega arith, omega arith)
    ∙ same

-- A normal time of less than 2 ^ 31 - 4 seconds that becomes a number of nanoseconds is read back from it.
pub ns_to_time-to_ns :
    (t : TimeInternal) → IsNormal t → Below (2 ^ 31 - 4) t.seconds → ns_to_time (to_ns t) ≡ t
ns_to_time-to_ns t n bs =
    let small = n.small in
    let e = to_ns-value t (omega arith, omega arith) (omega arith, omega arith) in
    let (normal, same) = ns_to_time-value (value t) (value-Below t bs small) in
    let (es, en) =
      normal_unique (ns_to_time (value t)).seconds t.seconds (ns_to_time (value t)).nanoseconds
        t.nanoseconds normal n same in
    rw e (same_time es en)
  where
    same_time : {u : TimeInternal} → u.seconds ≡ t.seconds → u.nanoseconds ≡ t.nanoseconds → u ≡ t
    same_time es en = λ i. record { seconds = es i; nanoseconds = en i }

half-Below : (a : ℤ) (n : ℕ) → Below n a → Below n (quot a 2)
unfolding quot
half-Below a n b = ground arith

-- For a time of less than 2 ^ 31 - 4 seconds with nanoseconds below a second, ptp_time_div2 gives a normal
-- time of half the value, rounded towards 0.
pub div2-value :
    (t : TimeInternal)
    → Below (2 ^ 31 - 4) t.seconds
    → Below ns_per_s t.nanoseconds
    → IsNormal (div2 t) × (value (div2 t) ≡ quot (value t) 2)
unfolding div2
div2-value t bs bn =
    let e = to_ns-value t (omega arith, omega arith) (omega arith, omega arith) in
    rw e (ns_to_time-value (quot (value t) 2) (half-Below (value t) _ (value-Below t bs bn)))

low_word : (msb lsb : ℕ) → lsb < 2 ^ 32 → bit_or (msb <<< 32) lsb % 2 ^ 32 ≡ lsb
low_word msb lsb b = omega (arith, bit_or-shift 32 msb lsb b)

word-signed : (a : ℤ) → pos_part a < 2 ^ 31 → neg_part a ≤ 2 ^ 31 → of_word 32 (to_word 32 a) ≡ a
word-signed a p n = ground arith

signed-word : (n : ℕ) → n < 2 ^ 32 → to_word 32 (of_word 32 n) ≡ n
signed-word n b = ground arith

word-lt : (a : ℤ) → to_word 32 a < 2 ^ 32
word-lt a = ground arith

-- A time of two signed 32-bit words that is put on the wire is read back from it.
pub ts_to_internal-internal_to_ts :
    (t : TimeInternal)
    → pos_part t.seconds < 2 ^ 31
    → neg_part t.seconds ≤ 2 ^ 31
    → pos_part t.nanoseconds < 2 ^ 31
    → neg_part t.nanoseconds ≤ 2 ^ 31
    → ts_to_internal (internal_to_ts t) ≡ t
unfolding ts_to_internal internal_to_ts
ts_to_internal-internal_to_ts t sp sn np nn =
    rw
      (
        low_word 0 (to_word 32 t.seconds) (word-lt t.seconds),
        word-signed t.seconds sp sn,
        word-signed t.nanoseconds np nn,
      )
      refl

-- A timestamp whose high seconds are 0 comes back from the internal form as it was.
pub internal_to_ts-ts_to_internal :
    (e : Timestamp)
    → e.lsb < 2 ^ 32
    → e.msb ≡ 0
    → e.nanoseconds_field < 2 ^ 32
    → internal_to_ts (ts_to_internal e) ≡ e
unfolding ts_to_internal internal_to_ts
internal_to_ts-ts_to_internal e bl zero_msb bn =
    rw (low_word e.msb e.lsb bl, signed-word e.lsb bl, signed-word e.nanoseconds_field bn)
      (λ i. record { lsb = e.lsb; msb = sym zero_msb i; nanoseconds_field = e.nanoseconds_field })
