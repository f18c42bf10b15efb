-- ===== src/Examples/Servo.antt =====
-- A locked servo and its clock, with a counter of 54 MHz.
use flint_rtos.Base.{ℕ, ◌+◌, ◌≡◌, refl, arith}
use flint_rtos.Int.{pos, negsuc, ◌+ℤ◌, ◌*ℤ◌, times, quot, rem, wrap}
use flint_rtos.PtpClock.{Clock, ticks_to_ns, scale_ppb, from_cnt, step, adjfreq}
use flint_rtos.PtpClock.Anchor.{steer-continuous}
use flint_rtos.PtpServo.{Servo, locked, sample}
use flint_rtos.PtpServo.Bounded.{IsBounded, sample_steady}

abbrev frequency : ℕ
frequency = 54000000

abbrev clock : Clock
clock = record { base_cnt = 54000000; base_ns = pos 1000000000; ppb = negsuc 1999; epoch = 4 }

abbrev servo : Servo
servo = record {
  state = locked;
  drift_ppb = pos 2000;
  ref_cnt = 0;
  ref_raw = pos 0;
  last_cnt = 54000000;
  outliers = 1;
}

abbrev reads : ℕ → ℕ
reads i = 108000000 + i

steer-continuous_example :
    (from_cnt frequency 108000000 (adjfreq frequency 108000000 (pos 700000) clock)
      ≡ from_cnt frequency 108000000 clock)
    × (from_cnt frequency 108000000 (step frequency 108000000 (negsuc 499) clock)
        ≡ wrap 64 (from_cnt frequency 108000000 clock +ℤ negsuc 499))
steer-continuous_example =
    steer-continuous frequency 108000000 clock (pos 700000) (negsuc 499) (omega arith)

servo-IsBounded : IsBounded servo clock
servo-IsBounded = record {
  drift = (omega arith, omega arith);
  frequency = (omega arith, omega arith);
  few = omega arith;
}

sample_steady_example :
    ((sample frequency reads (pos 5000000) (pos 100) 108000000 servo clock).1.state ≡ locked)
    × ((sample frequency reads (pos 5000000) (pos 100) 108000000 servo clock).2.epoch ≡ 4)
sample_steady_example =
    sample_steady frequency reads (pos 5000000) (pos 100) 108000000 servo clock refl (omega arith)

-- The time that the clock shows after another second: 2 us less than the counter.
next_second : from_cnt frequency 108000000 clock ≡ pos 1999998000
unfolding from_cnt wrap ◌+ℤ◌ ticks_to_ns ◌*ℤ◌ quot rem scale_ppb times
next_second = refl
