-- ===== src/Examples/PtpCore.antt =====
-- A slave with a master, its messages and its measurements.
use flint_rtos.Base.{
  ℕ, ◌+◌, ◌-◌, ◌≡◌, ◌≢◌, ◌&&◌, refl, arith, true, false, ◌==◌, ltb, leb, if◌then◌else◌, some, List,
  [], ◌∷◌, inl,
}
use flint_rtos.Int.{ℤ, pos, negsuc, ◌+ℤ◌, ◌-ℤ◌, ◌*ℤ◌, wrap, quot}
use flint_rtos.PtpTime.{Timestamp}
use flint_rtos.PtpMsg.{be_bytes, pack_delay_req}
use flint_rtos.PtpClock.{Clock}
use flint_rtos.PtpServo.{stepped}
use flint_rtos.PtpDataset.{Dataset, cmp_from, dataset_cmp}
use flint_rtos.PtpDataset.Order.{compare_rows, rank, dataset_cmp-rank}
use flint_rtos.PtpDelay.{Delay, delay_add}
use flint_rtos.PtpDelay.Median.{IsWindow, Joined, MedianOf, delay_add-median}
use flint_rtos.PtpStats.{isqrt64}
use flint_rtos.PtpStats.Root.{IsRoot, isqrt64-IsRoot}
use flint_rtos.PtpCore.{
  Core, rd16, rd32, rd_ts_ns, rd_corr_ns, reset_measurements, announced, handle_announce,
}
use flint_rtos.PtpCore.Measure.{Around, transmit, note_sent, send_delay_req, handle_delay_resp}
use flint_rtos.PtpCore.Port.{identity, init, rx, poll}
use flint_rtos.PtpCore.Port.Guards.{IsValid}
use flint_rtos.PtpCore.Port.Kept.{message, tick, run, run-init-IsValid}
use flint_rtos.PtpCore.Port.Master.{BestOf, handle_announce-BestOf}
use flint_rtos.PtpCore.Port.Exact.{Answers, Legs, handle_delay_resp-Legs}
use flint_rtos.PtpCore.Port.Rate.{Arrival, receive_all, poll-rate}
use flint_rtos.PtpCore.Port.Echo.{rx-own_request}

abbrev clock : Clock
clock = record { base_cnt = 54000000; base_ns = pos 1000000000; ppb = negsuc 1999; epoch = 4 }

abbrev env : Around
env = record {
  freq = 54000000;
  reads = λ i. 108000000 + i;
  tx = some (λ port buf len. some 54000100);
  bytes = λ i. 170;
  samples = λ i. negsuc 7;
}

abbrev mac : ℕ → ℕ
mac i = 16 + i

-- An Announce message of domain 0 with the priority 100, from the port 7.
abbrev announce : ℕ → ℕ
announce i =
    if i == 0 then 11 else if i == 1 then 2 else if i == 29 then 7 else if i == 47 then 100 else 0

run-init-IsValid_example :
    IsValid
      (run (tick env 5 ∷ message env announce 64 320 0 ∷ tick env 2000 ∷ []) (init mac 0) clock).0
      (run (tick env 5 ∷ message env announce 64 320 0 ∷ tick env 2000 ∷ []) (init mac 0) clock).1
run-init-IsValid_example =
    run-init-IsValid mac 0 (tick env 5 ∷ message env announce 64 320 0 ∷ tick env 2000 ∷ []) clock
      (omega arith, omega arith)

handle_announce-BestOf_example :
    BestOf (announced announce) (init mac 0) (handle_announce announce 64 (init mac 0))
handle_announce-BestOf_example = handle_announce-BestOf announce 64 (init mac 0) (omega arith)

-- Request 5 is outstanding; it left at 1000 ns, and the last Sync took 700 ns.
abbrev asking : Core
asking = record (init mac 0) {
  dreq_outstanding = true;
  dreq_seq = 5;
  t3_ns = pos 1000;
  t3_epoch = 4;
  ms_valid = true;
  ms_leg = pos 700;
  ms_epoch = 4;
}

-- The answer: it reached the master at 1300 ns.
abbrev answer : ℕ → ℕ
answer i =
    if i == 31
    then 5
    else if i == 42
    then 5
    else if i == 43
    then 20
    else if leb 44 i && ltb i 54
    then asking.self_id (i - 44)
    else 0

answer-Answers : Answers answer 54 asking clock
unfolding init reset_measurements identity cmp_from rd16
answer-Answers = record {
  long = omega arith;
  outstanding = refl;
  sequence = refl;
  for_us = refl;
  leg = refl;
  request_epoch = refl;
  leg_epoch = refl;
}

answer-Legs : Legs answer asking (pos 500) (pos 200)
unfolding init reset_measurements identity ◌+ℤ◌ ◌-ℤ◌ ◌*ℤ◌ wrap quot rd_ts_ns rd_corr_ns rd32
    be_bytes
answer-Legs = record { there = refl; back = refl; near = (omega arith, omega arith) }

handle_delay_resp-Legs_example : handle_delay_resp env answer 54 asking clock ≡ record asking {
  dreq_outstanding = false;
  delay = delay_add env.samples (pos 500) asking.delay;
}
handle_delay_resp-Legs_example =
    handle_delay_resp-Legs env answer 54 asking clock (pos 500) (pos 200) answer-Answers answer-Legs

-- A request is due.
abbrev due : Core
due = record (init mac 0) {
  have_master = true;
  announce_timeout_ms = 3500;
  dreq_due = true;
  servo = record (init mac 0).servo { state = stepped };
}

due_sent : (poll env 1000 due clock).dreq_seq ≢ due.dreq_seq
unfolding poll init reset_measurements send_delay_req transmit note_sent
due_sent = omega arith

abbrev arrivals : List Arrival
arrivals = record { env = env; buf = announce; len = 64; port = 320; rx_cnt = 7 } ∷ []

poll-rate_example :
    (poll env 1899
      (receive_all arrivals (poll env 1000 due clock) clock).0
      (receive_all arrivals (poll env 1000 due clock) clock).1).dreq_seq
    ≡ (poll env 1000 due clock).dreq_seq
poll-rate_example = poll-rate env env 1000 1899 arrivals due clock due_sent (omega arith)

abbrev origin : Timestamp
origin = record { lsb = 77; msb = 0; nanoseconds_field = 5 }

rx-own_request_example :
    rx env (pack_delay_req env.bytes (init mac 0).self 9 origin).1 44 319 3 (init mac 0) clock
    ≡ (init mac 0, clock)
rx-own_request_example =
    rx-own_request env mac 0 env.bytes 9 origin 44 319 3 (init mac 0) clock refl

-- Two masters that differ in their grandmaster, and a third one with a better class.
abbrev grandmaster : ℕ → ℕ → Dataset
grandmaster class id = record {
  prio1 = 128;
  clk_class = class;
  clk_accuracy = 33;
  variance = 20061;
  prio2 = 128;
  gm_id = λ i. if i == 7 then id else 0;
  steps_removed = 0;
  port_id = λ i. i;
}

dataset_cmp-rank_example :
    dataset_cmp (grandmaster 248 1) (grandmaster 248 2)
    ≡ compare_rows (rank (grandmaster 248 1)) (rank (grandmaster 248 2))
dataset_cmp-rank_example = dataset_cmp-rank (grandmaster 248 1) (grandmaster 248 2)

abbrev samples : Delay
samples = record { win = λ i. if i == 0 then pos 50 else pos 10; n = 2; idx = 2; ns = pos 30 }

delay_add-median_example :
    IsWindow (delay_add env.samples (pos 20) samples)
    × (l : List ℤ) × Joined (pos 20) samples l
    × MedianOf (delay_add env.samples (pos 20) samples) l
delay_add-median_example = delay_add-median env.samples (pos 20) samples (inl (omega arith, refl))

isqrt64-IsRoot_example : (r : ℕ) × (isqrt64 1000000007 ≡ some r) × IsRoot 1000000007 r
isqrt64-IsRoot_example = isqrt64-IsRoot 1000000007 (omega arith)
