-- ===== src/PtpDate.antt =====
-- port/ptp/ptp_core.c: the text of a time. No sum or product leaves int64_t, so that nothing wraps.
pub mod Natural
pub mod Calendar
use flint_rtos.Base.{ℕ, zero, suc, ◌+◌, ◌-◌, ◌*◌, ◌/◌, ◌%◌, not, ltb, if◌then◌else◌, update}
use flint_rtos.Int.{ℤ, pos, ◌+ℤ◌, ◌-ℤ◌, ◌*ℤ◌, quot, rem, is_neg, to_word, ltb_ℤ}
use flint_rtos.PtpTime.{ns_per_s}

unfoldable pub put_num : ℕ → ℕ → ℕ → (ℕ → ℕ) → ℕ → ℕ
put_num at v zero buf = buf
put_num at v (suc width) buf = put_num at (v / 10) width (update buf (at + width) (48 + v % 10))

pub record Civil : Type 0 where
  pub year : ℤ
  pub month : ℤ
  pub day : ℤ

-- The year of the era and the day of that year, which begins in March, of a day of the era.
unfoldable pub year_of_era : ℤ → ℤ
year_of_era doe = quot (doe -ℤ quot doe 1460 +ℤ quot doe 36524 -ℤ quot doe 146096) 365

unfoldable pub day_of_year : ℤ → ℤ → ℤ
day_of_year doe yoe = doe -ℤ (yoe *ℤ 365 +ℤ quot yoe 4 -ℤ quot yoe 100)

-- The date of a day of a year `y` that begins in March.
unfoldable pub month_and_day : ℤ → ℤ → Civil
month_and_day y doy =
    let mp = quot (doy *ℤ 5 +ℤ pos 2) 153 in
    let m = if ltb_ℤ mp (pos 10) then mp +ℤ pos 3 else mp -ℤ pos 9 in
    record {
      year = if not (ltb_ℤ (pos 2) m) then y +ℤ pos 1 else y;
      month = m;
      day = doy -ℤ quot (mp *ℤ 153 +ℤ pos 2) 5 +ℤ pos 1;
    }

-- The date of a day, counted from the first of January 1970.
unfoldable pub civil_from_days : ℤ → Civil
civil_from_days z =
    let zz = z +ℤ pos 719468 in
    let era = quot (if is_neg zz then zz -ℤ pos 146096 else zz) 146097 in
    let doe = zz -ℤ era *ℤ 146097 in
    let yoe = year_of_era doe in month_and_day (yoe +ℤ era *ℤ 400) (day_of_year doe yoe)

-- The date, and the second `sod` of the day with its nanoseconds.
unfoldable pub put_time : Civil → ℤ → ℤ → (ℕ → ℕ) → ℕ → ℕ
put_time date sod ns buf =
    let b1 = update (put_num 0 (to_word 32 date.year) 4 buf) 4 b'-' in
    let b2 = update (put_num 5 (to_word 32 date.month) 2 b1) 7 b'-' in
    let b3 = update (put_num 8 (to_word 32 date.day) 2 b2) 10 b' ' in
    let b4 = update (put_num 11 (to_word 32 (quot sod 3600)) 2 b3) 13 b':' in
    let b5 = update (put_num 14 (to_word 32 (rem (quot sod 60) 60)) 2 b4) 16 b':' in
    let b6 = update (put_num 17 (to_word 32 (rem sod 60)) 2 b5) 19 b'.' in
    update (put_num 20 (to_word 32 (quot ns 1000)) 6 b6) 26 0

unfoldable pub format_utc : ℤ → (ℕ → ℕ) → ℕ → ℕ
format_utc utc_ns buf =
    let q = quot utc_ns ns_per_s in
    let r = rem utc_ns ns_per_s in
    let secs = if is_neg r then q -ℤ pos 1 else q in
    let ns = if is_neg r then r +ℤ pos ns_per_s else r in
    let z = if not (is_neg secs) then quot secs 86400 else quot (secs -ℤ pos 86399) 86400 in
    put_time (civil_from_days z) (secs -ℤ z *ℤ 86400) ns buf
