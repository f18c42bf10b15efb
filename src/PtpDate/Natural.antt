-- ===== src/PtpDate/Natural.antt =====
-- The formulas of the date on numbers that are not negative.
use flint_rtos.Base.{ℕ, ◌+◌, ◌-◌, ◌*◌, ◌/◌, ◌≤◌, ◌<◌, ◌≡◌, refl, arith, ap, if◌then◌else◌}
use flint_rtos.Int.{pos, ◌+ℤ◌, ◌-ℤ◌, ◌*ℤ◌, quot, ltb_ℤ}
use flint_rtos.PtpDate.{Civil, year_of_era, day_of_year, month_and_day}

pub plus_pos : (a b : ℕ) → pos a +ℤ pos b ≡ pos (a + b)
unfolding ◌+ℤ◌
plus_pos a b = ground arith

pub minus_pos : (a b : ℕ) → b ≤ a → pos a -ℤ pos b ≡ pos (a - b)
unfolding ◌-ℤ◌
minus_pos a b le = ground arith

pub times_pos : (a k : ℕ) → pos a *ℤ k ≡ pos (a * k)
unfolding ◌*ℤ◌
times_pos a k = ground arith

pub quot_pos : (a d : ℕ) → 0 / d ≡ 0 → quot (pos a) d ≡ pos (a / d)
unfolding quot
quot_pos a d e = rw e (ground arith)

-- The year of the era by the code's formula, and the days before a year that begins in March.
abbrev pub nat_year : ℕ → ℕ
nat_year doe = (doe - doe / 1460 + doe / 36524 - doe / 146096) / 365

abbrev pub march_year : ℕ → ℕ
march_year yoe = 365 * yoe + yoe / 4 - yoe / 100

pub nat_year-start : (doe : ℕ) → doe < 146097 → march_year (nat_year doe) ≤ doe
nat_year-start doe lt = omega arith

pub nat_year-end : (doe : ℕ) → doe < 146097 → doe ≤ 365 + march_year (nat_year doe)
nat_year-end doe lt = omega arith

pub year-pos : (doe : ℕ) → doe < 146097 → year_of_era (pos doe) ≡ pos (nat_year doe)
unfolding year_of_era
year-pos doe lt =
    rw
      (
        quot_pos doe 1460 refl,
        quot_pos doe 36524 refl,
        quot_pos doe 146096 refl,
        minus_pos doe (doe / 1460) (omega arith),
        plus_pos (doe - doe / 1460) (doe / 36524),
        minus_pos (doe - doe / 1460 + doe / 36524) (doe / 146096) (omega arith),
      )
      (quot_pos _ 365 refl)

pub day-pos :
    (doe y : ℕ) → march_year y ≤ doe → day_of_year (pos doe) (pos y) ≡ pos (doe - march_year y)
unfolding day_of_year
day-pos doe y le =
    rw
      (
        times_pos y 365,
        quot_pos y 4 refl,
        quot_pos y 100 refl,
        plus_pos (y * 365) (y / 4),
        minus_pos (y * 365 + y / 4) (y / 100) (omega arith),
        minus_pos doe (y * 365 + y / 4 - y / 100) (omega arith),
      )
      (ap pos (omega arith))

pub late_month :
    (mp : ℕ)
    → mp ≤ 9
    → (if ltb_ℤ (pos mp) (pos 10) then pos mp +ℤ pos 3 else pos mp -ℤ pos 9) ≡ pos (mp + 3)
late_month mp le = rw (plus_pos mp 3) (ground (arith, le))

pub early_month :
    (mp : ℕ)
    → 9 < mp
    → mp ≤ 11
    → (if ltb_ℤ (pos mp) (pos 10) then pos mp +ℤ pos 3 else pos mp -ℤ pos 9) ≡ pos (mp - 9)
early_month mp gt le = rw (minus_pos mp 9 (omega arith)) (ground (arith, gt))

-- A date with parts that are not negative.
abbrev pub nat_date : ℕ → ℕ → ℕ → Civil
nat_date y m d = record { year = pos y; month = pos m; day = pos d }

module _ (y doy : ℕ) (small : doy ≤ 365) where
  pub late_date :
      (doy * 5 + 2) / 153 ≤ 9
      → month_and_day (pos y) (pos doy)
        ≡ nat_date y ((doy * 5 + 2) / 153 + 3) (doy - ((doy * 5 + 2) / 153 * 153 + 2) / 5 + 1)
  unfolding month_and_day
  late_date le =
      let mp = (doy * 5 + 2) / 153 in
      rw
        (
          times_pos doy 5,
          plus_pos (doy * 5) 2,
          quot_pos (doy * 5 + 2) 153 refl,
          times_pos mp 153,
          plus_pos (mp * 153) 2,
          quot_pos (mp * 153 + 2) 5 refl,
          minus_pos doy ((mp * 153 + 2) / 5) (omega arith),
          plus_pos (doy - (mp * 153 + 2) / 5) 1,
          late_month mp le,
        )
        (ground (arith, le))

  pub early_date :
      9 < (doy * 5 + 2) / 153
      → month_and_day (pos y) (pos doy)
        ≡ nat_date (y + 1) ((doy * 5 + 2) / 153 - 9) (doy - ((doy * 5 + 2) / 153 * 153 + 2) / 5 + 1)
  unfolding month_and_day
  early_date gt =
      let mp = (doy * 5 + 2) / 153 in
      let top : mp ≤ 11 = omega arith in
      rw
        (
          times_pos doy 5,
          plus_pos (doy * 5) 2,
          quot_pos (doy * 5 + 2) 153 refl,
          times_pos mp 153,
          plus_pos (mp * 153) 2,
          quot_pos (mp * 153 + 2) 5 refl,
          minus_pos doy ((mp * 153 + 2) / 5) (omega arith),
          plus_pos (doy - (mp * 153 + 2) / 5) 1,
          early_month mp gt top,
          plus_pos y 1,
        )
        (ground (arith, gt, top))

pub nat_year-below : (doe : ℕ) → doe < 146097 → nat_year doe < 400
nat_year-below doe lt = omega arith

pub nat_year-next :
    (doe : ℕ) → doe < 146097 → doe < march_year (nat_year doe + 1) + (nat_year doe + 1) / 400
nat_year-next doe lt = omega arith
