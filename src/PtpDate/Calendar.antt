-- ===== src/PtpDate/Calendar.antt =====
-- The date that is printed is the one of the Gregorian calendar.
use flint_rtos.Base.{
  ℕ, ◌+◌, ◌-◌, ◌*◌, ◌/◌, ◌%◌, ◌≤◌, ◌<◌, ◌≡◌, refl, sym, subst, inl, inr, Bool-cases, arith, Bool,
  not, ◌==◌, ◌&&◌, ◌||◌, leb, if◌then◌else◌,
}
use flint_rtos.Int.{pos}
use flint_rtos.PtpDate.{Civil, month_and_day, civil_from_days}
use flint_rtos.PtpDate.Natural.{
  plus_pos, minus_pos, times_pos, quot_pos, nat_year, march_year, nat_year-start, nat_year-below,
  nat_year-next, year-pos, day-pos, nat_date, late_date, early_date,
}

abbrev pub is_leap : ℕ → Bool
is_leap y = y % 4 == 0 && (not (y % 100 == 0) || y % 400 == 0)

abbrev pub leap_day : ℕ → ℕ
leap_day y = if is_leap y then 1 else 0

-- The days of a year before a month, in a year with `leap` leap days.
abbrev pub days_before : ℕ → ℕ → ℕ
days_before leap m =
    if m == 1
    then 0
    else if m == 2
    then 31
    else if m == 3
    then 59 + leap
    else if m == 4
    then 90 + leap
    else if m == 5
    then 120 + leap
    else if m == 6
    then 151 + leap
    else if m == 7
    then 181 + leap
    else if m == 8
    then 212 + leap
    else if m == 9
    then 243 + leap
    else if m == 10
    then 273 + leap
    else if m == 11
    then 304 + leap
    else if m == 12
    then 334 + leap
    else 365 + leap

abbrev pub before_month : ℕ → ℕ → ℕ
before_month y m = days_before (leap_day y) m

-- The leap years before the year `suc y`.
abbrev pub leap_years : ℕ → ℕ
leap_years y = y / 4 + y / 400 - y / 100

-- A date of the calendar, with a year from 1 on, that is `n` days after the first of January 1970.
pub record IsDate (n y m d : ℕ) : Type 0 where
  pub month : (1 ≤ m) × (m ≤ 12)
  pub day : (1 ≤ d) × (before_month y m + d ≤ before_month y (m + 1))
  pub number : 365 * (y - 1) + leap_years (y - 1) + before_month y m + (d - 1) ≡ 719162 + n

leap_count : (y : ℕ) → leap_years (y + 1) ≡ leap_years y + leap_day (y + 1)
leap_count y = ground arith

-- From March to December, and January and February.
days_before-late :
    (leap mp : ℕ) → mp ≤ 9 → days_before leap (mp + 3) ≡ (mp * 153 + 2) / 5 + 59 + leap
days_before-late leap mp le = ground arith

days_before-next :
    (leap mp : ℕ) → mp ≤ 9 → days_before leap (mp + 4) ≡ ((mp + 1) * 153 + 2) / 5 + 59 + leap
days_before-next leap mp le = ground arith

days_before-early :
    (leap mp : ℕ)
    → 9 < mp
    → mp ≤ 11
    → (days_before leap (mp - 9) ≡ (mp * 153 + 2) / 5 - 306)
      × (days_before leap (mp - 9 + 1) ≡ (if mp == 10 then 31 else 59 + leap))
days_before-early leap mp gt le = (ground arith, ground arith)

-- The date is that of the day `n`.
abbrev pub DateOf : ℕ → Civil → Type 0
DateOf n c = (y : ℕ) × (m : ℕ) × (d : ℕ) × (c ≡ nat_date y m d) × IsDate n y m d

-- A day of the year that begins in March after `Y` years.
IsDate-late :
    (n y doy : ℕ)
    → 1 ≤ y
    → doy ≤ 365
    → 365 * y + leap_years y + doy ≡ n + 719468
    → (doy * 5 + 2) / 153 ≤ 9
    → IsDate n y ((doy * 5 + 2) / 153 + 3) (doy - ((doy * 5 + 2) / 153 * 153 + 2) / 5 + 1)
IsDate-late n y doy some small count le =
    let mp = (doy * 5 + 2) / 153 in
    let leap : ℕ = leap_day y in
    let before = days_before-late leap mp le in
    let next = days_before-next leap mp le in
    let up : mp + 3 + 1 ≡ mp + 4 = omega arith in
    let last : y - 1 + 1 ≡ y = omega arith in
    let leaps : leap_years y ≡ leap_years (y - 1) + leap =
      subst (λ k. leap_years k ≡ leap_years (y - 1) + leap_day k) last (leap_count (y - 1)) in
    record {
      month = (omega arith, omega arith);
      day = (omega arith, rw (up, before, next) (omega arith));
      number = rw before (omega (arith, leaps));
    }

IsDate-early :
    (n y doy : ℕ)
    → doy < 365 + leap_day (y + 1)
    → 365 * y + leap_years y + doy ≡ n + 719468
    → 9 < (doy * 5 + 2) / 153
    → IsDate n (y + 1) ((doy * 5 + 2) / 153 - 9) (doy - ((doy * 5 + 2) / 153 * 153 + 2) / 5 + 1)
IsDate-early n y doy small count gt =
    let mp = (doy * 5 + 2) / 153 in
    let leap : ℕ = leap_day (y + 1) in
    let one : leap_day (y + 1) ≤ 1 = ground arith in
    let top : mp ≤ 11 = omega arith in
    let again : y + 1 - 1 ≡ y = omega arith in
    let before = (days_before-early leap mp gt top).0 in
    let next = (days_before-early leap mp gt top).1 in
    record {
      month = (omega arith, omega arith);
      day = (omega arith, rw (before, next) (ground (arith, small, one, gt, top)));
      number = rw (again, before) (omega (arith, count, gt));
    }

march_date :
    (n y doy : ℕ)
    → 1 ≤ y
    → doy < 365 + leap_day (y + 1)
    → 365 * y + leap_years y + doy ≡ n + 719468
    → DateOf n (month_and_day (pos y) (pos doy))
march_date n y doy some small count =
    let one : leap_day (y + 1) ≤ 1 = ground arith in
    let most : doy ≤ 365 = omega (arith, small, one) in
    elim (Bool-cases (leb ((doy * 5 + 2) / 153) 9)) [
      | inl e ↦
          let le : (doy * 5 + 2) / 153 ≤ 9 = ground (arith, e) in
          (_, _, _, late_date y doy most le, IsDate-late n y doy some most count le)
      | inr e ↦
          let gt : 9 < (doy * 5 + 2) / 153 = ground (arith, e) in
          (_, _, _, early_date y doy most gt, IsDate-early n y doy small count gt)
    ]

-- The day `doe` of the era `era`, and the year `yoe` of it.
module _ (n era doe yoe : ℕ) (count : era * 146097 + doe ≡ n + 719468) (below : yoe < 400) where
  march-number :
      march_year yoe ≤ doe
      → 365 * (yoe + era * 400) + leap_years (yoe + era * 400) + (doe - march_year yoe) ≡ n + 719468
  march-number start = omega (arith, count)

  march-small :
      doe < march_year (yoe + 1) + (yoe + 1) / 400
      → doe - march_year yoe < 365 + leap_day (yoe + era * 400 + 1)
  march-small next = let counted = leap_count (yoe + era * 400) in omega (arith, counted, next)

civil-pos :
    (n : ℕ)
    → civil_from_days (pos n)
      ≡ month_and_day
          (pos (nat_year ((n + 719468) % 146097) + (n + 719468) / 146097 * 400))
          (pos ((n + 719468) % 146097 - march_year (nat_year ((n + 719468) % 146097))))
unfolding civil_from_days
civil-pos n =
    let z = n + 719468 in
    let era = z / 146097 in
    let doe = z % 146097 in
    let left : z - era * 146097 ≡ doe = omega arith in
    let lt : doe < 146097 = omega arith in
    rw
      (
        plus_pos n 719468,
        quot_pos z 146097 refl,
        times_pos era 146097,
        minus_pos z (era * 146097) (omega arith),
        left,
        year-pos doe lt,
        day-pos doe (nat_year doe) (nat_year-start doe lt),
        times_pos era 400,
        plus_pos (nat_year doe) (era * 400),
      )
      refl

-- A day that is `n` days after the first of January 1970 gets the date of the Gregorian calendar, with a
-- year, a month from 1 to 12 and a day within the month, for which the years, the leap days and the months
-- before it and the days of the month add up to `n`.
pub civil_from_days-DateOf : (n : ℕ) → DateOf n (civil_from_days (pos n))
civil_from_days-DateOf n =
    let z = n + 719468 in
    let era = z / 146097 in
    let doe = z % 146097 in
    let lt : doe < 146097 = omega arith in
    let y = nat_year doe + era * 400 in
    let doy = doe - march_year (nat_year doe) in
    let total : era * 146097 + doe ≡ n + 719468 = omega arith in
    let below = nat_year-below doe lt in
    let count = march-number n era doe (nat_year doe) total below (nat_year-start doe lt) in
    let small = march-small n era doe (nat_year doe) total below (nat_year-next doe lt) in
    let some : 1 ≤ y = omega (arith, count) in
    subst (DateOf n) (sym (civil-pos n)) (march_date n y doy some small count)
