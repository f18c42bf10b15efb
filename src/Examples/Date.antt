-- ===== src/Examples/Date.antt =====
-- The date and the text of a time.
use flint_rtos.Base.{◌≡◌, refl, [], ◌∷◌}
use flint_rtos.Int.{pos, ◌+ℤ◌, ◌-ℤ◌, ◌*ℤ◌, quot, rem}
use flint_rtos.PtpDataset.Order.{bytes_from}
use flint_rtos.PtpDate.{
  put_num, year_of_era, day_of_year, month_and_day, civil_from_days, put_time, format_utc,
}
use flint_rtos.PtpDate.Calendar.{DateOf, civil_from_days-DateOf}

civil_from_days-DateOf_example : DateOf 19675 (civil_from_days (pos 19675))
civil_from_days-DateOf_example = civil_from_days-DateOf 19675

-- "2024-02-29 23:59:59.000001"
leap_day_text :
    bytes_from 26 0 (format_utc (pos 1709251199000001999) (λ i. 0))
    ≡ b'2' ∷ b'0' ∷ b'2' ∷ b'4' ∷ b'-' ∷ b'0' ∷ b'2' ∷ b'-' ∷ b'2' ∷ b'9' ∷ b' ' ∷ b'2' ∷ b'3'
      ∷ b':' ∷ b'5' ∷ b'9' ∷ b':' ∷ b'5' ∷ b'9' ∷ b'.' ∷ b'0' ∷ b'0' ∷ b'0' ∷ b'0' ∷ b'0' ∷ b'1'
      ∷ []
unfolding bytes_from format_utc put_time put_num civil_from_days month_and_day day_of_year
    year_of_era ◌+ℤ◌ ◌-ℤ◌ ◌*ℤ◌ quot rem
leap_day_text = refl
