-- ===== src/Examples/Date.antt =====
-- Examples on the dates and times of src/time.c.
use asterism_asngn.Common.{◌≡◌, ◌≤◌, ◌*◌, refl, Option, none, some, List, [], ◌∷◌, Bytes, arith}
use asterism_asngn.Common.Int.{ℤ, pos, negsuc, ◌+ℤ◌}
use asterism_asngn.Date.{
  civil_from_days, days_from_civil, split_day, parse_rfc3339, format_rfc3339, days_in_month,
}
use asterism_asngn.Date.Calendar.{days_from_civil-civil_from_days, civil_from_days-IsDay}
use asterism_asngn.Date.Printed.{parse_rfc3339-format_rfc3339}

-- The last second of 1969.
before_epoch : (civil_from_days (split_day (negsuc 0)).0).year ≡ pos 1969
unfolding split_day civil_from_days asterism_asngn.Date.month_of asterism_asngn.Common.Int.◌-ℤ◌
    asterism_asngn.Common.Int.◌+ℤ◌ asterism_asngn.Date.times asterism_asngn.Date.era_of
    asterism_asngn.Date.quotient asterism_asngn.Date.year_start asterism_asngn.Date.year_of
before_epoch = refl

parse_rfc3339-format_rfc3339_example : parse_rfc3339 (format_rfc3339 (negsuc 0)) ≡ some (negsuc 0)
parse_rfc3339-format_rfc3339_example =
    parse_rfc3339-format_rfc3339 (negsuc 0) 1969 before_epoch (omega arith)

days_from_civil-civil_from_days_example :
    days_from_civil (civil_from_days (negsuc 719468)) ≡ negsuc 719468
days_from_civil-civil_from_days_example = days_from_civil-civil_from_days (negsuc 719468)

-- 29 February of the year -4, which is as one of 396.
leap_day : (civil_from_days (negsuc 720929)).year +ℤ pos (1 * 400) ≡ pos 396
unfolding civil_from_days asterism_asngn.Date.month_of asterism_asngn.Common.Int.◌-ℤ◌
    asterism_asngn.Common.Int.◌+ℤ◌ asterism_asngn.Date.times asterism_asngn.Date.era_of
    asterism_asngn.Date.quotient asterism_asngn.Date.year_start asterism_asngn.Date.year_of
leap_day = refl

civil_from_days-IsDay_example :
    (1 ≤ (civil_from_days (negsuc 720929)).month)
    × ((civil_from_days (negsuc 720929)).month ≤ 12)
    × (1 ≤ (civil_from_days (negsuc 720929)).day)
    × ((civil_from_days (negsuc 720929)).day
        ≤ days_in_month 396 (civil_from_days (negsuc 720929)).month)
civil_from_days-IsDay_example = civil_from_days-IsDay (negsuc 720929) 1 396 leap_day

-- "2000-02-29T01:00:00.5+01:00"
abbrev leap_text : Bytes
leap_text =
    b'2' ∷ b'0' ∷ b'0' ∷ b'0' ∷ b'-' ∷ b'0' ∷ b'2' ∷ b'-' ∷ b'2' ∷ b'9' ∷ b'T' ∷ b'0' ∷ b'1' ∷ b':'
    ∷ b'0' ∷ b'0' ∷ b':' ∷ b'0' ∷ b'0' ∷ b'.' ∷ b'5' ∷ b'+' ∷ b'0' ∷ b'1' ∷ b':' ∷ b'0' ∷ b'0' ∷ []

parses_leap : parse_rfc3339 leap_text ≡ some (pos 951782400)
unfolding parse_rfc3339 asterism_asngn.Date.read_date asterism_asngn.Date.parse_digits
    asterism_asngn.Date.read_clock asterism_asngn.Date.skip_fraction asterism_asngn.Date.read_offset
    asterism_asngn.Date.skip_digits asterism_asngn.Date.to_time days_in_month
    asterism_asngn.Date.is_leap asterism_asngn.Common.Int.◌+ℤ◌ asterism_asngn.Date.times
    days_from_civil asterism_asngn.Common.Int.◌-ℤ◌ asterism_asngn.Date.era_of
    asterism_asngn.Date.quotient asterism_asngn.Date.year_start
parses_leap = refl
