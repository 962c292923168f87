-- ===== src/Date.antt =====
-- Dates and times of RFC 3339: the calendar of src/time.c, `asngn_time_parse_rfc3339` and
-- `asngn_time_format_rfc3339`. A time is an integer, its `int64_t` being in range; a failed parse is none.
-- The character behind a text is the NUL.
use asterism_asngn.Common.{
  ℕ, zero, suc, ◌+◌, ◌-◌, ◌*◌, ◌/◌, ◌%◌, ◌≡◌, Bool, true, false, not, ◌&&◌, ◌||◌, Option, none,
  some, List, [], ◌∷◌, leb, ltb, within, ◌==◌, if◌then◌else◌, Bytes, drop, get_or,
}
use asterism_asngn.Common.Int.{ℤ, pos, negsuc, pos_part, sub_ℕ, ◌+ℤ◌, ◌-ℤ◌, ltb_ℤ}
use asterism_asngn.Common.Maybe.{◌>>=◌}
pub mod Era
pub mod Calendar
pub mod Printed

-- The quotient of C, towards zero, and the product with a number.
unfoldable pub quotient : ℤ → ℕ → ℤ
quotient (pos n) d = pos (n / d)
quotient (negsuc n) d = sub_ℕ 0 (suc n / d)

unfoldable pub times : ℤ → ℕ → ℤ
times (pos n) k = pos (n * k)
times (negsuc n) k = sub_ℕ 0 (suc n * k)

-- The blocks of `size` that lie in front of `z`, counted from 0 and downwards below it.
unfoldable pub era_of : ℤ → ℕ → ℤ
era_of z size = quotient (if ltb_ℤ z (pos 0) then z -ℤ pos (size - 1) else z) size

-- A date: the year may lie outside what is printed.
pub record Date : Type 0 where
  pub year : ℤ
  pub month : ℕ
  pub day : ℕ

-- The days of an era in front of a year of it.
unfoldable pub year_start : ℕ → ℕ
year_start yoe = yoe * 365 + yoe / 4 - yoe / 100

-- `days_from_civil`.
unfoldable pub days_from_civil : Date → ℤ
days_from_civil c =
    let y = if leb c.month 2 then c.year -ℤ pos 1 else c.year in
    let era = era_of y 400 in
    let yoe = pos_part (y -ℤ times era 400) in
    let mp = if ltb 2 c.month then c.month - 3 else c.month + 9 in
    let doy = (153 * mp + 2) / 5 + c.day - 1 in
    let doe = year_start yoe + doy in times era 146097 +ℤ pos doe -ℤ pos 719468

-- The year of an era that a day of it falls into, and the date within that year, which starts in March.
unfoldable pub year_of : ℕ → ℕ
year_of doe = (doe - doe / 1460 + doe / 36524 - doe / 146096) / 365

unfoldable pub month_of : ℕ → ℕ
month_of doy = (5 * doy + 2) / 153

-- `civil_from_days`.
unfoldable pub civil_from_days : ℤ → Date
civil_from_days days =
    let z = days +ℤ pos 719468 in
    let era = era_of z 146097 in
    let doe = pos_part (z -ℤ times era 146097) in
    let yoe = year_of doe in
    let y = pos yoe +ℤ times era 400 in
    let doy = doe - year_start yoe in
    let mp = month_of doy in
    let d = doy - (153 * mp + 2) / 5 + 1 in
    let m = if ltb mp 10 then mp + 3 else mp - 9 in
    record { year = if leb m 2 then y +ℤ pos 1 else y; month = m; day = d }

unfoldable pub is_leap : ℕ → Bool
is_leap y = ((y % 4 == 0) && not (y % 100 == 0)) || (y % 400 == 0)

unfoldable pub days_in_month : ℕ → ℕ → ℕ
days_in_month y m =
    if m == 2 && is_leap y
    then 29
    else get_or (31 ∷ 28 ∷ 31 ∷ 30 ∷ 31 ∷ 30 ∷ 31 ∷ 31 ∷ 30 ∷ 31 ∷ 30 ∷ 31 ∷ []) (m - 1) 0

-- `parse_digits`: `n` digits in front of a text.
unfoldable pub digits_from : ℕ → ℕ → Bytes → Option ℕ
digits_from zero v s = some v
digits_from (suc n) v [] = none
digits_from (suc n) v (ch ∷ s) =
    let later = digits_from n (v * 10 + (ch - b'0')) s in
    if within b'0' b'9' ch then later else none

unfoldable pub parse_digits : ℕ → Bytes → Option ℕ
unfolding digits_from
parse_digits n s = digits_from n 0 s

-- The rest of a parse that a failed test ends.
abbrev pub when {ℓ} : {A : Type ℓ} → Bool → Option A → Option A
when b later = if b then later else none

-- The year, the month and the day in front of a text.
unfoldable pub read_date : Bytes → Option (ℕ × ℕ × ℕ)
read_date s = parse_digits 4 s >>= λ y. when (get_or s 4 0 == b'-') (
    parse_digits 2 (drop 5 s) >>= λ mo.
    when (get_or s 7 0 == b'-') (parse_digits 2 (drop 8 s) >>= λ d. some (y, mo, d)))

-- The hour, the minute and the second, from position 10 on.
unfoldable pub read_clock : Bytes → Option (ℕ × ℕ × ℕ)
read_clock s = when (get_or s 10 0 == b'T' || get_or s 10 0 == b't') (
    parse_digits 2 (drop 11 s) >>= λ h. when (get_or s 13 0 == b':') (
      parse_digits 2 (drop 14 s) >>= λ mi.
      when (get_or s 16 0 == b':') (parse_digits 2 (drop 17 s) >>= λ se. some (h, mi, se))))

unfoldable pub skip_digits : Bytes → Bytes
skip_digits [] = []
skip_digits (ch ∷ s) = let rest = skip_digits s in if within b'0' b'9' ch then rest else ch ∷ s

-- A fraction of a second is passed over.
unfoldable pub skip_fraction : Bytes → Option Bytes
skip_fraction s =
    if get_or s 0 0 == b'.'
    then when (within b'0' b'9' (get_or s 1 0)) (some (skip_digits (drop 1 s)))
    else some s

-- The seconds that the offset adds, and the text behind it.
unfoldable pub read_offset : Bytes → Option (ℤ × Bytes)
read_offset [] = none
read_offset (sign ∷ s) =
    if sign == b'Z' || sign == b'z'
    then some (pos 0, s)
    else when (sign == b'+' || sign == b'-') (
        parse_digits 2 s >>= λ offh. when (get_or s 2 0 == b':') (
          parse_digits 2 (drop 3 s) >>= λ offm. when (leb offh 23 && leb offm 59) (
            let off = offh * 3600 + offm * 60 in
            some ((if sign == b'+' then sub_ℕ 0 off else pos off), drop 5 s))))

-- The checks on the fields, and the time.
unfoldable pub to_time : ℕ × ℕ × ℕ → ℕ × ℕ × ℕ → ℤ × Bytes → Option ℤ
to_time (y, mo, d) (h, mi, se) (off, rest) = when (get_or rest 0 0 == 0) (
    when (leb 1 mo && leb mo 12) (
      when (leb 1 d && leb d (days_in_month y mo)) (
        when (leb h 23 && leb mi 59 && leb se 60) (
          let days = days_from_civil (record { year = pos y; month = mo; day = d }) in
          some (times days 86400 +ℤ pos (h * 3600) +ℤ pos (mi * 60) +ℤ pos se +ℤ off)))))

-- `asngn_time_parse_rfc3339`.
unfoldable pub parse_rfc3339 : Bytes → Option ℤ
parse_rfc3339 s = read_date s >>= λ date. read_clock s >>= λ clock.
    skip_fraction (drop 19 s) >>= λ rest. read_offset rest >>= λ offset. to_time date clock offset

-- The day of a time and the second of the day, with the remainder of C, which takes the sign of `t`.
unfoldable pub split_day : ℤ → ℤ × ℕ
split_day (pos n) = (pos (n / 86400), n % 86400)
split_day (negsuc n) =
    let days = sub_ℕ 0 (suc n / 86400) in
    let sod = sub_ℕ 0 (suc n % 86400) in
    if ltb_ℤ sod (pos 0) then (days -ℤ pos 1, pos_part (sod +ℤ pos 86400)) else (days, pos_part sod)

abbrev pub digit : ℕ → ℕ
digit k = b'0' + k % 10

abbrev pub two_digits : ℕ → Bytes → Bytes
two_digits k rest = (b'0' + k / 10) ∷ digit k ∷ rest

-- The year that is printed.
unfoldable pub printed_year : ℤ → ℕ
printed_year y = if ltb_ℤ y (pos 0) then 0 else if ltb_ℤ (pos 9999) y then 9999 else pos_part y

unfoldable pub print_fields : ℕ → ℕ → ℕ → ℕ → Bytes
print_fields uy m d sod =
    digit (uy / 1000)
    ∷ digit (uy / 100)
    ∷ digit (uy / 10)
    ∷ digit uy
    ∷ b'-'
    ∷ two_digits m (
        b'-'
        ∷ two_digits d (
            b'T'
            ∷ two_digits (sod / 3600)
                (b':' ∷ two_digits (sod / 60 % 60) (b':' ∷ two_digits (sod % 60) (b'Z' ∷ [])))))

-- `asngn_time_format_rfc3339`.
unfoldable pub format_rfc3339 : ℤ → Bytes
format_rfc3339 t =
    let (days, sod) = split_day t in
    let c = civil_from_days days in print_fields (printed_year c.year) c.month c.day sod
