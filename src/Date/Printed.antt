-- ===== src/Date/Printed.antt =====
-- Proofs on `asngn_time_format_rfc3339` and `asngn_time_parse_rfc3339` of src/time.c.
use asterism_asngn.Common.{
  ℕ, ◌*◌, ◌/◌, ◌%◌, ◌≤◌, ◌<◌, ◌≡◌, refl, sym, ◌∙◌, ap, arith, true, ◌&&◌, leb, if_true, and_true,
  le→leb, some, [], ◌∷◌, Bytes, drop,
}
use asterism_asngn.Common.Int.{ℤ, pos, negsuc, ◌+ℤ◌, ◌-ℤ◌, int_laws}
use asterism_asngn.Common.Maybe.{>>=-of-some}
use asterism_asngn.Date.Calendar.{
  days_in_month-le, civil_from_days-IsDay, days_from_civil-civil_from_days,
}
use asterism_asngn.Date.{
  Date, times, days_in_month, days_from_civil, civil_from_days, parse_digits, read_date, read_clock,
  skip_fraction, read_offset, to_time, parse_rfc3339, split_day, two_digits, digit, print_fields,
  format_rfc3339, printed_year,
}

plus_none : (x : ℤ) → x +ℤ pos (0 * 400) ≡ x
plus_none x = grind int_laws

parse_digits-two : (n : ℕ) (s : Bytes) → n < 100 → parse_digits 2 (two_digits n s) ≡ some n
unfolding parse_digits
parse_digits-two n s h = ground arith

parse_digits-four :
    (n : ℕ) (s : Bytes)
    → n < 10000
    → parse_digits 4 (digit (n / 1000) ∷ digit (n / 100) ∷ digit (n / 10) ∷ digit n ∷ s) ≡ some n
unfolding parse_digits
parse_digits-four n s h = ground arith

module _ (y m d sod : ℕ) (hy : y < 10000) (hm : m < 100) (hd : d < 100) (hs : sod < 86400) where
  read_date-print_fields : read_date (print_fields y m d sod) ≡ some (y, m, d)
  unfolding read_date print_fields
  read_date-print_fields =
      >>=-of-some _ (parse_digits-four y _ hy)
      ∙ >>=-of-some _ (parse_digits-two m _ hm)
      ∙ >>=-of-some _ (parse_digits-two d _ hd)

  read_clock-print_fields :
      read_clock (print_fields y m d sod) ≡ some (sod / 3600, sod / 60 % 60, sod % 60)
  unfolding read_clock print_fields
  read_clock-print_fields =
      >>=-of-some _ (parse_digits-two (sod / 3600) _ (omega arith))
      ∙ >>=-of-some _ (parse_digits-two (sod / 60 % 60) _ (omega arith))
      ∙ >>=-of-some _ (parse_digits-two (sod % 60) _ (omega arith))

  skip_fraction-print_fields : skip_fraction (drop 19 (print_fields y m d sod)) ≡ some (b'Z' ∷ [])
  unfolding skip_fraction print_fields
  skip_fraction-print_fields = refl

  -- The fields of a date and a time that are in range are read back.
  parse_rfc3339-print_fields :
      1 ≤ m
      → m ≤ 12
      → 1 ≤ d
      → d ≤ days_in_month y m
      → parse_rfc3339 (print_fields y m d sod)
        ≡ some
            (times (days_from_civil (record { year = pos y; month = m; day = d })) 86400 +ℤ pos sod)
  unfolding parse_rfc3339 read_offset to_time
  parse_rfc3339-print_fields h1 h2 h3 h4 =
      >>=-of-some _ read_date-print_fields
      ∙ >>=-of-some _ read_clock-print_fields
      ∙ >>=-of-some _ skip_fraction-print_fields
      ∙ if_true _ _ (and_true (le→leb 1 m h1) (le→leb m 12 h2))
      ∙ if_true _ _ (and_true (le→leb 1 d h3) (le→leb d (days_in_month y m) h4))
      ∙ if_true _ _ clock_fits
      ∙ ap some
          (sum_fields (times (days_from_civil (record { year = pos y; month = m; day = d })) 86400))
    where
      clock_fits : (leb (sod / 3600) 23 && leb (sod / 60 % 60) 59 && leb (sod % 60) 60) ≡ true
      clock_fits = ground arith

      sum_fields :
          (x : ℤ)
          → x +ℤ pos (sod / 3600 * 3600) +ℤ pos (sod / 60 % 60 * 60) +ℤ pos (sod % 60) +ℤ pos 0
            ≡ x +ℤ pos sod
      sum_fields x = grind int_laws

-- A time is its day and its second of the day.
split_day-Splits :
    (t : ℤ) → (times (split_day t).0 86400 +ℤ pos (split_day t).1 ≡ t) × ((split_day t).1 < 86400)
unfolding split_day times ◌+ℤ◌ ◌-ℤ◌
split_day-Splits (pos n) = ground arith
split_day-Splits (negsuc n) = ground arith

printed_year-pos : (y : ℕ) → y < 10000 → printed_year (pos y) ≡ y
unfolding printed_year
printed_year-pos y h = ground arith

-- A time in one of the years 0 to 9999 is printed as a text that parses to this time.
pub parse_rfc3339-format_rfc3339 :
    (t : ℤ) (y : ℕ)
    → (civil_from_days (split_day t).0).year ≡ pos y
    → y < 10000
    → parse_rfc3339 (format_rfc3339 t) ≡ some t
unfolding format_rfc3339
parse_rfc3339-format_rfc3339 t y e small =
    let (days, sod) = split_day t in
    let (whole, second) = split_day-Splits t in
    let c = civil_from_days days in
    let (m1, m12, d1, fits) = civil_from_days-IsDay days 0 y (plus_none c.year ∙ e) in
    let printed : printed_year c.year ≡ y = ap printed_year e ∙ printed_year-pos y small in
    let same : record { year = pos y; month = c.month; day = c.day } ≡ c =
      ap (λ (x : ℤ). record { year = x; month = c.month; day = c.day }) (sym e) in
    ap (λ x. parse_rfc3339 (print_fields x c.month c.day sod)) printed
    ∙ parse_rfc3339-print_fields y c.month c.day sod small (omega (arith, m12))
        (omega (arith, fits, days_in_month-le y c.month m1 m12)) second m1 m12 d1 fits
    ∙ ap (λ (x : Date). some (times (days_from_civil x) 86400 +ℤ pos sod)) same
    ∙ ap (λ x. some (times x 86400 +ℤ pos sod)) (days_from_civil-civil_from_days days)
    ∙ ap some whole
