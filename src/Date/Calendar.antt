-- ===== src/Date/Calendar.antt =====
-- Proofs on the calendar of src/time.c: days and dates.
use asterism_asngn.Common.{
  ℕ, suc, ◌+◌, ◌-◌, ◌*◌, ◌/◌, ◌≤◌, ◌<◌, ◌≡◌, refl, sym, ◌∙◌, ap, subst, arith, Bool, true, false,
  ◌==◌, ltb, leb, ◌&&◌, if◌then◌else◌, leb→le, and_left, and_right, if_true, if_false, ==_iff,
  Bool-cases, ◌⊎◌, inl, inr,
}
use asterism_asngn.Common.Int.{ℤ, pos, negsuc, pos_part, neg_part, ◌+ℤ◌, ◌-ℤ◌, int_laws}
use asterism_asngn.Common.Words.{all_below, all_below_sound}
use asterism_asngn.Date.{
  Date, times, era_of, year_of, year_start, month_of, is_leap, days_in_month, days_from_civil,
  civil_from_days,
}
use asterism_asngn.Date.Era.{
  year_of-year_start, year_of-lt, year_of-next, year_of-is_leap, month_of-day, era_of-days,
  era_of-years, rest_of-years,
}

-- The date of day `doe` of an era.
abbrev civil : ℤ → ℕ → Date
civil era doe =
    let yoe = year_of doe in
    let y = pos yoe +ℤ times era 400 in
    let doy = doe - year_start yoe in
    let mp = month_of doy in
    let d = doy - (153 * mp + 2) / 5 + 1 in
    let m = if ltb mp 10 then mp + 3 else mp - 9 in
    record { year = if leb m 2 then y +ℤ pos 1 else y; month = m; day = d }

-- The month of a date, counted from March, and the year that it starts in.
march_month :
    (mp : ℕ)
    → mp ≤ 11
    → (let m = if ltb mp 10 then mp + 3 else mp - 9 in if ltb 2 m then m - 3 else m + 9) ≡ mp
march_month mp h = ground arith

march_year :
    (y : ℤ) (m : ℕ)
    → (if leb m 2
        then (if leb m 2 then y +ℤ pos 1 else y) -ℤ pos 1
        else (if leb m 2 then y +ℤ pos 1 else y))
      ≡ y
march_year y m = grind int_laws

-- The days in front of a date whose year starts in March.
abbrev days_of : ℤ → ℕ → ℕ → ℕ → ℤ
days_of era yoe mp d =
    times era 146097 +ℤ pos (year_start yoe + ((153 * mp + 2) / 5 + d - 1)) -ℤ pos 719468

days_of-years :
    (era : ℤ) (yoe mp d : ℕ)
    → yoe < 400
    → (let y = pos yoe +ℤ times era 400 in
        days_of (era_of y 400) (pos_part (y -ℤ times (era_of y 400) 400)) mp d)
      ≡ days_of era yoe mp d
days_of-years era yoe mp d h =
    let y = pos yoe +ℤ times era 400 in
    ap (λ e. days_of e (pos_part (y -ℤ times e 400)) mp d) (era_of-years era yoe h)
    ∙ ap (λ k. days_of era k mp d) (rest_of-years era yoe h)

days_from_civil-civil :
    (era : ℤ) (doe : ℕ)
    → doe < 146097
    → days_from_civil (civil era doe) ≡ times era 146097 +ℤ pos doe -ℤ pos 719468
unfolding days_from_civil
days_from_civil-civil era doe h =
    let yoe = year_of doe in
    let doy = doe - year_start yoe in
    let mp = month_of doy in
    let d = doy - (153 * mp + 2) / 5 + 1 in
    let m = if ltb mp 10 then mp + 3 else mp - 9 in
    let y = pos yoe +ℤ times era 400 in
    let (small, starts) = month_of-day doy (year_of-next doe h) in
    let whole : year_start yoe + ((153 * mp + 2) / 5 + d - 1) ≡ doe =
      omega (arith, starts, year_of-year_start doe h) in
    ap
      (λ x.
        days_of (era_of x 400) (pos_part (x -ℤ times (era_of x 400) 400))
          (if ltb 2 m then m - 3 else m + 9) d)
      (march_year y m)
    ∙ ap (λ k. days_of (era_of y 400) (pos_part (y -ℤ times (era_of y 400) 400)) k d)
        (march_month mp small)
    ∙ days_of-years era yoe mp d (year_of-lt doe h)
    ∙ ap (λ k. times era 146097 +ℤ pos k -ℤ pos 719468) whole

-- Every day has a date, from which the day is found again.
pub days_from_civil-civil_from_days : (days : ℤ) → days_from_civil (civil_from_days days) ≡ days
unfolding civil_from_days
days_from_civil-civil_from_days days =
    let z = days +ℤ pos 719468 in
    let (small, whole) = era_of-days z in
    let back : (z -ℤ pos 719468) ≡ days = grind int_laws in
    days_from_civil-civil (era_of z 146097) _ small ∙ ap (λ x. x -ℤ pos 719468) whole ∙ back

-- The year, month and day of an era's day are those of a calendar with leap years.
abbrev pub IsDay : ℕ → ℕ → ℕ → Type 0
IsDay y m d = (1 ≤ m) × (m ≤ 12) × (1 ≤ d) × (d ≤ days_in_month y m)

-- A table of the days of a year that starts in March.
day_fits : ℕ → Bool
unfolding month_of days_in_month is_leap
day_fits doy =
    let mp = month_of doy in
    let m = if ltb mp 10 then mp + 3 else mp - 9 in
    let d = doy - (153 * mp + 2) / 5 + 1 in
    leb 1 m
    && leb m 12
    && leb d (if m == 2 then (if doy == 365 then 29 else 28) else days_in_month 1 m)

day_fits_sound :
    (doy : ℕ)
    → day_fits doy ≡ true
    → (let mp = month_of doy in
        let m = if ltb mp 10 then mp + 3 else mp - 9 in
        (1 ≤ m)
        × (m ≤ 12)
        × (doy - (153 * mp + 2) / 5 + 1
            ≤ (if m == 2 then (if doy == 365 then 29 else 28) else days_in_month 1 m)))
unfolding day_fits
day_fits_sound doy h = (
  leb→le _ _ (and_left _ _ (and_left _ _ h)),
  leb→le _ _ (and_right _ _ (and_left _ _ h)),
  leb→le _ _ (and_right _ _ h),
)

day_fits-all : all_below 366 day_fits ≡ true
unfolding all_below day_fits
day_fits-all = refl

-- A year of an era is a leap year where the year of the calendar is.
years_apart :
    (era : ℤ) (k y : ℕ)
    → pos k +ℤ times era 400 ≡ pos y
    → (q : ℕ) × ((y ≡ k + q * 400) ⊎ (k ≡ y + q * 400))
unfolding times ◌+ℤ◌
years_apart (pos n) k y h = (n, inl (ground (arith, ap pos_part h)))
years_apart (negsuc n) k y h = (suc n, inr (ground (arith, ap pos_part h, ap neg_part h)))

is_leap-era : (era : ℤ) (k y : ℕ) → pos k +ℤ times era 400 ≡ pos y → is_leap k ≡ is_leap y
unfolding is_leap
is_leap-era era k y h =
    let (q, apart) = years_apart era k y h in
    elim apart [ inl e ↦ ground arith | inr e ↦ ground arith ]

pub days_in_month-le : (y m : ℕ) → 1 ≤ m → m ≤ 12 → days_in_month y m ≤ 31
unfolding days_in_month
days_in_month-le y m h k = ground arith

february :
    (y : ℕ) (b : Bool) → (b ≡ true → is_leap y ≡ true) → (if b then 29 else 28) ≤ days_in_month y 2
unfolding days_in_month
february y b h = ground (arith, h)

other_month : (y m : ℕ) → (m == 2) ≡ false → days_in_month 1 m ≡ days_in_month y m
unfolding days_in_month
other_month y m h = rw h refl

-- The year of a day in February is the one after that in which March was.
february_year :
    (era : ℤ) (doe y m : ℕ)
    → doe < 146097
    → m ≡ 2
    → (let x = pos (year_of doe) +ℤ times era 400 in if leb m 2 then x +ℤ pos 1 else x) ≡ pos y
    → (doe - year_start (year_of doe) == 365) ≡ true
    → is_leap y ≡ true
february_year era doe y m h two e last =
    let x = pos (year_of doe) +ℤ times era 400 in
    let first : leb m 2 ≡ true = ground arith in
    let next : pos (year_of doe + 1) +ℤ times era 400 ≡ x +ℤ pos 1 = grind int_laws in
    sym (is_leap-era era (year_of doe + 1) y (next ∙ sym (if_true _ _ first) ∙ e))
    ∙ year_of-is_leap doe h ((==_iff _ _).0 last)

civil-IsDay :
    (era : ℤ) (doe y : ℕ)
    → doe < 146097
    → (civil era doe).year ≡ pos y
    → IsDay y (civil era doe).month (civil era doe).day
civil-IsDay era doe y h e =
    let doy = doe - year_start (year_of doe) in
    let mp = month_of doy in
    let m = if ltb mp 10 then mp + 3 else mp - 9 in
    let d = doy - (153 * mp + 2) / 5 + 1 in
    let fits = all_below_sound 366 day_fits doy (omega (arith, year_of-next doe h)) day_fits-all in
    let (m1, m12, short) = day_fits_sound doy fits in
    elim (Bool-cases (m == 2)) [
      | inl two ↦
          let even = (==_iff m 2).0 two in
          let room : d ≤ (if doy == 365 then 29 else 28) =
            subst (λ n. d ≤ n) (if_true _ _ two) short in
          let leap = february y (doy == 365) (february_year era doe y m h even e) in
          (
            m1,
            m12,
            omega arith,
            subst (λ k. d ≤ days_in_month y k) (sym even) (omega (arith, room, leap)),
          )
      | inr other ↦ (
        m1,
        m12,
        omega arith,
        subst (λ n. d ≤ n) (if_false _ _ other ∙ other_month y m other) short,
      )
    ]

times-shift : (era : ℤ) (k : ℕ) → times (era +ℤ pos k) 400 ≡ times era 400 +ℤ pos (k * 400)
unfolding times ◌+ℤ◌
times-shift (pos n) k = ground arith
times-shift (negsuc n) k = ground arith

-- The same day, some eras later.
civil-shift :
    (era : ℤ) (doe k : ℕ) → (civil (era +ℤ pos k) doe).year ≡ (civil era doe).year +ℤ pos (k * 400)
civil-shift era doe k =
    let doy = doe - year_start (year_of doe) in
    let mp = month_of doy in
    let m = if ltb mp 10 then mp + 3 else mp - 9 in
    let later : pos (year_of doe) +ℤ times (era +ℤ pos k) 400
        ≡ (pos (year_of doe) +ℤ times era 400) +ℤ pos (k * 400) =
      grind (int_laws, times-shift era k) in
    ap (λ y. if leb m 2 then y +ℤ pos 1 else y) later
    ∙ elim (Bool-cases (leb m 2)) [ inl h ↦ rw h (grind int_laws) | inr h ↦ rw h refl ]

-- The date of every day is one of the calendar, which repeats after 400 years: for a day of any year,
-- also of one before 0, and any `y` that is not negative and lies a multiple of 400 years behind that
-- year or is the year itself, the month has that day in the year `y`, the leap years included.
pub civil_from_days-IsDay :
    (days : ℤ) (k y : ℕ)
    → (civil_from_days days).year +ℤ pos (k * 400) ≡ pos y
    → IsDay y (civil_from_days days).month (civil_from_days days).day
unfolding civil_from_days
civil_from_days-IsDay days k y e =
    let z = days +ℤ pos 719468 in
    let doe = pos_part (z -ℤ times (era_of z 146097) 146097) in
    civil-IsDay (era_of z 146097 +ℤ pos k) doe y (era_of-days z).0
      (civil-shift (era_of z 146097) doe k ∙ e)
