-- ===== src/Date/Era.antt =====
-- Proofs on the 400 years of an era of src/time.c.
use asterism_asngn.Common.{ℕ, ◌+◌, ◌-◌, ◌*◌, ◌/◌, ◌≤◌, ◌<◌, ◌≡◌, sym, subst, arith, true}
use asterism_asngn.Common.Int.{ℤ, pos, negsuc, pos_part, ◌+ℤ◌, ◌-ℤ◌}
use asterism_asngn.Date.{times, quotient, era_of, year_of, year_start, month_of, is_leap}

pub year_of-year_start : (doe : ℕ) → doe < 146097 → year_start (year_of doe) ≤ doe
unfolding year_of year_start
year_of-year_start doe h = omega arith

pub year_of-lt : (doe : ℕ) → doe < 146097 → year_of doe < 400
unfolding year_of
year_of-lt doe h = omega arith

pub year_of-next : (doe : ℕ) → doe < 146097 → doe - year_start (year_of doe) ≤ 365
unfolding year_of year_start
year_of-next doe h = omega arith

-- The 366th day, the last of February, is there in a leap year only.
pub year_of-is_leap :
    (doe : ℕ)
    → doe < 146097
    → doe - year_start (year_of doe) ≡ 365
    → is_leap (year_of doe + 1) ≡ true
unfolding year_of year_start is_leap
year_of-is_leap doe h e = ground arith

-- A day in the year that starts in March has its month and its day.
pub month_of-day :
    (doy : ℕ) → doy ≤ 365 → (month_of doy ≤ 11) × ((153 * month_of doy + 2) / 5 ≤ doy)
unfolding month_of
month_of-day doy h = omega arith

era_of-negsuc : (n : ℕ) → era_of (negsuc n) 146097 ≡ negsuc (n / 146097)
unfolding era_of quotient ◌-ℤ◌
era_of-negsuc n = ground arith

era_of-pos : (n : ℕ) → era_of (pos n) 146097 ≡ pos (n / 146097)
unfolding era_of quotient ◌-ℤ◌
era_of-pos n = ground arith

-- So many whole eras lie in front of a day, and the rest.
abbrev pub Splits : ℤ → ℤ → Type 0
Splits z e =
    (pos_part (z -ℤ times e 146097) < 146097)
    × (times e 146097 +ℤ pos (pos_part (z -ℤ times e 146097)) ≡ z)

Splits-negsuc : (n : ℕ) → Splits (negsuc n) (negsuc (n / 146097))
unfolding times ◌+ℤ◌ ◌-ℤ◌
Splits-negsuc n = ground arith

Splits-pos : (n : ℕ) → Splits (pos n) (pos (n / 146097))
unfolding times ◌+ℤ◌ ◌-ℤ◌
Splits-pos n = ground arith

pub era_of-days : (z : ℤ) → Splits z (era_of z 146097)
era_of-days (pos n) = subst (Splits (pos n)) (sym (era_of-pos n)) (Splits-pos n)
era_of-days (negsuc n) = subst (Splits (negsuc n)) (sym (era_of-negsuc n)) (Splits-negsuc n)

pub era_of-years : (e : ℤ) (k : ℕ) → k < 400 → era_of (pos k +ℤ times e 400) 400 ≡ e
unfolding era_of quotient times ◌+ℤ◌ ◌-ℤ◌
era_of-years (pos n) k h = ground arith
era_of-years (negsuc n) k h = ground arith

pub rest_of-years : (e : ℤ) (k : ℕ) → k < 400 → pos_part ((pos k +ℤ times e 400) -ℤ times e 400) ≡ k
unfolding times ◌+ℤ◌ ◌-ℤ◌
rest_of-years (pos n) k h = ground arith
rest_of-years (negsuc n) k h = ground arith
