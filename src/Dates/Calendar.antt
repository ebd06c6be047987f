-- ===== src/Dates/Calendar.antt =====
-- The next and the previous day, and how they move the day's number.
use imagesilo.Common.{ℕ, zero, suc, ◌+◌, ◌-◌, ◌≤◌, ◌<◌, ◌≡◌, refl, arith, if◌then◌else◌}
use native.Mathlib.Numerals.{add-one}
use imagesilo.Dates.{
  Date, IsValid, is_leap, days_in_month, next_day, prev_day, add_days, sub_days, days_before_month,
  days_before_year, ordinal,
}

pub days_in_month_bounds : (y m : ℕ) → (28 ≤ days_in_month y m) × (days_in_month y m ≤ 31)
unfolding days_in_month
days_in_month_bounds y m = ground arith

december : (y : ℕ) → days_in_month y 11 ≡ 31
unfolding days_in_month
december y = refl

pub next_day-IsValid : (d : Date) → IsValid d → IsValid (next_day d)
unfolding next_day
next_day-IsValid d v =
    ground (arith, days_in_month_bounds d.year (d.month + 1), days_in_month_bounds (d.year + 1) 0)

pub prev_day-IsValid : (d : Date) → IsValid d → IsValid (prev_day d)
unfolding prev_day
prev_day-IsValid d v =
    ground (arith, days_in_month_bounds d.year (d.month - 1), december (d.year - 1))

pub year_length : (y : ℕ) → days_before_month y 12 ≡ (if is_leap y then 366 else 365)
unfolding days_before_month days_in_month
year_length y = ground arith

pub days_before_next_year :
    (y : ℕ) → days_before_year (suc y) ≡ days_before_year y + days_before_month y 12
unfolding days_before_year is_leap
days_before_next_year y = rw (year_length y) (ground arith)

days_before_month-add_one :
    (y m : ℕ) → days_before_month y (m + 1) ≡ days_before_month y m + days_in_month y m
unfolding days_before_month
days_before_month-add_one y m = rw add-one

days_before_december : (y : ℕ) → days_before_month y 12 ≡ days_before_month y 11 + 31
unfolding days_before_month
days_before_december y = rw (december y)

days_before_following_year :
    (y : ℕ) → days_before_year (y + 1) ≡ days_before_year y + days_before_month y 11 + 31
days_before_following_year y =
    rw add-one (omega (arith, days_before_next_year y, days_before_december y))

first_month : (y : ℕ) → days_before_month y 0 ≡ 0
unfolding days_before_month
first_month y = refl

pub ordinal-next_day : (d : Date) → IsValid d → ordinal (next_day d) ≡ suc (ordinal d)
unfolding next_day ordinal
ordinal-next_day d v = ground (
  arith,
  days_before_month-add_one d.year d.month,
  days_before_following_year d.year,
  first_month (d.year + 1),
  december d.year,
)

month_before :
    (y m : ℕ)
    → 0 < m
    → days_before_month y (m - 1) + days_in_month y (m - 1) ≡ days_before_month y m
unfolding days_before_month
month_before y zero h = elim h [ ]
month_before y (suc m) h = let e : suc m - 1 ≡ m = omega arith in rw e

year_before :
    (y : ℕ)
    → 0 < y
    → days_before_year y ≡ days_before_year (y - 1) + days_before_month (y - 1) 11 + 31
year_before zero h = elim h [ ]
year_before (suc y) h =
    let e : suc y - 1 ≡ y = omega arith in
    rw e (omega (arith, days_before_next_year y, days_before_december y))

pub ordinal-prev_day : (d : Date) → IsValid d → 0 < d.year → suc (ordinal (prev_day d)) ≡ ordinal d
unfolding prev_day ordinal
ordinal-prev_day d v p =
    ground (arith, month_before d.year d.month, year_before d.year p, first_month d.year)

-- Going on and back again.
pub add_days-IsValid : (n : ℕ) (d : Date) → IsValid d → IsValid (add_days n d)
unfolding add_days
add_days-IsValid zero d v = v
add_days-IsValid (suc n) d v = add_days-IsValid n (next_day d) (next_day-IsValid d v)

pub sub_days-IsValid : (n : ℕ) (d : Date) → IsValid d → IsValid (sub_days n d)
unfolding sub_days
sub_days-IsValid zero d v = v
sub_days-IsValid (suc n) d v = sub_days-IsValid n (prev_day d) (prev_day-IsValid d v)

pub ordinal-add_days : (n : ℕ) (d : Date) → IsValid d → ordinal (add_days n d) ≡ ordinal d + n
unfolding add_days
ordinal-add_days zero d v = omega arith
ordinal-add_days (suc n) d v =
    omega (arith, ordinal-next_day d v, ordinal-add_days n (next_day d) (next_day-IsValid d v))

prev_day-year : (d : Date) → d.year ≤ suc (prev_day d).year
unfolding prev_day
prev_day-year d = ground arith

pub ordinal-sub_days :
    (n : ℕ) (d : Date) → IsValid d → n ≤ d.year → ordinal (sub_days n d) + n ≡ ordinal d
unfolding sub_days
ordinal-sub_days zero d v h = omega arith
ordinal-sub_days (suc n) d v h = omega (
  arith,
  ordinal-prev_day d v (omega arith),
  prev_day-year d,
  ordinal-sub_days n (prev_day d) (prev_day-IsValid d v) (omega (arith, prev_day-year d)),
)
