-- ===== src/Dates/Construct.antt =====
-- The `Date` constructor: it gives a valid date, and its day argument counts days.
use imagesilo.Common.{ℕ, zero, suc, ◌+◌, ◌*◌, ◌/◌, ◌%◌, ◌≤◌, ◌<◌, ◌≡◌, refl, ap, ◌∙◌, arith}
use imagesilo.Common.Int.{ℤ, pos, negsuc}
use imagesilo.Dates.{
  Date, IsValid, days_in_month, next_day, prev_day, add_days, sub_days, ordinal, weekday, full_year,
  shift, month_start, count_from, new_date,
}
use imagesilo.Dates.Calendar.{
  days_in_month_bounds, add_days-IsValid, sub_days-IsValid, ordinal-add_days, ordinal-sub_days,
}

pub month_start-IsValid : (y : ℕ) (m : ℤ) → IsValid (month_start y m)
unfolding month_start
month_start-IsValid y m =
    let months = shift (12 * full_year y) m in
    ground (arith, days_in_month_bounds (months / 12) (months % 12))

pub count_from-IsValid : (first : Date) (d : ℤ) → IsValid first → IsValid (count_from first d)
unfolding count_from
count_from-IsValid first (pos zero) v = sub_days-IsValid 1 first v
count_from-IsValid first (pos (suc k)) v = add_days-IsValid k first v
count_from-IsValid first (negsuc k) v = sub_days-IsValid (suc (suc k)) first v

pub new_date-IsValid : (y : ℕ) (m d : ℤ) → IsValid (new_date y m d)
unfolding new_date
new_date-IsValid y m d = count_from-IsValid (month_start y m) d (month_start-IsValid y m)

abbrev pub pos_part : ℤ → ℕ
pos_part (pos n) = n
pos_part (negsuc n) = 0

abbrev pub neg_part : ℤ → ℕ
neg_part (pos n) = 0
neg_part (negsuc n) = suc n

-- Day 1 is the first day itself, day 0 the one before it.
pub ordinal-count_from :
    (first : Date) (d : ℤ)
    → IsValid first
    → suc (neg_part d) ≤ first.year
    → suc (ordinal (count_from first d) + neg_part d) ≡ ordinal first + pos_part d
unfolding count_from
ordinal-count_from first (pos zero) v h = omega (arith, ordinal-sub_days 1 first v (omega arith))
ordinal-count_from first (pos (suc k)) v h = omega (arith, ordinal-add_days k first v)
ordinal-count_from first (negsuc k) v h =
    omega (arith, ordinal-sub_days (suc (suc k)) first v (omega arith))

-- Within the months of one year the constructor starts at the month that is named.
pub month_start_lem :
    (y m : ℕ) → 100 ≤ y → m < 12 → month_start y (pos m) ≡ record { year = y; month = m; day = 1 }
unfolding month_start
month_start_lem y m h k = ground arith

pub add_days_within :
    (n : ℕ) (d : Date)
    → d.day + n ≤ days_in_month d.year d.month
    → add_days n d ≡ record d { day = d.day + n }
unfolding add_days next_day
add_days_within zero d h = ground arith
add_days_within (suc n) d h = ground (arith, add_days_within n (record d { day = d.day + 1 }))

-- A valid date is what the constructor makes of its own parts.
pub new_date_civil :
    (d : Date) → IsValid d → 100 ≤ d.year → new_date d.year (pos d.month) (pos d.day) ≡ d
unfolding new_date
new_date_civil d v h =
    ap (λ first. count_from first (pos d.day)) (month_start_lem d.year d.month h v.month_fits)
    ∙ go d.day refl
  where
    go :
        (n : ℕ)
        → d.day ≡ n
        → count_from (record { year = d.year; month = d.month; day = 1 }) (pos n) ≡ d
    go zero e = absurd (omega arith)
    go (suc k) e =
        unfold count_from in
        ground (arith, add_days_within k (record { year = d.year; month = d.month; day = 1 }))

ordinal_from_first :
    (d : Date)
    → ordinal (record { year = d.year; month = d.month; day = 1 }) + d.day ≡ suc (ordinal d)
unfolding ordinal
ordinal_from_first d = omega arith

-- With the year and month of a date, a day argument moves the day's number by its distance from the
-- date's own day.
pub ordinal-new_date :
    (d : Date) (n : ℤ)
    → IsValid d
    → 100 ≤ d.year
    → neg_part n < 99
    → ordinal (new_date d.year (pos d.month) n) + neg_part n + d.day ≡ ordinal d + pos_part n
unfolding new_date
ordinal-new_date d n v h k =
    let first : Date = record { year = d.year; month = d.month; day = 1 } in
    rw (month_start_lem d.year d.month h v.month_fits) (
      omega (
        arith,
        ordinal-count_from first n (omega (arith, v, days_in_month_bounds d.year d.month))
            (omega arith),
        ordinal_from_first d,
      ))

epoch_sunday : weekday (new_date 2024 (pos 0) (pos 7)) ≡ 0
unfolding weekday new_date
epoch_sunday = refl

leap_day : new_date 2024 (pos 2) (pos 0) ≡ record { year = 2024; month = 1; day = 29 }
unfolding new_date
leap_day = refl

short_years : new_date 50 (pos 0) (pos 1) ≡ record { year = 1950; month = 0; day = 1 }
unfolding new_date
short_years = refl

prev_day-year : (d : Date) → d.year ≤ suc (prev_day d).year
unfolding prev_day
prev_day-year d = ground arith

sub_days-year : (n : ℕ) (d : Date) → d.year ≤ (sub_days n d).year + n
unfolding sub_days
sub_days-year zero d = omega arith
sub_days-year (suc n) d = omega (arith, prev_day-year d, sub_days-year n (prev_day d))

next_day-year : (d : Date) → d.year ≤ (next_day d).year
unfolding next_day
next_day-year d = ground arith

add_days-year : (n : ℕ) (d : Date) → d.year ≤ (add_days n d).year
unfolding add_days
add_days-year zero d = omega arith
add_days-year (suc n) d = omega (arith, next_day-year d, add_days-year n (next_day d))

count_from-year : (first : Date) (d : ℤ) → first.year ≤ (count_from first d).year + suc (neg_part d)
unfolding count_from
count_from-year first (pos zero) = omega (arith, sub_days-year 1 first)
count_from-year first (pos (suc k)) = omega (arith, add_days-year k first)
count_from-year first (negsuc k) = omega (arith, sub_days-year (suc (suc k)) first)

-- A day argument takes the date back by at most as many years as it takes it back days.
pub new_date-year :
    (y m : ℕ) (d : ℤ) → 100 ≤ y → m < 12 → y ≤ (new_date y (pos m) d).year + suc (neg_part d)
unfolding new_date
new_date-year y m d h k =
    let e = month_start_lem y m h k in
    omega (arith, ap (λ (s : Date). s.year) e, count_from-year (month_start y (pos m)) d)
