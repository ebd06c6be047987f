-- ===== src/Dates.antt =====
-- The local calendar of JavaScript's `Date`, as web/src/components/ui/date-picker.tsx uses it: only
-- year, month and day are read, so a date is a civil date. A time zone that skips a whole day and
-- the years before 1 are left out.
pub mod Calendar
pub mod Order
pub mod Construct
use imagesilo.Common.{
  ℕ, zero, suc, ◌+◌, ◌-◌, ◌*◌, ◌/◌, ◌%◌, ◌≤◌, ◌<◌, Bool, ◌&&◌, ◌||◌, not, ltb, nat_beq,
  if◌then◌else◌,
}
use imagesilo.Common.Int.{ℤ, pos, negsuc}

-- `month` counts from 0, `day` from 1, as `getMonth` and `getDate` do.
pub record Date : Type 0 where
  pub year : ℕ
  pub month : ℕ
  pub day : ℕ

unfoldable pub is_leap : ℕ → Bool
is_leap y = nat_beq (y % 4) 0 && (not (nat_beq (y % 100) 0) || nat_beq (y % 400) 0)

unfoldable pub days_in_month : ℕ → ℕ → ℕ
unfolding is_leap
days_in_month y m =
    if nat_beq m 1
    then (if is_leap y then 29 else 28)
    else if nat_beq m 3 || nat_beq m 5 || nat_beq m 8 || nat_beq m 10
    then 30
    else 31

pub record IsValid (d : Date) : Type 0 where
  pub month_fits : d.month < 12
  pub day_counts : 1 ≤ d.day
  pub day_fits : d.day ≤ days_in_month d.year d.month

unfoldable pub next_day : Date → Date
next_day d =
    if ltb d.day (days_in_month d.year d.month)
    then record d { day = d.day + 1 }
    else if ltb d.month 11
    then record { year = d.year; month = d.month + 1; day = 1 }
    else record { year = d.year + 1; month = 0; day = 1 }

unfoldable pub prev_day : Date → Date
prev_day d =
    if ltb 1 d.day
    then record d { day = d.day - 1 }
    else if ltb 0 d.month
    then record { year = d.year; month = d.month - 1; day = days_in_month d.year (d.month - 1) }
    else record { year = d.year - 1; month = 11; day = 31 }

unfoldable pub add_days : ℕ → Date → Date
add_days zero d = d
add_days (suc n) d = add_days n (next_day d)

unfoldable pub sub_days : ℕ → Date → Date
sub_days zero d = d
sub_days (suc n) d = sub_days n (prev_day d)

-- Days of the months before `m` in year `y`, and of the years before `y`.
unfoldable pub days_before_month : ℕ → ℕ → ℕ
days_before_month y zero = 0
days_before_month y (suc m) = days_before_month y m + days_in_month y m

unfoldable pub days_before_year : ℕ → ℕ
days_before_year y = 365 * y + (y + 3) / 4 + (y + 399) / 400 - (y + 99) / 100

-- The number of a day, from 1 on the first of January of year 0. `getTime` at midnight grows with it.
unfoldable pub ordinal : Date → ℕ
ordinal d = days_before_year d.year + days_before_month d.year d.month + d.day

-- `getDay`: 0 is Sunday.
unfoldable pub weekday : Date → ℕ
unfolding ordinal days_before_year days_before_month days_in_month
weekday d = (ordinal d + 5) % 7

-- Years 0 to 99 mean 1900 to 1999 to the constructor.
unfoldable pub full_year : ℕ → ℕ
full_year y = if ltb y 100 then 1900 + y else y

abbrev pub shift : ℕ → ℤ → ℕ
shift n (pos k) = n + k
shift n (negsuc k) = n - suc k

-- The first day of the month `m` of year `y`, where `m` may lie in another year.
unfoldable pub month_start : ℕ → ℤ → Date
unfolding full_year
month_start y m =
    let months = shift (12 * full_year y) m in
    record { year = months / 12; month = months % 12; day = 1 }

-- Day `d` counted from the first day of a month, which is 1.
unfoldable pub count_from : Date → ℤ → Date
unfolding add_days sub_days next_day prev_day days_in_month
count_from first (pos zero) = sub_days 1 first
count_from first (pos (suc k)) = add_days k first
count_from first (negsuc k) = sub_days (suc (suc k)) first

-- `new Date(y, m, d)`: a month or a day out of range rolls over.
unfoldable pub new_date : ℕ → ℤ → ℤ → Date
unfolding month_start count_from
new_date y m d = count_from (month_start y m) d
