-- ===== src/DatePicker/Page.antt =====
-- The calendar page: six weeks from a Sunday, and every day of the month among them.
use imagesilo.Common.Lists.{get_elem?-some}
use imagesilo.Common.{
  ℕ, zero, suc, ◌+◌, ◌-◌, ◌%◌, ◌≤◌, ◌<◌, ◌≡◌, refl, ap, ◌∙◌, some, length, get_elem?, arith,
}
use imagesilo.Common.Int.{ℤ, pos, negsuc, neg}
use imagesilo.Dates.{Date, IsValid, ordinal, weekday, new_date}
use imagesilo.Dates.Calendar.{days_in_month_bounds}
use imagesilo.Dates.Order.{ordinal-injective, weekday-lt}
use imagesilo.Dates.Construct.{
  pos_part, neg_part, new_date-IsValid, new_date-year, ordinal-new_date,
}
use imagesilo.DatePicker.{plus, count_days, page_start, calendar_days}

pub plus_parts :
    (n : ℕ) (z : ℤ) → pos_part (plus n z) + neg_part z ≡ n + pos_part z + neg_part (plus n z)
plus_parts n (pos k) = omega arith
plus_parts n (negsuc k) = ground arith

pub neg_parts : (n : ℕ) → (pos_part (neg n) ≡ 0) × (neg_part (neg n) ≡ n)
neg_parts zero = (refl, refl)
neg_parts (suc n) = (refl, refl)

pub plus-neg_part : (n : ℕ) (z : ℤ) → neg_part (plus n z) ≤ neg_part z
plus-neg_part n (pos k) = omega arith
plus-neg_part n (negsuc k) = ground arith

get_elem?-count_days :
    (start : Date) (k n i : ℕ) (d : Date)
    → get_elem? (count_days start k n) i ≡ some d
    → (i < n) × (new_date start.year (pos start.month) (pos (start.day + (k + i))) ≡ d)
get_elem?-count_days start k zero i d p = cc
get_elem?-count_days start k (suc n) zero d p =
    let e : k + 0 ≡ k = omega arith in (omega arith, rw e (cc))
get_elem?-count_days start k (suc n) (suc i) d p =
    let found = get_elem?-count_days start (suc k) n i d p in
    let e : k + suc i ≡ suc k + i = omega arith in (omega (arith, found), rw e found.1)

length-count_days : (start : Date) (k n : ℕ) → length (count_days start k n) ≡ n
length-count_days start k zero = refl
length-count_days start k (suc n) = ap suc (length-count_days start (suc k) n)

module _ (month : Date) (v : IsValid month) (first : month.day ≡ 1) (late : 1000 ≤ month.year) where
  page_start-ordinal : ordinal (page_start month) + weekday month ≡ ordinal month
  page_start-ordinal =
      let z = plus 1 (neg (weekday month)) in
      omega (
        arith,
        ordinal-new_date month z v (omega arith) (
            omega (
              arith,
              plus-neg_part 1 (neg (weekday month)),
              neg_parts (weekday month),
              weekday-lt month,
            )),
        plus_parts 1 (neg (weekday month)),
        neg_parts (weekday month),
      )

  page_start-IsValid : IsValid (page_start month)
  page_start-IsValid = new_date-IsValid month.year (pos month.month) (plus 1 (neg (weekday month)))

  page_start-year : 100 ≤ (page_start month).year
  page_start-year = omega (
    arith,
    new_date-year month.year month.month (plus 1 (neg (weekday month))) (omega arith) v.month_fits,
    plus-neg_part 1 (neg (weekday month)),
    neg_parts (weekday month),
    weekday-lt month,
  )

  page_day :
      (i : ℕ) (d : Date)
      → get_elem? (calendar_days month) i ≡ some d
      → (i < 42) × IsValid d × (ordinal d + weekday month ≡ ordinal month + i)
  unfolding calendar_days
  page_day i d p =
      let start = page_start month in
      let found = get_elem?-count_days start 0 42 i d p in
      let z = pos (start.day + (0 + i)) in
      (
        found.0,
        rw (← found.1) (new_date-IsValid start.year (pos start.month) z),
        omega (
          arith,
          ordinal-new_date start z page_start-IsValid page_start-year (omega arith),
          ap ordinal found.1,
          page_start-ordinal,
        ),
      )

  column : (i : ℕ) (d : Date) → ordinal d + weekday month ≡ ordinal month + i → weekday d ≡ i % 7
  unfolding weekday
  column i d e = omega arith

  calendar_days-length : length (calendar_days month) ≡ 42
  calendar_days-length = unfold calendar_days in length-count_days (page_start month) 0 42

  -- The page of a month, given by its first day in a year of at least 1000, has 42 days, one after
  -- the other from a Sunday on: the day at place `i` is a day of the calendar, its number is that of
  -- the first of the month less the weekday of the first, plus `i`, and it stands in the column of
  -- its weekday.
  pub calendar_days_page :
      (i : ℕ) (d : Date)
      → get_elem? (calendar_days month) i ≡ some d
      → (length (calendar_days month) ≡ 42)
        × IsValid d
        × (ordinal d + weekday month ≡ ordinal month + i)
        × (weekday d ≡ i % 7)
  calendar_days_page i d p =
      let r = page_day i d p in (calendar_days-length, r.1, r.2, column i d r.2)

  same_month :
      (d : Date)
      → d.year ≡ month.year
      → d.month ≡ month.month
      → ordinal d + 1 ≡ ordinal month + d.day
  unfolding ordinal
  same_month d y m = ground arith

  -- Every day of the month is on its page, at the place that the weekday of the first of the month and
  -- the number of the day give, from the year 1000 on.
  pub calendar_days_complete :
      (d : Date)
      → IsValid d
      → d.year ≡ month.year
      → d.month ≡ month.month
      → get_elem? (calendar_days month) (weekday month + d.day - 1) ≡ some d
  calendar_days_complete d w y m =
      let i = weekday month + d.day - 1 in
      let bounds = days_in_month_bounds d.year d.month in
      let small : i < length (calendar_days month) =
        omega (arith, calendar_days-length, weekday-lt month, w.day_fits, bounds) in
      let (e, found) = get_elem?-some (calendar_days month) i small in
      let r = page_day i e found in
      let same : e ≡ d =
        ordinal-injective e d r.1 w (omega (arith, r.2, same_month d y m, w.day_counts)) in
      found ∙ ap some same
