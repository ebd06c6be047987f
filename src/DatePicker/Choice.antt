-- ===== src/DatePicker/Choice.antt =====
-- Choosing a day: what is handed to `onChange`, and which cells are disabled.
use imagesilo.Common.{
  ◌≤◌, ◌<◌, ◌≡◌, ◌↔◌, ◌⊎◌, inl, inr, refl, ap, some, none, true, false, arith, Option-cases,
  Bool-cases, leb→le,
}
use imagesilo.Common.Text.{Text}
use imagesilo.Dates.{Date, IsValid, ordinal}
use imagesilo.Dates.Construct.{new_date_civil}
use imagesilo.DatePicker.{
  Picker, parse_date, to_date_value, start_of_day, start_of_month, minimum, is_below, select_date,
  day_cell, previous_is_disabled,
}
use imagesilo.DatePicker.Format.{parse_date-to_date_value}
use imagesilo.DatePicker.Parsing.{parse_date-IsValid}

start_of_month_lem :
    (d : Date)
    → IsValid d
    → 100 ≤ d.year
    → start_of_month d ≡ record { year = d.year; month = d.month; day = 1 }
unfolding start_of_month
start_of_month_lem d v h =
    new_date_civil (record { year = d.year; month = d.month; day = 1 }) (omega (arith, v)) h

start_of_month-le : (d : Date) → IsValid d → 100 ≤ d.year → ordinal (start_of_month d) ≤ ordinal d
start_of_month-le d v h = rw (start_of_month_lem d v h) (unfold ordinal in omega (arith, v))

start_of_day_lem : (d : Date) → IsValid d → 100 ≤ d.year → start_of_day d ≡ ordinal d
unfolding start_of_day
start_of_day_lem d v h = ap ordinal (new_date_civil d v h)

-- The comparison of the picker is the order of the calendar, from the year 100 on: a day is below the least date exactly
-- if its number is smaller.
pub is_below_iff :
    (value least : Text) (today : Date) (bound date : Date)
    → IsValid bound
    → IsValid date
    → 100 ≤ bound.year
    → 100 ≤ date.year
    → (is_below value least today (some bound) date ≡ true) ↔ (ordinal date < ordinal bound)
unfolding is_below
is_below_iff value least today bound date v w h k =
    ground (arith, start_of_day_lem bound v h, start_of_day_lem date w k)

-- A least date, where there is one, is a day of the calendar.
pub minimum-IsValid :
    (value least : Text) (today bound : Date)
    → minimum value least today ≡ some bound
    → IsValid bound
unfolding minimum
minimum-IsValid value least today bound e = parse_date-IsValid least bound e

-- No least date forbids the day, and: the least date is a later day.
abbrev pub IsFree : Text → Text → Date → Date → Type 0
IsFree value least today date =
    (minimum value least today ≡ none)
    ⊎ ((bound : Date) × (minimum value least today ≡ some bound) × (ordinal bound ≤ ordinal date))

abbrev pub IsTooEarly : Text → Text → Date → Date → Type 0
IsTooEarly value least today date =
    (bound : Date) × (minimum value least today ≡ some bound) × (ordinal date < ordinal bound)

-- A least date is from the year 100 on.
abbrev pub IsLate : Text → Text → Date → Type 0
IsLate value least today =
    (bound : Date) → minimum value least today ≡ some bound → 100 ≤ bound.year

pub least_cases :
    (value least : Text) (today date : Date)
    → IsLate value least today
    → IsValid date
    → 100 ≤ date.year
    → ((is_below value least today (minimum value least today) date ≡ false)
        × IsFree value least today date)
      ⊎ ((is_below value least today (minimum value least today) date ≡ true)
          × IsTooEarly value least today date)
unfolding is_below
least_cases value least today date late w k = elim (Option-cases (minimum value least today)) [
  | inl missing ↦ inl (rw (missing, is_below) refl, inl missing)
  | inr (bound, e) ↦
      let v = minimum-IsValid value least today bound e in
      let r = is_below_iff value least today bound date v w (late bound e) k in
      elim (Bool-cases (is_below value least today (some bound) date)) [
        | inl below ↦ inr (rw e below, (bound, e, r.0 below))
        | inr above ↦ inl (rw e above, inr (bound, e, ground (arith, r, above)))
      ]
]

-- Choosing a day of the calendar, in a year of four digits, where a least date is from the year 100 on:
-- either a least date is a later day, and nothing changes and nothing is handed on; or there is no least
-- date, or one that is no later, and then the popover is closed on the first day of the day's month, and
-- the text that is handed on reads back as that day.
pub select_date_lem :
    (value least : Text) (today : Date) (p : Picker) (date : Date)
    → IsLate value least today
    → IsValid date
    → 1000 ≤ date.year
    → date.year < 10000
    → (IsTooEarly value least today date × (select_date value least today p date ≡ (p, none)))
      ⊎ (IsFree value least today date
          × (text : Text) × (parse_date text ≡ some date)
          × (select_date value least today p date ≡ (
            record p {
              visible_month = record { year = date.year; month = date.month; day = 1 };
              is_open = false;
            },
            some text,
          )))
unfolding select_date
select_date_lem value least today p date late v h k =
    elim (least_cases value least today date late v (omega (arith, h))) [
      | inr (below, early) ↦ inl (early, rw (below, select_date) refl)
      | inl (above, free) ↦ inr (
        free,
        to_date_value date,
        parse_date-to_date_value date v h k,
        rw (above, select_date, start_of_month_lem date v (omega (arith, h))) refl,
      )
    ]

-- A cell of the grid is disabled exactly if a press on it would hand on nothing.
pub day_cell-select_date :
    (value least : Text) (today : Date) (p : Picker) (date : Date)
    → ((day_cell value least today p date).is_disabled ≡ true)
      ↔ ((select_date value least today p date).1 ≡ none)
unfolding day_cell select_date
day_cell-select_date value least today p date = ground arith

previous_bound :
    (value least : Text) (today : Date) (p : Picker) (bound : Date)
    → minimum value least today ≡ some bound
    → previous_is_disabled value least today p ≡ true
    → ordinal p.visible_month ≤ ordinal (start_of_month bound)
unfolding previous_is_disabled
previous_bound value least today p bound e h =
    leb→le (ordinal p.visible_month) (ordinal (start_of_month bound))
      (rw (e, previous_is_disabled) at h)

-- The button for the previous month is disabled only if no day before the month shown is enabled,
-- where that day and the least date are from the year 100 on.
pub previous_is_disabled_lem :
    (value least : Text) (today : Date) (p : Picker) (bound date : Date)
    → minimum value least today ≡ some bound
    → 100 ≤ bound.year
    → 100 ≤ date.year
    → IsValid date
    → previous_is_disabled value least today p ≡ true
    → ordinal date < ordinal p.visible_month
    → (day_cell value least today p date).is_disabled ≡ true
unfolding day_cell
previous_is_disabled_lem value least today p bound date e h k v disabled before =
    let w = minimum-IsValid value least today bound e in
    let earlier : ordinal date < ordinal bound =
      omega
        (arith, start_of_month-le bound w h, previous_bound value least today p bound e disabled) in
    rw e ((is_below_iff value least today bound date w v h k).1 earlier)
