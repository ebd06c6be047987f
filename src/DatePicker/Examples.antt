-- ===== src/DatePicker/Examples.antt =====
-- The picker's theorems at concrete dates, and runs of its operations.
use imagesilo.Common.{
  ◌<◌, ◌+◌, ◌≡◌, ◌⊎◌, refl, some, none, true, false, [], get_elem?, length, arith, ◌%◌, ◌-◌,
}
use imagesilo.Common.Text.{Text, codes, decimal, pad_start}
use imagesilo.Dates.{Date, IsValid, days_in_month, ordinal, weekday, new_date}
use imagesilo.DatePicker.{
  is_digit, Picker, Key, add_months, parse_date, to_date_value, calendar_days, minimum,
  navigate_date, move_focus, select_date,
}
use imagesilo.DatePicker.Format.{parse_date-to_date_value}
use imagesilo.DatePicker.Parsing.{parse_date_sound}
use imagesilo.DatePicker.Page.{calendar_days_page, calendar_days_complete}
use imagesilo.DatePicker.Keys.{IsReached, focusing, navigate_date_offset}
use imagesilo.DatePicker.Choice.{IsFree, IsTooEarly, IsLate, select_date_lem}

abbrev leap_day : Date
leap_day = record { year = 2024; month = 1; day = 29 }

abbrev august : Date
august = record { year = 2026; month = 7; day = 1 }

abbrev last_of_august : Date
last_of_august = record { year = 2026; month = 7; day = 31 }

leap_day-IsValid : IsValid leap_day
unfolding days_in_month
leap_day-IsValid = omega arith

august-IsValid : IsValid august
unfolding days_in_month
august-IsValid = omega arith

last_of_august-IsValid : IsValid last_of_august
unfolding days_in_month
last_of_august-IsValid = omega arith

parse_date-to_date_value_example : parse_date (to_date_value leap_day) ≡ some leap_day
parse_date-to_date_value_example =
    parse_date-to_date_value leap_day leap_day-IsValid (omega arith) (omega arith)

parse_date_sound_example : IsValid leap_day × (to_date_value leap_day ≡ codes "2024-02-29")
unfolding parse_date is_digit new_date
parse_date_sound_example = parse_date_sound (codes "2024-02-29") leap_day refl (omega arith)

no_such_day : parse_date (codes "2023-02-29") ≡ none
unfolding parse_date is_digit new_date
no_such_day = refl

calendar_days_page_example :
    (length (calendar_days august) ≡ 42)
    × IsValid last_of_august
    × (ordinal last_of_august + weekday august ≡ ordinal august + 36)
    × (weekday last_of_august ≡ 36 % 7)
unfolding calendar_days new_date weekday
calendar_days_page_example =
    calendar_days_page august august-IsValid refl (omega arith) 36 last_of_august refl

calendar_days_complete_example :
    get_elem? (calendar_days august) (weekday august + 31 - 1) ≡ some last_of_august
calendar_days_complete_example =
    calendar_days_complete august august-IsValid refl (omega arith) last_of_august
      last_of_august-IsValid refl refl

abbrev shown : Picker
shown = record {
  is_open = true;
  focused_date = codes "2026-08-31";
  focus_day = false;
  visible_month = august;
}

late : IsLate [] (codes "2026-08-30") august
unfolding minimum parse_date
late bound e = ground (arith, e)

navigate_date_offset_example :
    (target : Date) × IsValid target
    × IsReached Key.arrow_left last_of_august target
    × ((navigate_date [] (codes "2026-08-30") august shown Key.arrow_left false last_of_august).1
        ≡ true)
    × ((((navigate_date [] (codes "2026-08-30") august shown Key.arrow_left false last_of_august).0
            ≡ focusing shown target)
          × IsFree [] (codes "2026-08-30") august target)
        ⊎ ((bound : Date) × (minimum [] (codes "2026-08-30") august ≡ some bound)
            × (ordinal target < ordinal bound)
            × ((navigate_date []
                  (codes "2026-08-30")
                  august
                  shown
                  Key.arrow_left
                  false
                  last_of_august).0
                ≡ focusing shown bound)))
navigate_date_offset_example =
    navigate_date_offset [] (codes "2026-08-30") august shown Key.arrow_left false last_of_august
      late last_of_august-IsValid (omega arith) refl

page_down_run :
    (navigate_date [] [] august shown Key.page_down false last_of_august).0.focused_date
    ≡ codes "2026-09-30"
unfolding navigate_date move_focus to_date_value add_months weekday decimal pad_start new_date
    minimum
page_down_run = refl

select_date_lem_example :
    (IsTooEarly [] (codes "2026-08-30") august last_of_august
      × (select_date [] (codes "2026-08-30") august shown last_of_august ≡ (shown, none)))
    ⊎ (IsFree [] (codes "2026-08-30") august last_of_august
        × (text : Text) × (parse_date text ≡ some last_of_august)
        × (select_date [] (codes "2026-08-30") august shown last_of_august
            ≡ (record shown { visible_month = august; is_open = false }, some text)))
select_date_lem_example =
    select_date_lem [] (codes "2026-08-30") august shown last_of_august late last_of_august-IsValid
      (omega arith) (omega arith)
