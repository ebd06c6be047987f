-- ===== src/DatePicker/Navigation.antt =====
-- Keyboard navigation: where each key moves the focus, and that it never passes the least date.
use imagesilo.Common.{
  ℕ, ◌+◌, ◌-◌, ◌*◌, ◌≤◌, ◌<◌, ◌≡◌, refl, ap, ◌∙◌, some, none, true, false, Bool, Option, ◌⊎◌, inl,
  arith, ltb, min,
}
use native.Mathlib.Decide.{dec_lt}
use imagesilo.Common.Int.{ℤ, pos, negsuc, neg}
use imagesilo.Common.Text.{Text}
use imagesilo.Dates.{
  Date, IsValid, days_in_month, prev_day, ordinal, weekday, new_date, month_start, count_from,
}
use imagesilo.Dates.Calendar.{days_in_month_bounds}
use imagesilo.Dates.Order.{weekday-lt}
use imagesilo.Dates.Construct.{
  pos_part, neg_part, ordinal-new_date, month_start_lem, month_start-IsValid, new_date_civil,
}
use imagesilo.DatePicker.{
  Key, Picker, plus, to_date_value, start_of_day, start_of_month, add_months, key_offset,
  month_offset, page_target, minimum, is_below, clamp, move_focus, navigate_date,
}
use imagesilo.DatePicker.Page.{plus_parts, plus-neg_part, neg_parts}

ltb_self : (n : ℕ) → ltb n n ≡ false
ltb_self n = ground arith

-- What `moveFocus` settles on is not below the bound, and is the date asked for unless that is.
pub clamp_lem :
    (value least : Text) (today : Date) (bound : Option Date) (date : Date)
    → (is_below value least today bound (clamp value least today bound date) ≡ false)
      × ((clamp value least today bound date ≡ date)
          ⊎ (bound ≡ some (clamp value least today bound date)))
unfolding clamp is_below
clamp_lem value least today none date = (refl, inl refl)
clamp_lem value least today (some b) date = ground (arith, ltb_self (start_of_day b))

pub key_offset_small :
    (key : Key) (date : Date) (o : ℤ) → key_offset key date ≡ some o → neg_part o ≤ 7
key_offset_small Key.arrow_left date o h = ground arith
key_offset_small Key.arrow_right date o h = ground arith
key_offset_small Key.arrow_up date o h = ground arith
key_offset_small Key.arrow_down date o h = ground arith
key_offset_small Key.home date o h =
    let e : neg (weekday date) ≡ o = cc in
    let e' : neg_part (neg (weekday date)) ≡ neg_part o = ap neg_part e in
    omega (arith, e', neg_parts (weekday date), weekday-lt date)
key_offset_small Key.end date o h = ground arith
key_offset_small _ date o h = cc

-- The days between a date and the date that an offset leads to.
pub offset_target :
    (date : Date) (o : ℤ)
    → IsValid date
    → 1000 ≤ date.year
    → neg_part o ≤ 7
    → ordinal (new_date date.year (pos date.month) (plus date.day o)) + neg_part o
      ≡ ordinal date + pos_part o
offset_target date o v h small = omega (
  arith,
  ordinal-new_date date (plus date.day o) v (omega arith) (omega (arith, plus-neg_part date.day o)),
  plus_parts date.day o,
)

new_date_zero : (y : ℕ) (m : ℤ) → new_date y m (pos 0) ≡ prev_day (month_start y m)
unfolding new_date count_from
new_date_zero y m = refl

new_date_one : (y : ℕ) (m : ℤ) → new_date y m (pos 1) ≡ month_start y m
unfolding new_date count_from
new_date_one y m = refl

next_january :
    (y : ℕ) → 100 ≤ y → month_start y (pos 12) ≡ record { year = y + 1; month = 0; day = 1 }
unfolding month_start
next_january y h = ground arith

-- Day 0 of the next month is the last day of the month.
last_day_lem :
    (y m : ℕ) → 100 ≤ y → m < 12 → (new_date y (pos (m + 1)) (pos 0)).day ≡ days_in_month y m
unfolding prev_day
last_day_lem y m h k = elim (dec_lt (m + 1) 12) [
  | yes p ↦
      let e : m + 1 - 1 ≡ m = omega arith in
      ap (λ (d : Date). d.day) (new_date_zero y (pos (m + 1)))
      ∙ ap (λ (d : Date). (prev_day d).day) (month_start_lem y (m + 1) h p)
      ∙ ground (arith, e)
  | no p ↦
      let e : m ≡ 11 = omega arith in
      rw e (
        ap (λ (d : Date). d.day) (new_date_zero y (pos 12))
        ∙ ap (λ (d : Date). (prev_day d).day) (next_january y h)
        ∙ december_end y)
]
  where
    december_end : (y' : ℕ) → 31 ≡ days_in_month y' 11
    december_end y' = unfold days_in_month in refl

-- The month that a month argument names, counted through the years.
month_start_parts :
    (y : ℕ) (z : ℤ)
    → 100 ≤ y
    → neg_part z ≤ 12
    → (12 * (month_start y z).year + (month_start y z).month + neg_part z ≡ 12 * y + pos_part z)
      × ((month_start y z).day ≡ 1)
      × (y ≤ (month_start y z).year + 1)
unfolding month_start
month_start_parts y (pos k) h small = ground arith
month_start_parts y (negsuc k) h small = ground arith

-- `page_target`, once its months and its last day are known.
page_target_parts :
    (date : Date) (a : ℤ) (m : Date)
    → IsValid date
    → add_months date a ≡ m
    → IsValid m
    → 100 ≤ m.year
    → page_target date a
      ≡ record { year = m.year; month = m.month; day = min date.day (days_in_month m.year m.month) }
page_target_parts date a m v e w h =
    ap
      (λ (k : Date).
        new_date k.year (pos k.month)
          (pos (min date.day ((new_date k.year (pos (k.month + 1)) (pos 0)).day))))
      e
    ∙ ap (λ n. new_date m.year (pos m.month) (pos (min date.day n)))
        (last_day_lem m.year m.month h w.month_fits)
    ∙ new_date_civil t t_valid h
  where
    t : Date
    t = record { year = m.year; month = m.month; day = min date.day (days_in_month m.year m.month) }

    t_valid : IsValid t
    t_valid = omega (arith, v, w, days_in_month_bounds m.year m.month)

-- PageUp and PageDown, with Shift by a whole year: the target lies exactly so many months away, on
-- the same day of the month, or on the last day of a month that is too short for it.
pub page_target_lem :
    (date : Date) (a : ℤ)
    → IsValid date
    → 1000 ≤ date.year
    → neg_part a ≤ 12
    → IsValid (page_target date a)
      × (12 * (page_target date a).year + (page_target date a).month + neg_part a
          ≡ 12 * date.year + date.month + pos_part a)
      × ((page_target date a).day
          ≡ min date.day (days_in_month (page_target date a).year (page_target date a).month))
page_target_lem date a v h small =
    let z = plus date.month a in
    let m = month_start date.year z in
    let w = month_start-IsValid date.year z in
    let small' : neg_part z ≤ 12 = omega (arith, plus-neg_part date.month a) in
    let parts = month_start_parts date.year z (omega arith) small' in
    let e =
      page_target_parts date a m v (unfold add_months in new_date_one date.year z) w
        (omega (arith, parts.2)) in
    rw e (
      omega (arith, v, w, days_in_month_bounds m.year m.month),
      omega (arith, parts.0, plus_parts date.month a),
      refl,
    )

month_offset_small :
    (key : Key) (shift_key : Bool) (a : ℤ)
    → month_offset key shift_key ≡ some a
    → (neg_part a ≤ 12) × ((date : Date) → key_offset key date ≡ none)
month_offset_small Key.page_up shift_key a h = (ground arith, λ date. refl)
month_offset_small Key.page_down shift_key a h = (ground arith, λ date. refl)
month_offset_small _ shift_key a h = cc

-- PageUp and PageDown move by one month, with Shift by twelve: the focus goes to the day of that
-- month with the same number, or to its last day if the month is too short, as far as the least
-- date allows it.
pub navigate_date_month :
    (value least : Text) (today : Date) (p : Picker) (key : Key) (shift_key : Bool) (date : Date)
    (a : ℤ)
    → IsValid date
    → 1000 ≤ date.year
    → month_offset key shift_key ≡ some a
    → (target : Date) × IsValid target
      × (12 * target.year + target.month + neg_part a ≡ 12 * date.year + date.month + pos_part a)
      × (target.day ≡ min date.day (days_in_month target.year target.month))
      × (navigate_date value least today p key shift_key date
          ≡ (move_focus value least today p target, true))
unfolding navigate_date
navigate_date_month value least today p key shift_key date a v h e =
    let small = month_offset_small key shift_key a e in
    let r = page_target_lem date a v h small.0 in
    (page_target date a, r.0, r.1, r.2, rw (small.1 date, e, navigate_date) refl)

-- Whatever date is asked for, `moveFocus` focuses a day that is not below the least date and shows
-- its month; the day is the one asked for, or the least date itself.
pub move_focus_lem :
    (value least : Text) (today : Date) (p : Picker) (date : Date)
    → (next : Date) × (move_focus value least today p date ≡ record p {
      focus_day = true;
      focused_date = to_date_value next;
      visible_month = start_of_month next;
    })
      × (is_below value least today (minimum value least today) next ≡ false)
      × ((next ≡ date) ⊎ (minimum value least today ≡ some next))
unfolding move_focus
move_focus_lem value least today p date =
    let r = clamp_lem value least today (minimum value least today) date in
    (clamp value least today (minimum value least today) date, refl, r.0, r.1)
