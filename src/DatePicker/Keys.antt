-- ===== src/DatePicker/Keys.antt =====
-- The keys that move the focus by days, in terms of the calendar.
use imagesilo.Common.{
  sym, ap, ◌∙◌, suc, ◌+◌, ◌-◌, ◌≤◌, ◌<◌, ◌≡◌, ◌⊎◌, inl, inr, refl, Bool, true, false, some, arith,
}
use imagesilo.Common.Int.{ℤ, pos, negsuc, neg}
use imagesilo.Common.Text.{Text}
use imagesilo.Dates.{Date, IsValid, ordinal, weekday, new_date}
use imagesilo.Dates.Construct.{pos_part, neg_part, new_date-IsValid, new_date-year}
use imagesilo.DatePicker.{
  Key, Picker, plus, to_date_value, start_of_month, key_offset, minimum, clamp, move_focus,
  navigate_date,
}
use imagesilo.DatePicker.Page.{plus-neg_part, neg_parts}
use imagesilo.DatePicker.Choice.{IsFree, IsLate, least_cases}
use imagesilo.DatePicker.Navigation.{key_offset_small, offset_target}

-- The day that a key leads to from a date: the day before, the day after, the same weekday a week
-- before or after, the Sunday and the Saturday of the week. The other keys lead to no day.
abbrev pub IsReached : Key → Date → Date → Type 0
IsReached Key.arrow_left date target = suc (ordinal target) ≡ ordinal date
IsReached Key.arrow_right date target = ordinal target ≡ suc (ordinal date)
IsReached Key.arrow_up date target = ordinal target + 7 ≡ ordinal date
IsReached Key.arrow_down date target = ordinal target ≡ ordinal date + 7
IsReached Key.home date target =
    (weekday target ≡ 0) × (ordinal target ≤ ordinal date) × (ordinal date < ordinal target + 7)
IsReached Key.end date target =
    (weekday target ≡ 6) × (ordinal date ≤ ordinal target) × (ordinal target < ordinal date + 7)
IsReached _ date target = ⊥

abbrev pub is_day_key : Key → Bool
is_day_key Key.page_up = false
is_day_key Key.page_down = false
is_day_key Key.escape = false
is_day_key Key.other = false
is_day_key _ = true

abbrev pub focusing : Picker → Date → Picker
focusing p next = record p {
  focus_day = true;
  focused_date = to_date_value next;
  visible_month = start_of_month next;
}

key_offset_known :
    (key : Key) (date : Date) → is_day_key key ≡ true → (o : ℤ) × (key_offset key date ≡ some o)
key_offset_known Key.arrow_left date h = (negsuc 0, refl)
key_offset_known Key.arrow_right date h = (pos 1, refl)
key_offset_known Key.arrow_up date h = (negsuc 6, refl)
key_offset_known Key.arrow_down date h = (pos 7, refl)
key_offset_known Key.home date h = (neg (weekday date), refl)
key_offset_known Key.end date h = (pos (6 - weekday date), refl)
key_offset_known _ date h = cc

days_moved :
    (key : Key) (date target : Date) (o : ℤ)
    → key_offset key date ≡ some o
    → is_day_key key ≡ true
    → ordinal target + neg_part o ≡ ordinal date + pos_part o
    → IsReached key date target
days_moved Key.arrow_left date target o e h k = ground (arith, e, k)
days_moved Key.arrow_right date target o e h k = ground (arith, e, k)
days_moved Key.arrow_up date target o e h k = ground (arith, e, k)
days_moved Key.arrow_down date target o e h k = ground (arith, e, k)
days_moved Key.home date target o e h k =
    let f : neg (weekday date) ≡ o = cc in
    let k' : ordinal target + neg_part (neg (weekday date))
        ≡ ordinal date + pos_part (neg (weekday date)) =
      rw f k in
    let moved : ordinal target + weekday date ≡ ordinal date =
      omega (arith, neg_parts (weekday date), k') in
    unfold weekday in (omega (arith, moved), omega (arith, moved), omega (arith, moved))
days_moved Key.end date target o e h k =
    let f : pos (6 - weekday date) ≡ o = cc in
    let k' : ordinal target + neg_part (pos (6 - weekday date))
        ≡ ordinal date + pos_part (pos (6 - weekday date)) =
      ap (λ z. ordinal target + neg_part z) f ∙ k ∙ ap (λ z. ordinal date + pos_part z) (sym f) in
    unfold weekday in (omega (arith, k'), omega (arith, k'), omega (arith, k'))
days_moved _ date target o e h k = cc

-- Where the focus goes when a date is asked for.
clamped :
    (value least : Text) (today : Date) (p : Picker) (date : Date)
    → IsLate value least today
    → IsValid date
    → 100 ≤ date.year
    → ((move_focus value least today p date ≡ focusing p date) × IsFree value least today date)
      ⊎ ((bound : Date) × (minimum value least today ≡ some bound)
          × (ordinal date < ordinal bound)
          × (move_focus value least today p date ≡ focusing p bound))
unfolding move_focus clamp
clamped value least today p date late v h = elim (least_cases value least today date late v h) [
  | inl (above, free) ↦ inl (rw (above, move_focus, clamp) refl, free)
  | inr (below, (bound, e, before)) ↦ inr (bound, e, before, rw (below, e, move_focus, clamp) refl)
]

-- From a date of the year 1000 or later, where a least date is from the year 100 on, each of the arrow
-- keys, Home and End leads to a day of the calendar: the day before or after, the same weekday a week
-- before or after, the Sunday or the Saturday of the date's week. The focus goes to that day and its month
-- is shown, unless a least date is a later day, to which it goes then; and the browser's own reaction is
-- prevented.
pub navigate_date_offset :
    (value least : Text) (today : Date) (p : Picker) (key : Key) (shift_key : Bool) (date : Date)
    → IsLate value least today
    → IsValid date
    → 1000 ≤ date.year
    → is_day_key key ≡ true
    → (target : Date) × IsValid target
      × IsReached key date target
      × ((navigate_date value least today p key shift_key date).1 ≡ true)
      × ((((navigate_date value least today p key shift_key date).0 ≡ focusing p target)
            × IsFree value least today target)
          ⊎ ((bound : Date) × (minimum value least today ≡ some bound)
              × (ordinal target < ordinal bound)
              × ((navigate_date value least today p key shift_key date).0 ≡ focusing p bound)))
unfolding navigate_date
navigate_date_offset value least today p key shift_key date late v h is_day =
    let (o, e) = key_offset_known key date is_day in
    let target = new_date date.year (pos date.month) (plus date.day o) in
    let small = key_offset_small key date o e in
    let target_valid = new_date-IsValid date.year (pos date.month) (plus date.day o) in
    let year_enough : 100 ≤ target.year = omega (
      arith,
      new_date-year date.year date.month (plus date.day o) (omega arith) v.month_fits,
      plus-neg_part date.day o,
    ) in
    (
      target,
      target_valid,
      days_moved key date target o e is_day (offset_target date o v h small),
      rw (e, navigate_date) refl,
      rw (e, navigate_date) (clamped value least today p target late target_valid year_enough),
    )
