-- ===== src/DatePicker.antt =====
-- The date picker, web/src/components/ui/date-picker.tsx: the text form of a date, the calendar
-- page, keyboard navigation, the choice of a day, and what the popover shows.
pub mod Format
pub mod Parsing
pub mod Page
pub mod Navigation
pub mod Choice
pub mod Keys
mod Examples
use imagesilo.Common.{
  ℕ, zero, suc, ◌+◌, ◌-◌, ◌*◌, Bool, true, false, not, ◌&&◌, ◌||◌, Option, none, some, List, [],
  ◌∷◌, ◌++◌, map, ltb, leb, ◌==◌, nat_eq, list_eq, if◌then◌else◌, ◌>>=◌, or_else, is_some, min,
}
use imagesilo.Common.Int.{ℤ, pos, negsuc, neg}
use imagesilo.Common.Text.{Text, codes, decimal, pad_start}
use imagesilo.Dates.{Date, ordinal, weekday, new_date}

unfoldable pub is_digit : ℕ → Bool
is_digit c = leb 48 c && leb c 57

abbrev pub digit : ℕ → ℕ
digit c = c - 48

-- The groups of `/^(\d{4})-(\d{2})-(\d{2})$/`, as numbers.
unfoldable pub match_date : Text → Option (ℕ × ℕ × ℕ)
match_date (a ∷ b ∷ c ∷ d ∷ h ∷ e ∷ f ∷ k ∷ g ∷ i ∷ []) =
    if is_digit a
      && is_digit b
      && is_digit c
      && is_digit d
      && h == 45
      && is_digit e
      && is_digit f
      && k == 45
      && is_digit g
      && is_digit i
    then some (
      1000 * digit a + 100 * digit b + 10 * digit c + digit d,
      10 * digit e + digit f,
      10 * digit g + digit i,
    )
    else none
match_date _ = none

-- `n - 1`, which may be negative.
abbrev pub less_one : ℕ → ℤ
less_one zero = negsuc 0
less_one (suc n) = pos n

unfoldable pub check_date : ℕ → ℕ → ℕ → Date → Option Date
check_date year month day result =
    if not (result.year == year) || not (result.month + 1 == month) || not (result.day == day)
    then none
    else some result

unfoldable pub parse_date : Text → Option Date
unfolding match_date check_date
parse_date value = do
  (year, month, day) ← match_date value
  check_date year month day (new_date year (less_one month) (pos day))

unfoldable pub to_date_value : Date → Text
to_date_value date =
    decimal date.year
    ++ 45 ∷ (pad_start 2 48 (decimal (date.month + 1)) ++ 45 ∷ pad_start 2 48 (decimal date.day))

-- The time at the start of a day, in days.
unfoldable pub start_of_day : Date → ℕ
start_of_day date = ordinal (new_date date.year (pos date.month) (pos date.day))

unfoldable pub start_of_month : Date → Date
start_of_month date = new_date date.year (pos date.month) (pos 1)

abbrev pub plus : ℕ → ℤ → ℤ
plus n (pos k) = pos (n + k)
plus n (negsuc k) = if leb (suc k) n then pos (n - suc k) else negsuc (k - n)

unfoldable pub add_months : Date → ℤ → Date
add_months date amount = new_date date.year (plus date.month amount) (pos 1)

abbrev pub count_days : Date → ℕ → ℕ → List Date
count_days start index zero = []
count_days start index (suc n) =
    new_date start.year (pos start.month) (pos (start.day + index)) ∷ count_days start (suc index) n

abbrev pub page_start : Date → Date
page_start month = new_date month.year (pos month.month) (plus 1 (neg (weekday month)))

unfoldable pub calendar_days : Date → List Date
calendar_days month = count_days (page_start month) 0 42

pub data Key : Type 0 where
  arrow_left arrow_right arrow_up arrow_down home end page_up page_down escape other : Key

pub record Picker : Type 0 where
  pub is_open : Bool
  pub focused_date : Text
  pub focus_day : Bool
  pub visible_month : Date

-- A handler's new state, with the value that it hands to `onChange`, if any.
abbrev pub Handled : Type 0
Handled = Picker × Option Text

-- The table `offsets` of `navigateDate`.
abbrev pub key_offset : Key → Date → Option ℤ
key_offset arrow_left date = some (negsuc 0)
key_offset arrow_right date = some (pos 1)
key_offset arrow_up date = some (negsuc 6)
key_offset arrow_down date = some (pos 7)
key_offset home date = some (neg (weekday date))
key_offset end date = some (pos (6 - weekday date))
key_offset _ date = none

abbrev pub month_offset : Key → Bool → Option ℤ
month_offset page_up shift_key = some (if shift_key then negsuc 11 else negsuc 0)
month_offset page_down shift_key = some (if shift_key then pos 12 else pos 1)
month_offset _ shift_key = none

abbrev pub page_target : Date → ℤ → Date
page_target date amount =
    let month = add_months date amount in
    let last_day = (new_date month.year (pos (month.month + 1)) (pos 0)).day in
    new_date month.year (pos month.month) (pos (min date.day last_day))

-- The properties of the component: its value, the least date, and the current day.
module _ (value least : Text) (today : Date) where
  unfoldable pub selected : Option Date
  unfolding parse_date
  selected = parse_date value

  unfoldable pub minimum : Option Date
  unfolding parse_date
  minimum = parse_date least

  -- `minimum && startOfDay(date) < startOfDay(minimum)`
  unfoldable pub is_below : Option Date → Date → Bool
  is_below none date = false
  is_below (some bound) date = ltb (start_of_day date) (start_of_day bound)

  unfoldable pub clamp : Option Date → Date → Date
  unfolding is_below
  clamp bound date = if is_below bound date then or_else bound date else date

  pub move_focus : Picker → Date → Picker
  unfolding clamp
  move_focus p date =
      let next = clamp minimum date in
      record p {
        focus_day = true;
        focused_date = to_date_value next;
        visible_month = start_of_month next;
      }

  -- The flag says whether the browser's own reaction to the key is prevented.
  pub navigate_date : Picker → Key → Bool → Date → Picker × Bool
  navigate_date p key shift_key date = elim (key_offset key date) [
    | some offset ↦
        (move_focus p (new_date date.year (pos date.month) (plus date.day offset)), true)
    | none ↦ elim (month_offset key shift_key) [
      | some amount ↦ (move_focus p (page_target date amount), true)
      | none ↦ (p, false)
    ]
  ]

  pub change_month : Picker → ℤ → Picker
  unfolding clamp
  change_month p amount =
      let month = add_months p.visible_month amount in
      let first_enabled = clamp minimum month in
      record p { visible_month = month; focused_date = to_date_value first_enabled }

  pub select_date : Picker → Date → Handled
  unfolding is_below
  select_date p date = if is_below minimum date then (p, none) else (
    record p { visible_month = start_of_month date; is_open = false },
    some (to_date_value date),
  )

  pub show_picker : Picker → Picker
  unfolding move_focus
  show_picker p =
      let moved = if p.is_open then p else move_focus p (or_else selected today) in
      record moved { is_open = not moved.is_open }

  -- The button that clears the value.
  pub clear_date : Picker → Handled
  clear_date p = (record p { is_open = false }, some [])

  -- A pointer press or a focus change outside closes the popover; so does Escape inside.
  pub on_outside : Picker → Bool → Picker
  on_outside p inside = if p.is_open && not inside then record p { is_open = false } else p

  pub on_key_down : Picker → Key → Bool → Picker
  on_key_down p escape inside = if p.is_open && inside then record p { is_open = false } else p
  on_key_down p _ inside = p

  -- What the grid shows of one day.
  pub record DayCell : Type 0 where
    pub date_value : Text
    pub is_pressed : Bool
    pub in_tab_order : Bool
    pub is_disabled : Bool
    pub is_outside : Bool
    pub is_today : Bool

  pub day_cell : Picker → Date → DayCell
  unfolding is_below
  day_cell p date = record {
    date_value = to_date_value date;
    is_pressed = to_date_value date == value;
    in_tab_order = to_date_value date == p.focused_date;
    is_disabled = is_below minimum date;
    is_outside = not (date.month == p.visible_month.month);
    is_today = to_date_value date == to_date_value today;
  }

  pub day_cells : Picker → List DayCell
  unfolding calendar_days day_cell
  day_cells p = map (day_cell p) (calendar_days p.visible_month)

  pub previous_is_disabled : Picker → Bool
  previous_is_disabled p = elim minimum [
    | none ↦ false
    | some bound ↦ leb (ordinal p.visible_month) (ordinal (start_of_month bound))
  ]

  pub today_is_disabled : Bool
  unfolding is_below
  today_is_disabled = is_below minimum today
