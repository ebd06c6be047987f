-- ===== src/DatePicker/Parsing.antt =====
-- What `parseDate` accepts.
use imagesilo.Common.{
  ℕ, ◌+◌, ◌-◌, ◌*◌, ◌/◌, ◌%◌, ◌≤◌, ◌<◌, ◌≡◌, sym, ◌∙◌, some, [], ◌∷◌, arith, true, inl, inr,
  Option-cases,
}
use imagesilo.Common.Int.{pos}
use imagesilo.Common.Text.{Text}
use imagesilo.Dates.{Date, IsValid, new_date}
use imagesilo.Dates.Construct.{new_date-IsValid}
use imagesilo.DatePicker.{is_digit, match_date, check_date, parse_date, to_date_value, less_one}
use imagesilo.DatePicker.Format.{to_date_value_lem}

-- The text that the pattern matches with these groups.
abbrev shown : ℕ → ℕ → ℕ → Text
shown y m n =
    (48 + y / 1000)
    ∷ (48 + y / 100 % 10)
    ∷ (48 + y / 10 % 10)
    ∷ (48 + y % 10)
    ∷ 45
    ∷ (48 + m / 10)
    ∷ (48 + m % 10)
    ∷ 45
    ∷ (48 + n / 10)
    ∷ (48 + n % 10)
    ∷ []

is_digit_bounds : (c : ℕ) → is_digit c ≡ true → (48 ≤ c) × (c ≤ 57)
unfolding is_digit
is_digit_bounds c h = ground arith

-- Two digits, and the number that they show.
two_shown :
    (a b n : ℕ)
    → is_digit a ≡ true
    → is_digit b ≡ true
    → n ≡ 10 * (a - 48) + (b - 48)
    → (n < 100) × (a ≡ 48 + n / 10) × (b ≡ 48 + n % 10)
two_shown a b n ha hb e =
    let pa = is_digit_bounds a ha in let pb = is_digit_bounds b hb in omega arith

four_shown :
    (a b c d n : ℕ)
    → is_digit a ≡ true
    → is_digit b ≡ true
    → is_digit c ≡ true
    → is_digit d ≡ true
    → n ≡ 1000 * (a - 48) + 100 * (b - 48) + 10 * (c - 48) + (d - 48)
    → (n < 10000)
      × (a ≡ 48 + n / 1000)
      × (b ≡ 48 + n / 100 % 10)
      × (c ≡ 48 + n / 10 % 10)
      × (d ≡ 48 + n % 10)
four_shown a b c d n ha hb hc hd e =
    let pa = is_digit_bounds a ha in
    let pb = is_digit_bounds b hb in
    let pc = is_digit_bounds c hc in let pd = is_digit_bounds d hd in omega arith

record Groups (a b c d h e f k g i y m n : ℕ) : Type 0 where
  first : is_digit a ≡ true
  second : is_digit b ≡ true
  third : is_digit c ≡ true
  fourth : is_digit d ≡ true
  dash : h ≡ 45
  fifth : is_digit e ≡ true
  sixth : is_digit f ≡ true
  dash' : k ≡ 45
  seventh : is_digit g ≡ true
  eighth : is_digit i ≡ true
  year : y ≡ 1000 * (a - 48) + 100 * (b - 48) + 10 * (c - 48) + (d - 48)
  month : m ≡ 10 * (e - 48) + (f - 48)
  day : n ≡ 10 * (g - 48) + (i - 48)

groups :
    (a b c d h e f k g i y m n : ℕ)
    → match_date (a ∷ b ∷ c ∷ d ∷ h ∷ e ∷ f ∷ k ∷ g ∷ i ∷ []) ≡ some (y, m, n)
    → Groups a b c d h e f k g i y m n
unfolding match_date
groups a b c d h e f k g i y m n p = ground arith

match_date_sound :
    (s : Text) (y m n : ℕ)
    → match_date s ≡ some (y, m, n)
    → (y < 10000) × (m < 100) × (n < 100) × (s ≡ shown y m n)
unfolding match_date
match_date_sound (a ∷ b ∷ c ∷ d ∷ h ∷ e ∷ f ∷ k ∷ g ∷ i ∷ []) y m n p =
    let r = groups a b c d h e f k g i y m n p in
    let years = four_shown a b c d y r.first r.second r.third r.fourth r.year in
    let months = two_shown e f m r.fifth r.sixth r.month in
    let days = two_shown g i n r.seventh r.eighth r.day in
    (
      years.0,
      months.0,
      days.0,
      cc (years.1, years.2, years.3, years.4, r.dash, months.1, months.2, r.dash', days.1, days.2),
    )
match_date_sound _ y m n p = cc

check_date_sound :
    (y m n : ℕ) (r d : Date)
    → check_date y m n r ≡ some d
    → (r ≡ d) × (d.year ≡ y) × (d.month + 1 ≡ m) × (d.day ≡ n)
unfolding check_date
check_date_sound y m n r d p = ground arith

parse_date_parts :
    (s : Text) (d : Date)
    → parse_date s ≡ some d
    → IsValid d × (1000 ≤ d.year → to_date_value d ≡ s)
unfolding parse_date
parse_date_parts s d p = elim (Option-cases (match_date s)) [
  | inl missed ↦ absurd (cc (rw missed at p))
  | inr ((y, m, n), matched) ↦
      let checked = check_date_sound y m n (new_date y (less_one m) (pos n)) d (rw matched at p) in
      let found = match_date_sound s y m n matched in
      (
        rw (← checked.0) (new_date-IsValid y (less_one m) (pos n)),
        λ h. printed y m n checked.1 checked.2 checked.3 found h,
      )
]
  where
    printed :
        (y m n : ℕ)
        → d.year ≡ y
        → d.month + 1 ≡ m
        → d.day ≡ n
        → (y < 10000) × (m < 100) × (n < 100) × (s ≡ shown y m n)
        → 1000 ≤ d.year
        → to_date_value d ≡ s
    printed y m n ey em en (years, months, days, text) h =
        to_date_value_lem d h (omega arith) (omega arith) (omega arith)
        ∙ shown_same ey em en
        ∙ sym text
      where
        shown_same :
            d.year ≡ y
            → d.month + 1 ≡ m
            → d.day ≡ n
            → shown d.year (d.month + 1) d.day ≡ shown y m n
        shown_same p q r = cc

pub parse_date-IsValid : (s : Text) (d : Date) → parse_date s ≡ some d → IsValid d
parse_date-IsValid s d p = (parse_date_parts s d p).0

-- A text that `parseDate` reads as a date with a year of at least 1000 names a day of the calendar,
-- and `toDateValue` prints that date as the same text.
pub parse_date_sound :
    (s : Text) (d : Date)
    → parse_date s ≡ some d
    → 1000 ≤ d.year
    → IsValid d × (to_date_value d ≡ s)
parse_date_sound s d p h = let r = parse_date_parts s d p in (r.0, r.1 h)
