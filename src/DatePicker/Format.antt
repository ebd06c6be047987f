-- ===== src/DatePicker/Format.antt =====
-- Printing a date and reading it back.
use imagesilo.Common.{
  ℕ, zero, suc, ◌+◌, ◌*◌, ◌/◌, ◌%◌, ◌≤◌, ◌<◌, ◌≡◌, refl, ap, ◌∙◌, some, [], ◌∷◌, arith, true,
  nat_eq,
}
use native.Mathlib.Decide.{dec_lt}
use native.Mathlib.Numerals.{add-one}
use imagesilo.Common.Int.{pos}
use imagesilo.Common.Text.{Text, digits, decimal, pad_start}
use imagesilo.Dates.{Date, IsValid}
use imagesilo.Dates.Calendar.{days_in_month_bounds}
use imagesilo.Dates.Construct.{new_date_civil}
use imagesilo.DatePicker.{is_digit, match_date, check_date, parse_date, to_date_value, less_one}

one_digit : (f n : ℕ) (acc : Text) → n < 10 → digits (suc f) n acc ≡ (48 + n) ∷ acc
unfolding digits
one_digit f n acc h = ground arith

more_digits :
    (f n : ℕ) (acc : Text) → 10 ≤ n → digits (suc f) n acc ≡ digits f (n / 10) ((48 + n % 10) ∷ acc)
unfolding digits
more_digits f n acc h = ground arith

two_digits :
    (f n : ℕ) (acc : Text)
    → 10 ≤ n
    → n < 100
    → digits (suc (suc f)) n acc ≡ (48 + n / 10) ∷ (48 + n % 10) ∷ acc
two_digits f n acc h k =
    more_digits (suc f) n acc h ∙ one_digit f (n / 10) ((48 + n % 10) ∷ acc) (omega arith)

four_digits :
    (f n : ℕ)
    → 1000 ≤ n
    → n < 10000
    → digits (suc (suc (suc (suc f)))) n []
      ≡ (48 + n / 1000) ∷ (48 + n / 100 % 10) ∷ (48 + n / 10 % 10) ∷ (48 + n % 10) ∷ []
four_digits f n h k =
    more_digits (suc (suc (suc f))) n [] h'
    ∙ more_digits (suc (suc f)) (n / 10) ((48 + n % 10) ∷ []) (omega arith)
    ∙ two_digits f (n / 10 / 10) ((48 + n / 10 % 10) ∷ (48 + n % 10) ∷ []) (omega arith)
        (omega arith)
    ∙ ground arith
  where
    h' : 10 ≤ n
    h' = omega arith

-- A year of four digits.
pub decimal_year :
    (n : ℕ)
    → 1000 ≤ n
    → n < 10000
    → decimal n ≡ (48 + n / 1000) ∷ (48 + n / 100 % 10) ∷ (48 + n / 10 % 10) ∷ (48 + n % 10) ∷ []
unfolding decimal
decimal_year (suc (suc (suc n))) h k = four_digits n (suc (suc (suc n))) h k
decimal_year zero h k = absurd (omega arith)
decimal_year (suc zero) h k = absurd (omega arith)
decimal_year (suc (suc zero)) h k = absurd (omega arith)

short_decimal : (n : ℕ) → n < 10 → decimal n ≡ (48 + n) ∷ []
unfolding decimal
short_decimal n h = one_digit n n [] h

long_decimal : (n : ℕ) → 10 ≤ n → n < 100 → decimal n ≡ (48 + n / 10) ∷ (48 + n % 10) ∷ []
unfolding decimal
long_decimal zero h k = absurd (omega arith)
long_decimal (suc n) h k = two_digits n (suc n) [] h k

-- A month or a day, padded to two digits.
pub pad_two : (n : ℕ) → n < 100 → pad_start 2 48 (decimal n) ≡ (48 + n / 10) ∷ (48 + n % 10) ∷ []
unfolding pad_start
pad_two n h = elim (dec_lt n 10) [
  | yes p ↦ rw (short_decimal n p) (ground arith)
  | no p ↦ rw (long_decimal n (omega arith) h) refl
]

-- The text of a date with a year of four digits, digit by digit.
pub to_date_value_lem :
    (d : Date)
    → 1000 ≤ d.year
    → d.year < 10000
    → d.month < 99
    → d.day < 100
    → to_date_value d
      ≡ (48 + d.year / 1000)
        ∷ (48 + d.year / 100 % 10)
        ∷ (48 + d.year / 10 % 10)
        ∷ (48 + d.year % 10)
        ∷ 45
        ∷ (48 + (d.month + 1) / 10)
        ∷ (48 + (d.month + 1) % 10)
        ∷ 45
        ∷ (48 + d.day / 10)
        ∷ (48 + d.day % 10)
        ∷ []
unfolding to_date_value
to_date_value_lem d h k m n =
    rw (decimal_year d.year h k)
      (rw (pad_two (d.month + 1) (omega arith)) (rw (pad_two d.day n) refl))

pub is_digit_shown : (a : ℕ) → a < 10 → is_digit (48 + a) ≡ true
unfolding is_digit
is_digit_shown a h = ground arith

match_digits :
    (a b c d e f g i : ℕ)
    → a < 10
    → b < 10
    → c < 10
    → d < 10
    → e < 10
    → f < 10
    → g < 10
    → i < 10
    → match_date (
        (48 + a)
        ∷ (48 + b)
        ∷ (48 + c)
        ∷ (48 + d)
        ∷ 45
        ∷ (48 + e)
        ∷ (48 + f)
        ∷ 45
        ∷ (48 + g)
        ∷ (48 + i)
        ∷ [])
      ≡ some (1000 * a + 100 * b + 10 * c + d, 10 * e + f, 10 * g + i)
unfolding match_date
match_digits a b c d e f g i ha hb hc hd he hf hg hi = ground (
  arith,
  is_digit_shown a ha,
  is_digit_shown b hb,
  is_digit_shown c hc,
  is_digit_shown d hd,
  is_digit_shown e he,
  is_digit_shown f hf,
  is_digit_shown g hg,
  is_digit_shown i hi,
)

-- The groups of a printed date are its year, its month from 1, and its day.
pub match_date-to_date_value :
    (d : Date)
    → 1000 ≤ d.year
    → d.year < 10000
    → d.month < 12
    → d.day < 100
    → match_date (to_date_value d) ≡ some (d.year, d.month + 1, d.day)
match_date-to_date_value d h k m n =
    ap match_date (to_date_value_lem d h k (omega arith) n)
    ∙ match_digits (d.year / 1000) (d.year / 100 % 10) (d.year / 10 % 10) (d.year % 10)
        ((d.month + 1) / 10) ((d.month + 1) % 10) (d.day / 10) (d.day % 10) (omega arith)
        (omega arith) (omega arith) (omega arith) (omega arith) (omega arith) (omega arith)
        (omega arith)
    ∙ ground arith

less_one-add_one : (n : ℕ) → less_one (n + 1) ≡ pos n
less_one-add_one n = rw add-one

check_date_same : (d : Date) → check_date d.year (d.month + 1) d.day d ≡ some d
unfolding check_date
check_date_same d = ground arith

-- A date that is printed by `toDateValue` is read back by `parseDate` as the same date, if it is a
-- day of the calendar and its year has four digits.
pub parse_date-to_date_value :
    (d : Date) → IsValid d → 1000 ≤ d.year → d.year < 10000 → parse_date (to_date_value d) ≡ some d
unfolding parse_date
parse_date-to_date_value d v h k =
    rw
      (
        match_date-to_date_value d h k v.month_fits
            (omega (arith, v, days_in_month_bounds d.year d.month)),
        less_one-add_one d.month,
        new_date_civil d v (omega arith),
      )
      (check_date_same d)
