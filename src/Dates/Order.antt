-- ===== src/Dates/Order.antt =====
-- The number of a day orders the valid dates as the calendar does, and tells them apart.
use imagesilo.Common.{ℕ, zero, suc, ◌+◌, ◌≤◌, ◌<◌, ◌≡◌, ap, arith}
use native.Mathlib.Decide.{dec_le}
use imagesilo.Dates.{
  Date, IsValid, days_in_month, days_before_month, days_before_year, ordinal, weekday,
}
use imagesilo.Dates.Calendar.{days_before_next_year}

days_before_month_mono : (y m n : ℕ) → m ≤ n → days_before_month y m ≤ days_before_month y n
unfolding days_before_month
days_before_month_mono y m zero h = let e : m ≡ 0 = omega arith in rw e (omega arith)
days_before_month_mono y m (suc n) h = elim (dec_le m n) [
  | yes p ↦ omega (arith, days_before_month_mono y m n p)
  | no p ↦ let e : m ≡ suc n = omega arith in rw e (omega arith)
]

days_before_year_mono : (y z : ℕ) → y ≤ z → days_before_year y ≤ days_before_year z
days_before_year_mono y zero h = let e : y ≡ 0 = omega arith in rw e (omega arith)
days_before_year_mono y (suc z) h = elim (dec_le y z) [
  | yes p ↦ omega (arith, days_before_year_mono y z p, days_before_next_year z)
  | no p ↦ let e : y ≡ suc z = omega arith in rw e (omega arith)
]

through_month :
    (y m n : ℕ) → m < n → days_before_month y m + days_in_month y m ≤ days_before_month y n
through_month y m n h = let whole = days_before_month_mono y (suc m) n h in whole_month whole
  where
    whole_month :
        days_before_month y (suc m) ≤ days_before_month y n
        → days_before_month y m + days_in_month y m ≤ days_before_month y n
    whole_month k = unfold days_before_month in k

ordinal_of_month :
    (d : Date)
    → IsValid d
    → (days_before_year d.year + days_before_month d.year d.month < ordinal d)
      × (ordinal d
          ≤ days_before_year d.year
            + days_before_month d.year d.month
            + days_in_month d.year d.month)
unfolding ordinal
ordinal_of_month d v = omega arith

ordinal_of_year :
    (d : Date)
    → IsValid d
    → (days_before_year d.year < ordinal d) × (ordinal d ≤ days_before_year (suc d.year))
ordinal_of_year d v = omega (
  arith,
  ordinal_of_month d v,
  through_month d.year d.month 12 v.month_fits,
  days_before_next_year d.year,
)

year-le : (a b : Date) → IsValid a → IsValid b → ordinal a ≤ ordinal b → a.year ≤ b.year
year-le a b va vb h = elim (dec_le a.year b.year) [
  | yes p ↦ p
  | no p ↦ absurd (
      omega (
        arith,
        ordinal_of_year a va,
        ordinal_of_year b vb,
        days_before_year_mono (suc b.year) a.year (omega arith),
      ))
]

month-le :
    (a b : Date)
    → IsValid a
    → IsValid b
    → a.year ≡ b.year
    → ordinal a ≤ ordinal b
    → a.month ≤ b.month
month-le a b va vb same h = elim (dec_le a.month b.month) [
  | yes p ↦ p
  | no p ↦ absurd (
      omega (
        arith,
        ordinal_of_month a va,
        ordinal_of_month b vb,
        through_month b.year b.month a.month (omega arith),
        ap days_before_year same,
        ap (λ y. days_before_month y a.month) same,
      ))
]

-- Two valid dates with one number are one date.
pub ordinal-injective : (a b : Date) → IsValid a → IsValid b → ordinal a ≡ ordinal b → a ≡ b
ordinal-injective a b va vb e =
    let years : a.year ≡ b.year =
      omega (arith, year-le a b va vb (omega arith), year-le b a vb va (omega arith)) in
    let months : a.month ≡ b.month = omega (
      arith,
      month-le a b va vb years (omega arith),
      month-le b a vb va (omega arith) (omega arith),
    ) in
    same_day years months e
  where
    same_day : a.year ≡ b.year → a.month ≡ b.month → ordinal a ≡ ordinal b → a ≡ b
    same_day y m o = unfold ordinal in ground arith

pub weekday-lt : (d : Date) → weekday d < 7
unfolding weekday
weekday-lt d = omega arith
