-- ===== src/Settings/Values.antt =====
-- What `numberValue` reads.
use imagesilo.Common.{
  ℕ, ◌≤◌, ◌≡◌, refl, false, ◌&&◌, Option, none, some, [], leb, ◌==◌, nat_eq, list_eq, if◌then◌else◌,
  arith, Bool-cases, inl, inr,
}
use imagesilo.Common.Text.{Text, trim, decimal}
use imagesilo.Numbers.{finite, number, natural}
use imagesilo.Numbers.Reading.{number-decimal, trim-decimal, decimal_filled}
use imagesilo.Settings.{number_value, in_range}

natural_whole : (n : ℕ) → natural (finite false n 0) ≡ some n
unfolding natural
natural_whole n = ground (arith)

in_range_bounds :
    (least most n : ℕ) (o : Option ℕ) → in_range least most o ≡ some n → (least ≤ n) × (n ≤ most)
in_range_bounds least most n none e = cc
in_range_bounds least most n (some value) e = ground (arith, e)

-- A number that is read lies within the bounds.
pub number_value_bounds :
    (raw : Text) (least most n : ℕ)
    → number_value raw least most ≡ some n
    → (least ≤ n) × (n ≤ most)
unfolding number_value
number_value_bounds raw least most n e = elim (Bool-cases (trim raw == [])) [
  | inl blank ↦ cc (rw blank at e)
  | inr filled ↦ in_range_bounds least most n (natural (number raw)) (rw filled at e)
]

-- The digits of a number are read back where the number lies within the bounds.
pub number_value-decimal :
    (least most n : ℕ)
    → number_value (decimal n) least most ≡ (if leb least n && leb n most then some n else none)
unfolding number_value
number_value-decimal least most n =
    rw (trim-decimal n, decimal_filled n, number-decimal n, natural_whole n, number_value) refl
