-- ===== src/Numbers.antt =====
-- `Number(text)` of JavaScript, as the forms of web/src use it: the number that the text writes, before
-- it is rounded to a floating-point number (`Doubles`). A finite number is a natural number over a power of ten, with a sign.
pub mod Reading
pub mod Doubles
use imagesilo.Common.{
  ℕ, zero, suc, ◌+◌, ◌-◌, ◌*◌, ◌/◌, ◌%◌, Bool, true, false, not, ◌&&◌, ◌||◌, Option, none, some,
  List, [], ◌∷◌, leb, ltb, ◌==◌, nat_eq, list_eq, if◌then◌else◌,
}
use imagesilo.Common.Text.{Text, codes, trim, lower}

pub data Number : Type 0 where
  nan : Number
  infinite : Bool → Number
  finite : Bool → ℕ → ℕ → Number

abbrev pub pow10 : ℕ → ℕ
pow10 zero = 1
pow10 (suc n) = 10 * pow10 n

abbrev pub is_digit : ℕ → Bool
is_digit c = leb 48 c && leb c 57

-- The digits at the start of a text, read after `acc`: the value, how many there are, and the rest.
unfoldable pub scan_digits : ℕ → ℕ → Text → ℕ × ℕ × Text
scan_digits acc n [] = (acc, n, [])
scan_digits acc n (c ∷ s) =
    let rest = scan_digits (10 * acc + (c - 48)) (suc n) s in
    if is_digit c then rest else (acc, n, c ∷ s)

-- A value with `places` digits after the point and an exponent.
abbrev pub scaled : ℕ → ℕ → Bool → ℕ → Number
scaled value places is_negative exponent =
    if is_negative
    then finite false value (places + exponent)
    else finite false (value * pow10 (exponent - places)) (places - exponent)

-- A sign, where there is one: whether it is a minus, and the text after it.
abbrev pub split_sign : Text → Bool × Text
split_sign [] = (false, [])
split_sign (c ∷ s) = if c == 45 then (true, s) else if c == 43 then (false, s) else (false, c ∷ s)

-- What follows the digits: nothing, or an exponent with its sign.
unfoldable pub read_exponent : ℕ → ℕ → Text → Number
unfolding scan_digits lower
read_exponent value places [] = finite false value places
read_exponent value places (c ∷ s) =
    let (is_negative, unsigned) = split_sign s in
    let (exponent, n, rest) = scan_digits 0 0 unsigned in
    if lower c == 101 && not (n == 0) && rest == []
    then scaled value places is_negative exponent
    else nan

abbrev pub after_fraction : ℕ → ℕ × ℕ × Text → Text → Number
after_fraction whole (value, places, rest) s =
    if whole + places == 0
    then (if s == codes "Infinity" then infinite false else nan)
    else read_exponent value places rest

-- `StrUnsignedDecimalLiteral`
unfoldable pub read_unsigned : Text → Number
unfolding scan_digits read_exponent
read_unsigned s =
    let (value, n, rest) = scan_digits 0 0 s in
    elim rest [
      | [] ↦ after_fraction n (value, 0, []) s
      | c ∷ r ↦
          if c == 46
          then after_fraction n (scan_digits value 0 r) s
          else after_fraction n (value, 0, c ∷ r) s
    ]

abbrev pub digit_of : ℕ → ℕ
digit_of c = if is_digit c then c - 48 else c - 87

unfoldable pub read_radix : ℕ → ℕ → Text → Number
unfolding lower
read_radix radix acc [] = finite false acc 0
read_radix radix acc (c ∷ s) =
    let d = lower c in
    let rest = read_radix radix (radix * acc + digit_of d) s in
    if (is_digit d || leb 97 d && leb d 102) && ltb (digit_of d) radix then rest else nan

-- `0x`, `0o` and `0b`, with the text after them.
unfoldable pub radix_prefix : Text → Option (ℕ × Text)
unfolding lower
radix_prefix [] = none
radix_prefix (c ∷ []) = none
radix_prefix (c ∷ x ∷ s) =
    if not (c == 48)
    then none
    else if lower x == 120
    then some (16, s)
    else if lower x == 111
    then some (8, s)
    else if lower x == 98
    then some (2, s)
    else none

abbrev pub negate : Number → Number
negate nan = nan
negate (infinite b) = infinite (not b)
negate (finite b value places) = finite (not b) value places

abbrev pub read_literal : Text → Number
read_literal s = elim (radix_prefix s) [
  | none ↦ read_unsigned s
  | some (radix, digits) ↦ if digits == [] then nan else read_radix radix 0 digits
]

abbrev pub read_signed : Text → Number
read_signed [] = finite false 0 0
read_signed (c ∷ s) =
    if c == 45
    then negate (read_unsigned s)
    else if c == 43
    then read_unsigned s
    else read_literal (c ∷ s)

unfoldable pub number : Text → Number
unfolding trim read_unsigned read_radix radix_prefix
number s = read_signed (trim s)

-- The natural number that it is, where it is one: `Number.isInteger(value)` and `value >= 0`.
unfoldable pub natural : Number → Option ℕ
natural nan = none
natural (infinite _) = none
natural (finite is_negative value places) =
    if is_negative && not (value == 0)
    then none
    else if value % pow10 places == 0
    then some (value / pow10 places)
    else none

-- A positive finite number, as a numerator and a denominator.
unfoldable pub positive : Number → Option (ℕ × ℕ)
positive nan = none
positive (infinite _) = none
positive (finite is_negative value places) =
    if is_negative || value == 0 then none else some (value, pow10 places)
