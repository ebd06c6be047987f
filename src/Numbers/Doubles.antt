-- ===== src/Numbers/Doubles.antt =====
-- Floating-point numbers of 64 bits that are not negative, as JavaScript rounds and prints them.
use imagesilo.Common.{
  ℕ, zero, suc, ◌+◌, ◌-◌, ◌*◌, ◌/◌, ◌%◌, ◌≡◌, refl, Bool, true, false, not, ◌&&◌, ◌||◌, [], ◌∷◌,
  ◌++◌, all, length, leb, ltb, ◌==◌, nat_eq, if◌then◌else◌, arith, Bool-cases, inl, inr, and_left,
  and_right,
}
use imagesilo.Common.Text.{Text, codes, decimal, is_space, trim}
use imagesilo.Numbers.{pow10}
use imagesilo.Numbers.Reading.{trim_solid, decimal_solid}

unfoldable pub pow2 : ℕ → ℕ
pow2 zero = 1
pow2 (suc n) = 2 * pow2 n

-- `scaled_double m up down` is `m * 2 ^ up / 2 ^ down`.
pub data Double : Type 0 where
  infinity : Double
  scaled_double : ℕ → ℕ → ℕ → Double

-- The nearest integer to `n / d`, and the even one of two that are as near.
abbrev pub half_even : ℕ → ℕ → ℕ
half_even n d =
    let q = n / d in
    let twice = 2 * (n % d) in if ltb twice d || twice == d && q % 2 == 0 then q else suc q

-- Below 2 ^ 52 the fraction is doubled, at most 1074 times, so that its 53 bits become whole.
unfoldable pub scale_up : ℕ → ℕ → ℕ → ℕ → Double
scale_up zero n d down = scaled_double (half_even n d) 0 down
scale_up (suc fuel) n d down = elim (ltb n (4503599627370496 * d)) [
  | true ↦ scale_up fuel (2 * n) d (suc down)
  | false ↦ scaled_double (half_even n d) 0 down
]

abbrev pub finite_or_infinity : ℕ → ℕ → Double
finite_or_infinity m up = if leb (pow2 1024) (m * pow2 up) then infinity else scaled_double m up 0

-- From 2 ^ 53 on it is halved; after 972 times it is beyond the greatest number.
unfoldable pub scale_down : ℕ → ℕ → ℕ → ℕ → Double
unfolding pow2
scale_down zero n d up = finite_or_infinity (half_even n d) up
scale_down (suc fuel) n d up = elim (ltb n (9007199254740992 * d)) [
  | true ↦ finite_or_infinity (half_even n d) up
  | false ↦ scale_down fuel n (2 * d) (suc up)
]

-- The nearest floating-point number to the fraction `n / d`.
unfoldable pub nearest : ℕ → ℕ → Double
unfolding scale_up scale_down
nearest n d = elim (ltb n (9007199254740992 * d)) [
  | true ↦ scale_up 1074 n d 0
  | false ↦ scale_down 972 n d 0
]

unfoldable pub is_integer : ℕ → Double → Bool
unfolding pow2
is_integer value infinity = false
is_integer value (scaled_double m up down) = m * pow2 up == value * pow2 down

abbrev pub exponent : ℕ → Text
exponent point = 101 ∷ 43 ∷ decimal (point - 1)

-- The text of the digits `s` with the point after `point` of them, more than 21.
abbrev pub exponent_text : Text → ℕ → Text
exponent_text [] point = []
exponent_text (c ∷ []) point = c ∷ exponent point
exponent_text (c ∷ d ∷ s) point = c ∷ 46 ∷ ((d ∷ s) ++ exponent point)

-- `s` followed by `zeros` zeros
abbrev pub print_scaled : ℕ → ℕ → Text
print_scaled s zeros =
    let point = length (decimal s) + zeros in
    if leb point 21 then decimal (s * pow10 zeros) else exponent_text (decimal s) point

-- The first `k` digits of `value`, or the next number of them, if it is read as `value`; else with more
-- digits. 17 are always enough.
unfoldable pub print_shortest : ℕ → ℕ → ℕ → ℕ → Text
unfolding nearest is_integer decimal
print_shortest zero value width k = print_scaled value 0
print_shortest (suc fuel) value width k =
    let zeros = width - k in
    let unit = pow10 zeros in
    let low = value / unit in
    let near = half_even value unit in
    let far = if near == low then suc low else low in
    elim (is_integer value (nearest (near * unit) 1)) [
      | true ↦ print_scaled near zeros
      | false ↦ elim (is_integer value (nearest (far * unit) 1)) [
        | true ↦ print_scaled far zeros
        | false ↦ print_shortest fuel value width (suc k)
      ]
    ]

-- `String(value)` of a floating-point number that is an integer.
unfoldable pub print_integer : ℕ → Text
unfolding print_shortest decimal
print_integer value = elim (ltb value 9007199254740992) [
  | true ↦ decimal value
  | false ↦ print_shortest 17 value (length (decimal value)) 1
]

-- `String(Math.round(value * 2 ** bits))`: the product is exact, or too great.
unfoldable pub print_rounded_product : ℕ → Double → Text
unfolding print_integer pow2
print_rounded_product bits infinity = codes "Infinity"
print_rounded_product bits (scaled_double m up down) =
    let n = m * pow2 (up + bits) in
    elim (leb (pow2 1024 * pow2 down) n) [
      | true ↦ codes "Infinity"
      | false ↦ print_integer ((2 * n + pow2 down) / (2 * pow2 down))
    ]

abbrev pub is_positive : Double → Bool
is_positive infinity = false
is_positive (scaled_double m up down) = not (m == 0)

abbrev solid : ℕ → Bool
solid c = not (is_space c)

solid-append : (s t : Text) → all solid s ≡ true → all solid t ≡ true → all solid (s ++ t) ≡ true
solid-append [] t h k = k
solid-append (c ∷ s) t h k = ground (arith, h, solid-append s t, k)

exponent_text-solid :
    (s : Text) (point : ℕ) → all solid s ≡ true → all solid (exponent_text s point) ≡ true
exponent_text-solid [] point h = refl
exponent_text-solid (c ∷ []) point h = ground (arith, h, decimal_solid (point - 1))
exponent_text-solid (c ∷ d ∷ s) point h = rw (and_left (solid c) (all solid (d ∷ s)) h) (
    solid-append (d ∷ s) (exponent point) (and_right (solid c) (all solid (d ∷ s)) h)
      (decimal_solid (point - 1)))

print_scaled-solid : (s zeros : ℕ) → all solid (print_scaled s zeros) ≡ true
print_scaled-solid s zeros = elim (Bool-cases (leb (length (decimal s) + zeros) 21)) [
  | inl short ↦ rw short (decimal_solid (s * pow10 zeros))
  | inr long ↦ rw long (exponent_text-solid (decimal s) _ (decimal_solid s))
]

print_shortest-solid :
    (fuel value width k : ℕ) → all solid (print_shortest fuel value width k) ≡ true
unfolding print_shortest
print_shortest-solid zero value width k = print_scaled-solid value 0
print_shortest-solid (suc fuel) value width k =
    let zeros = width - k in
    let unit = pow10 zeros in
    let low = value / unit in
    let near = half_even value unit in
    let far = if near == low then suc low else low in
    elim (Bool-cases (is_integer value (nearest (near * unit) 1))) [
      | inl good ↦ rw (print_shortest, good) (print_scaled-solid near zeros)
      | inr bad ↦ elim (Bool-cases (is_integer value (nearest (far * unit) 1))) [
        | inl good ↦ rw (print_shortest, bad, good) (print_scaled-solid far zeros)
        | inr worse ↦
            rw (print_shortest, bad, worse) (print_shortest-solid fuel value width (suc k))
      ]
    ]

print_integer-solid : (value : ℕ) → all solid (print_integer value) ≡ true
unfolding print_integer
print_integer-solid value = elim (Bool-cases (ltb value 9007199254740992)) [
  | inl small ↦ rw (print_integer, small) (decimal_solid value)
  | inr great ↦ rw (print_integer, great) (print_shortest-solid 17 value (length (decimal value)) 1)
]

print_rounded_product-solid :
    (bits : ℕ) (double : Double) → all solid (print_rounded_product bits double) ≡ true
unfolding print_rounded_product
print_rounded_product-solid bits infinity = refl
print_rounded_product-solid bits (scaled_double m up down) =
    elim (Bool-cases (leb (pow2 1024 * pow2 down) (m * pow2 (up + bits)))) [
      | inl great ↦ rw (print_rounded_product, great) refl
      | inr small ↦
          rw (print_rounded_product, small)
            (print_integer-solid ((2 * (m * pow2 (up + bits)) + pow2 down) / (2 * pow2 down)))
    ]

-- A printed number has no white space.
pub print_rounded_product_trimmed :
    (bits : ℕ) (double : Double)
    → trim (print_rounded_product bits double) ≡ print_rounded_product bits double
print_rounded_product_trimmed bits double =
    trim_solid (print_rounded_product bits double) (print_rounded_product-solid bits double)

greatest_run : print_rounded_product 20 (nearest 17179869183 2) ≡ codes "9007199254216704"
unfolding print_rounded_product nearest pow2
greatest_run = refl

-- 2 ^ 53 + 1, a third of 10 ^ 19, 10 ^ 25, and 10 ^ 400
rounded_run : print_rounded_product 0 (nearest 9007199254740993 1) ≡ codes "9007199254740992"
unfolding print_rounded_product nearest pow2
rounded_run = refl

shortest_run :
    print_rounded_product 0 (nearest 10000000000000000000 3) ≡ codes "3333333333333333500"
unfolding print_rounded_product nearest pow2
shortest_run = refl

exponent_run : print_rounded_product 0 (nearest (pow10 25) 1) ≡ codes "1e+25"
unfolding print_rounded_product nearest pow2
exponent_run = refl

infinite_run : print_rounded_product 0 (nearest (pow10 400) 1) ≡ codes "Infinity"
unfolding print_rounded_product nearest pow2
infinite_run = refl
