-- ===== src/Numbers/Reading.antt =====
-- A printed number is read back.
use imagesilo.Common.{
  ℕ, zero, suc, ◌+◌, ◌-◌, ◌/◌, ◌%◌, ◌≤◌, ◌≡◌, refl, ap, ◌∙◌, Bool, true, false, not, none, [], ◌∷◌,
  all, ◌==◌, nat_eq, list_eq, if◌then◌else◌, arith, Bool-cases, inl, inr, and_left, and_right,
}
use imagesilo.Common.Text.{Text, trim, trim_start, trim_end, digits, decimal, is_space, lower}
use imagesilo.Numbers.{
  finite, is_digit, scan_digits, read_exponent, read_unsigned, radix_prefix, read_signed, number,
}

-- How many digits are printed.
abbrev pub width : ℕ → ℕ → ℕ
width zero n = 0
width (suc f) n = let rest = width f (n / 10) in if n / 10 == 0 then 1 else suc rest

pub scan_digits-digits :
    (f n k : ℕ) (tail : Text)
    → n ≤ f
    → scan_digits 0 k (digits (suc f) n tail) ≡ scan_digits n (k + width (suc f) n) tail
unfolding digits scan_digits
scan_digits-digits zero n k tail h = ground (arith, h)
scan_digits-digits (suc f) n k tail h = elim (Bool-cases (n / 10 == 0)) [
  | inl short ↦ ground (arith, short)
  | inr long ↦
      let rest : n / 10 ≤ f = omega (arith, h) in
      ground (arith, long, scan_digits-digits f (n / 10) k ((48 + n % 10) ∷ tail) rest)
]

digits-all :
    (f n : ℕ) (tail : Text) → all is_digit tail ≡ true → all is_digit (digits f n tail) ≡ true
unfolding digits
digits-all zero n tail h = h
digits-all (suc f) n tail h = ground (arith, h, digits-all f (n / 10) ((48 + n % 10) ∷ tail))

negation_lem : (b : Bool) → not b ≡ true → b ≡ false
negation_lem b h = ground (arith, h)

decimal-digits : (n : ℕ) → all is_digit (decimal n) ≡ true
unfolding decimal
decimal-digits n = digits-all (suc n) n [] refl

-- Nothing is trimmed from a text without white space.
trim_end_solid : (s : Text) → all (λ c. not (is_space c)) s ≡ true → trim_end s ≡ s
unfolding trim_end
trim_end_solid [] h = refl
trim_end_solid (c ∷ []) h = ground (arith, h)
trim_end_solid (c ∷ d ∷ s) h =
    rw
      (trim_end_solid (d ∷ s)
        (and_right (not (is_space c)) (all (λ x. not (is_space x)) (d ∷ s)) h))
      refl

pub trim_solid : (s : Text) → all (λ c. not (is_space c)) s ≡ true → trim s ≡ s
unfolding trim trim_start
trim_solid [] h = trim_end_solid [] refl
trim_solid (c ∷ s) h =
    let kept : is_space c ≡ false = negation_lem (is_space c) (and_left (not (is_space c)) _ h) in
    rw kept (trim_end_solid (c ∷ s) h)

digit_solid : (c : ℕ) → is_digit c ≡ true → is_space c ≡ false
digit_solid c h = ground (arith, h)

digits_solid : (s : Text) → all is_digit s ≡ true → all (λ c. not (is_space c)) s ≡ true
digits_solid [] h = refl
digits_solid (c ∷ s) h =
    rw (digit_solid c (and_left (is_digit c) (all is_digit s) h))
      (digits_solid s (and_right (is_digit c) (all is_digit s) h))

lower_digit : (c : ℕ) → is_digit c ≡ true → lower c ≡ c
unfolding lower
lower_digit c h = ground (arith, h)

radix_prefix-digits : (s : Text) → all is_digit s ≡ true → radix_prefix s ≡ none
unfolding radix_prefix
radix_prefix-digits [] h = refl
radix_prefix-digits (c ∷ []) h = refl
radix_prefix-digits (c ∷ x ∷ s) h =
    let x_digit =
      and_left (is_digit x) (all is_digit s) (and_right (is_digit c) (all is_digit (x ∷ s)) h) in
    rw (lower_digit x x_digit) (ground (arith, x_digit))

read_unsigned_whole :
    (s : Text) (value n : ℕ)
    → scan_digits 0 0 s ≡ (value, suc n, [])
    → read_unsigned s ≡ finite false value 0
unfolding read_unsigned read_exponent
read_unsigned_whole s value n e = rw (e, read_unsigned) (ground arith)

read_signed_digits :
    (s : Text) (value n : ℕ)
    → all is_digit s ≡ true
    → scan_digits 0 0 s ≡ (value, suc n, [])
    → read_signed s ≡ finite false value 0
read_signed_digits [] value n h e = unfold scan_digits in absurd (ground (arith, e))
read_signed_digits (c ∷ s) value n h e =
    let c_digit = and_left (is_digit c) (all is_digit s) h in
    ground (arith, c_digit, radix_prefix-digits (c ∷ s) h, read_unsigned_whole (c ∷ s) value n e)

pub width_pos : (f n : ℕ) → width (suc f) n ≡ suc (width (suc f) n - 1)
width_pos f n = ground arith

scan_digits-decimal : (n : ℕ) → (w : ℕ) × (scan_digits 0 0 (decimal n) ≡ (n, suc w, []))
unfolding decimal scan_digits
scan_digits-decimal n =
    let le : n ≤ n = omega arith in
    let printed = scan_digits-digits n n 0 [] le in
    (width (suc n) n - 1, printed ∙ ap (λ (k : ℕ). (n, k, [])) (omega (arith, width_pos n n)))

pub decimal_solid : (n : ℕ) → all (λ c. not (is_space c)) (decimal n) ≡ true
decimal_solid n = digits_solid (decimal n) (decimal-digits n)

pub trim-decimal : (n : ℕ) → trim (decimal n) ≡ decimal n
trim-decimal n = trim_solid (decimal n) (digits_solid (decimal n) (decimal-digits n))

-- A printed number is not empty.
pub decimal_filled : (n : ℕ) → (decimal n == []) ≡ false
decimal_filled n = let (w, e) = scan_digits-decimal n in filled (decimal n) w n e
  where
    filled : (s : Text) (w n : ℕ) → scan_digits 0 0 s ≡ (n, suc w, []) → (s == []) ≡ false
    filled [] w n e = unfold scan_digits in absurd (ground (arith, e))
    filled (c ∷ s) w n e = refl

-- Any natural number is read back from its decimal digits.
pub number-decimal : (n : ℕ) → number (decimal n) ≡ finite false n 0
unfolding number
number-decimal n =
    let (w, e) = scan_digits-decimal n in
    rw (trim-decimal n) (read_signed_digits (decimal n) n w (decimal-digits n) e)
