-- ===== src/ImageLinks/Sizes.antt =====
-- Sizes for display.
use imagesilo.Common.{ℕ, ◌+◌, ◌*◌, ◌≤◌, ◌<◌, ◌≡◌, inl, inr, arith, Bool-cases, false, ltb, ltb→lt}
use imagesilo.ImageLinks.{
  Shown, bytes, kib_tenths, mib_tenths, gib_hundredths, scale, kib, mib, gib,
}

-- What a shown number says of the size, everything scaled up to whole numbers.
abbrev pub IsClose : ℕ → Shown → Type 0
IsClose value (bytes n) = (n ≡ value) × (value < kib)
IsClose value (kib_tenths n) =
    (20 * value ≤ 2 * n * kib + kib) × (2 * n * kib ≤ 20 * value + kib) × (10 ≤ n) × (n ≤ 10240)
IsClose value (mib_tenths n) =
    (20 * value ≤ 2 * n * mib + mib) × (2 * n * mib ≤ 20 * value + mib) × (10 ≤ n) × (n ≤ 10240)
IsClose value (gib_hundredths n) =
    (200 * value ≤ 2 * n * gib + gib) × (2 * n * gib ≤ 200 * value + gib) × (100 ≤ n)

-- The number shown is within half of its last place of the size, in the largest unit that does not
-- exceed the size; below one KiB it is the size itself. The tenths reach 1024.0 at most.
pub scale-IsClose : (value : ℕ) → IsClose value (scale value)
unfolding scale
scale-IsClose value = elim (Bool-cases (ltb value kib)) [
  | inl small ↦ rw small (ground arith)
  | inr k ↦ elim (Bool-cases (ltb value mib)) [
    | inl few ↦ rw (k, few) (omega (arith, leb_of_not value kib k, ltb→lt value mib few))
    | inr m ↦ elim (Bool-cases (ltb value gib)) [
      | inl some' ↦ rw (k, m, some') (omega (arith, leb_of_not value mib m, ltb→lt value gib some'))
      | inr g ↦ rw (k, m, g) (omega (arith, leb_of_not value gib g))
    ]
  ]
]
  where
    leb_of_not : (a b : ℕ) → ltb a b ≡ false → b ≤ a
    leb_of_not a b h = ground arith
