-- ===== src/FilterForm/Sizes.antt =====
-- The number of bytes that the URL has for a size in MiB.
use imagesilo.Common.{◌≡◌, refl, Option-cases, Bool-cases, inl, inr}
use imagesilo.Common.Text.{Text, trim, trim_start, trim_end}
use imagesilo.Numbers.{number, positive}
use imagesilo.Numbers.Doubles.{nearest, is_positive, print_rounded_product_trimmed}
use imagesilo.FilterForm.{bytes_of}

pub bytes_of_trimmed :
    (raw : Text) → trim (bytes_of (positive (number raw))) ≡ bytes_of (positive (number raw))
unfolding bytes_of trim trim_start trim_end
bytes_of_trimmed raw = elim (Option-cases (positive (number raw))) [
  | inl e ↦ rw (e, bytes_of) refl
  | inr ((n, d), e) ↦ elim (Bool-cases (is_positive (nearest n d))) [
    | inl filled ↦ rw (e, bytes_of, filled) (print_rounded_product_trimmed 20 (nearest n d))
    | inr empty ↦ rw (e, bytes_of, empty) refl
  ]
]
