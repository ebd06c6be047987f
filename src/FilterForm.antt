-- ===== src/FilterForm.antt =====
-- The filters of the two listings: their values in a URL and in a form, which image-list-page.tsx and
-- migration-image-page.tsx under web/src/features/ read and write with functions of the same bodies.
-- `URLSearchParams` is a list of names and values; so is the data of a form.
pub mod Normal
pub mod Sizes
use imagesilo.Common.{
  ℕ, ◌+◌, ◌*◌, ◌/◌, ◌%◌, Option, none, some, List, [], ◌∷◌, ◌++◌, ◌==◌, nat_eq, list_eq,
  if◌then◌else◌, or_else, map, Bool, any,
}
use imagesilo.Common.Text.{Text, codes, trim, decimal}
use imagesilo.Common.Collections.{lookup, insert}
use imagesilo.Numbers.{number, positive}
use imagesilo.Numbers.Doubles.{nearest, is_positive, print_rounded_product}

abbrev pub Parameters : Type 0
Parameters = List (Text × Text)

-- `source.get(name)?.trim()`, with '' for a missing name: the code tests both in the same way.
unfoldable pub value_of : Text → Parameters → Text
unfolding lookup trim
value_of name source = elim (lookup name source) [ none ↦ [] | some value ↦ trim value ]

-- `if (value) parameters.set(name, value)`
unfoldable pub put : Text → Text → Parameters → Parameters
unfolding insert
put name value parameters = if value == [] then parameters else insert name value parameters

unfoldable pub put_all : Parameters → Parameters → Parameters
unfolding put
put_all [] parameters = parameters
put_all ((name, value) ∷ entries) parameters = put_all entries (put name value parameters)

abbrev pub fresh : Parameters
fresh = (codes "limit", codes "24") ∷ []

abbrev pub values_of : List Text → Parameters → Parameters
values_of names source = map (λ name. (name, value_of name source)) names

-- `normalizedFilterQuery`, for the names that the page knows.
unfoldable pub normalized : List Text → Parameters → Parameters
unfolding put_all value_of
normalized names source = put_all (values_of names source) fresh

-- A field of a form, `raw ?? ''`.
abbrev pub field : Text → Parameters → Text
field name form = or_else (lookup name form) []

unfoldable pub append : Text → Text → Parameters → Parameters
unfolding put trim
append name raw parameters = put name (trim raw) parameters

-- The number of bytes, with the floating-point numbers of the source.
unfoldable pub bytes_of : Option (ℕ × ℕ) → Text
unfolding nearest print_rounded_product
bytes_of none = []
bytes_of (some (n, d)) =
    let value = nearest n d in if is_positive value then print_rounded_product 20 value else []

unfoldable pub append_mib : Text → Text → Parameters → Parameters
unfolding put bytes_of
append_mib name raw parameters = put name (bytes_of (positive (number raw))) parameters
