-- ===== src/ImageListPage/Filters.antt =====
-- The filters in the URL of the list, and which of them are used; the form that sets them.
use imagesilo.Common.{
  ℕ, Bool, true, false, not, Option, none, some, List, [], ◌∷◌, length, any, filter, ◌==◌, nat_eq,
  list_eq, if◌then◌else◌, is_some,
}
use imagesilo.Common.Text.{Text, codes, trim}
use imagesilo.Common.Collections.{lookup, remove, insert}
use imagesilo.DatePicker.{match_date}
use imagesilo.FilterForm.{Parameters, value_of, fresh, normalized, field, append, append_mib}

abbrev pub filter_names : List Text
filter_names =
    codes "q"
    ∷ codes "visibility"
    ∷ codes "format"
    ∷ codes "uploadedVia"
    ∷ codes "createdFrom"
    ∷ codes "createdTo"
    ∷ codes "minBytes"
    ∷ codes "maxBytes"
    ∷ codes "minWidth"
    ∷ codes "maxWidth"
    ∷ codes "minHeight"
    ∷ codes "maxHeight"
    ∷ []

abbrev pub advanced_names : List Text
advanced_names =
    codes "createdFrom"
    ∷ codes "createdTo"
    ∷ codes "minBytes"
    ∷ codes "maxBytes"
    ∷ codes "minWidth"
    ∷ codes "maxWidth"
    ∷ codes "minHeight"
    ∷ codes "maxHeight"
    ∷ []

unfoldable pub normalized_filter_query : Parameters → Parameters
unfolding normalized
normalized_filter_query source = normalized filter_names source

unfoldable pub has_advanced_parameters : Parameters → Bool
unfolding value_of
has_advanced_parameters parameters =
    any (λ name. not (value_of name parameters == [])) advanced_names

-- `activeFilterCount`, of the normalized parameters.
unfoldable pub active_filter_count : Parameters → ℕ
unfolding lookup
active_filter_count filters = length (filter (λ name. is_some (lookup name filters)) filter_names)

unfoldable pub set_visibility_filter : Text → Parameters → Parameters
unfolding insert remove
set_visibility_filter value parameters =
    if value == []
    then remove (codes "visibility") parameters
    else insert (codes "visibility") value parameters

-- A day at its start or its end in the local time zone, as `toISOString` prints it.
abbrev pub LocalTime : Type 0
LocalTime = ℕ × ℕ × ℕ → Bool → Text

module _ (to_iso_string : LocalTime) where
  abbrev pub day_text : Bool → Option (ℕ × ℕ × ℕ) → Text
  day_text end_of_day none = []
  day_text end_of_day (some day) = to_iso_string day end_of_day

  abbrev pub set_day : Text → Bool → Parameters → Option (ℕ × ℕ × ℕ) → Parameters
  set_day name end_of_day parameters none = parameters
  set_day name end_of_day parameters (some day) =
      insert name (to_iso_string day end_of_day) parameters

  unfoldable pub append_date : Text → Text → Bool → Parameters → Parameters
  unfolding match_date insert
  append_date name raw end_of_day parameters =
      set_day name end_of_day parameters (match_date (trim raw))

  abbrev pub append_sizes : Parameters → Parameters → Parameters
  append_sizes form parameters =
      let minimum = append_mib (codes "minBytes") (field (codes "minMiB") form) parameters in
      append_mib (codes "maxBytes") (field (codes "maxMiB") form) minimum

  abbrev pub append_fields : List Text → Parameters → Parameters → Parameters
  append_fields [] form parameters = parameters
  append_fields (name ∷ names) form parameters =
      append_fields names form (append name (field name form) parameters)

  -- The parameters that `applyFilters` makes of the form and of the two dates.
  unfoldable pub applied : Parameters → Text → Text → Parameters
  unfolding append append_date append_mib
  applied form created_from created_to =
      let texts =
        append_fields (codes "q" ∷ codes "visibility" ∷ codes "format" ∷ codes "uploadedVia" ∷ [])
          form fresh in
      let dates =
        append_date (codes "createdTo") created_to true
          (append_date (codes "createdFrom") created_from false texts) in
      append_fields
        (codes "minWidth" ∷ codes "maxWidth" ∷ codes "minHeight" ∷ codes "maxHeight" ∷ []) form
        (append_sizes form dates)
