-- ===== src/ImageListPage/Normal.antt =====
-- The URL of the list and its normalized form.
use imagesilo.Common.{
  ℕ, ◌≡◌, refl, sym, ap, ◌∙◌, Bool, true, false, Option, none, some, [], ◌∷◌, ◌==◌, nat_eq, list_eq,
  All, count, not,
}
use imagesilo.Common.Text.{Text, codes, trim, trim_start, trim_end, trim_idem}
use imagesilo.Common.Collections.{has, lookup, IsDistinct}
use imagesilo.Numbers.{number, positive}
use imagesilo.DatePicker.{match_date}
use imagesilo.FilterForm.{
  Parameters, value_of, put, put_all, fresh, normalized, field, append, append_mib, bytes_of,
}
use imagesilo.FilterForm.Normal.{normalized-put_all, normalized_idem, count-normalized}
use imagesilo.FilterForm.Sizes.{bytes_of_trimmed}
use imagesilo.ImageListPage.Filters.{
  filter_names, active_filter_count, normalized_filter_query, LocalTime, day_text, set_day,
  append_date, applied,
}

filter_names-IsDistinct : IsDistinct filter_names
unfolding has
filter_names-IsDistinct = (r, (r, (r, (r, (r, (r, (r, (r, (r, (r, (r, (r, tt))))))))))))
  where
    r : Path Bool false false
    r = refl

filter_names-All : All (λ name. lookup name fresh ≡ none) filter_names
unfolding lookup
filter_names-All = (r, (r, (r, (r, (r, (r, (r, (r, (r, (r, (r, (r, tt))))))))))))
  where
    r : Path (Option Text) none none
    r = refl

-- Normalizing the filters twice is normalizing them once, so that the page's query and its form do
-- not change when its own URL is read back.
pub normalized_filter_query_idem :
    (source : Parameters)
    → normalized_filter_query (normalized_filter_query source) ≡ normalized_filter_query source
unfolding normalized_filter_query
normalized_filter_query_idem source =
    normalized_idem filter_names source filter_names-IsDistinct filter_names-All

-- The number shown counts the filters of the URL with a value that is not blank.
pub active_filter_count_lem :
    (source : Parameters)
    → active_filter_count (normalized_filter_query source)
      ≡ count (λ name. not (value_of name source == [])) filter_names
unfolding active_filter_count normalized_filter_query
active_filter_count_lem source =
    count-normalized filter_names source filter_names-IsDistinct filter_names-All

module _ (to_iso_string : LocalTime)
    (solid : (day : ℕ × ℕ × ℕ) (end_of_day : Bool)
      → trim (to_iso_string day end_of_day) ≡ to_iso_string day end_of_day)
    (filled : (day : ℕ × ℕ × ℕ) (end_of_day : Bool)
      → (to_iso_string day end_of_day == []) ≡ false) where
  set_day-put :
      (name : Text) (end_of_day : Bool) (parameters : Parameters) (day : Option (ℕ × ℕ × ℕ))
      → set_day to_iso_string name end_of_day parameters day
        ≡ put name (day_text to_iso_string end_of_day day) parameters
  unfolding put
  set_day-put name end_of_day parameters none = refl
  set_day-put name end_of_day parameters (some day) = rw (filled day end_of_day) refl

  append_date-put :
      (name raw : Text) (end_of_day : Bool) (parameters : Parameters)
      → append_date to_iso_string name raw end_of_day parameters
        ≡ put name (day_text to_iso_string end_of_day (match_date (trim raw))) parameters
  unfolding append_date
  append_date-put name raw end_of_day parameters =
      set_day-put name end_of_day parameters (match_date (trim raw))

  day_text_trimmed :
      (end_of_day : Bool) (day : Option (ℕ × ℕ × ℕ))
      → trim (day_text to_iso_string end_of_day day) ≡ day_text to_iso_string end_of_day day
  day_text_trimmed end_of_day none = unfold trim trim_start trim_end in refl
  day_text_trimmed end_of_day (some day) = solid day end_of_day

  abbrev entries : Parameters → Text → Text → Parameters
  entries form created_from created_to =
      (codes "q", trim (field (codes "q") form))
      ∷ (codes "visibility", trim (field (codes "visibility") form))
      ∷ (codes "format", trim (field (codes "format") form))
      ∷ (codes "uploadedVia", trim (field (codes "uploadedVia") form))
      ∷ (codes "createdFrom", day_text to_iso_string false (match_date (trim created_from)))
      ∷ (codes "createdTo", day_text to_iso_string true (match_date (trim created_to)))
      ∷ (codes "minBytes", bytes_of (positive (number (field (codes "minMiB") form))))
      ∷ (codes "maxBytes", bytes_of (positive (number (field (codes "maxMiB") form))))
      ∷ (codes "minWidth", trim (field (codes "minWidth") form))
      ∷ (codes "maxWidth", trim (field (codes "maxWidth") form))
      ∷ (codes "minHeight", trim (field (codes "minHeight") form))
      ∷ (codes "maxHeight", trim (field (codes "maxHeight") form))
      ∷ []

  applied-put_all :
      (form : Parameters) (created_from created_to : Text)
      → applied to_iso_string form created_from created_to
        ≡ put_all (entries form created_from created_to) fresh
  unfolding applied append append_mib put_all
  applied-put_all form created_from created_to =
      rw
        (
          append_date-put (codes "createdFrom") created_from false,
          append_date-put (codes "createdTo") created_to true,
        )
        refl

  -- The parameters that the form makes are normalized: where the texts of a time are not empty and
  -- have no white space at their ends, what `applyFilters` writes into the URL is what the page
  -- reads from it, whatever was entered.
  pub normalized-applied :
      (form : Parameters) (created_from created_to : Text)
      → normalized_filter_query (applied to_iso_string form created_from created_to)
        ≡ applied to_iso_string form created_from created_to
  unfolding normalized_filter_query
  normalized-applied form created_from created_to =
      let f = filter_names-All in
      let g = trim_idem in
      ap (normalized filter_names) (applied-put_all form created_from created_to)
      ∙ normalized-put_all filter_names (entries form created_from created_to) refl
          filter_names-IsDistinct
          (
            (f.0, g (field (codes "q") form)),
            (
              (f.1.0, g (field (codes "visibility") form)),
              (
                (f.1.1.0, g (field (codes "format") form)),
                (
                  (f.1.1.1.0, g (field (codes "uploadedVia") form)),
                  (
                    (f.1.1.1.1.0, day_text_trimmed false (match_date (trim created_from))),
                    (
                      (f.1.1.1.1.1.0, day_text_trimmed true (match_date (trim created_to))),
                      (
                        (f.1.1.1.1.1.1.0, bytes_of_trimmed (field (codes "minMiB") form)),
                        (
                          (f.1.1.1.1.1.1.1.0, bytes_of_trimmed (field (codes "maxMiB") form)),
                          (
                            (f.1.1.1.1.1.1.1.1.0, g (field (codes "minWidth") form)),
                            (
                              (f.1.1.1.1.1.1.1.1.1.0, g (field (codes "maxWidth") form)),
                              (
                                (f.1.1.1.1.1.1.1.1.1.1.0, g (field (codes "minHeight") form)),
                                (
                                  (f.1.1.1.1.1.1.1.1.1.1.1.0, g (field (codes "maxHeight") form)),
                                  tt,
                                ),
                              ),
                            ),
                          ),
                        ),
                      ),
                    ),
                  ),
                ),
              ),
            ),
          )
      ∙ sym (applied-put_all form created_from created_to)
