-- ===== src/ImageListPage/Panel.antt =====
-- The panel of the filters: whether it and its second half are open, the two dates, and how the URL
-- and the form set them.
use imagesilo.Common.{
  ℕ, ◌≡◌, refl, Bool, true, false, ◌||◌, Option, none, some, [], ◌∷◌, ◌++◌, ◌==◌, nat_eq, list_eq,
  if◌then◌else◌, ◌&&◌, ◌∙◌, ap, Bool-cases, inl, inr,
}
use imagesilo.Common.Text.{Text, codes, decimal, pad_start}
use imagesilo.Common.Collections.{lookup}
use imagesilo.FilterForm.{Parameters, normalized, value_of, put_all, put}
use imagesilo.Storage.{
  Storage, stored_boolean, stored_view_mode, ViewMode, print_boolean, print_view_mode,
  write_local_storage,
}
use imagesilo.ImageListPage.Filters.{
  normalized_filter_query, has_advanced_parameters, active_filter_count, set_visibility_filter,
  LocalTime, applied,
}

pub record Panel : Type 0 where
  pub search : Parameters
  pub filters_open : Bool
  pub advanced_open : Bool
  pub created_from : Text
  pub created_to : Text
  pub view_mode : ViewMode
  pub toggle_is_focused : Bool
  pub storage : Storage

abbrev pub filters_open_key : Text
filters_open_key = codes "imagesilo_image_filters_open"

abbrev pub advanced_open_key : Text
advanced_open_key = codes "imagesilo_image_advanced_filters_open"

abbrev pub view_mode_key : Text
view_mode_key = codes "imagesilo_image_view_mode"

-- The three effects that store what is shown.
unfoldable pub open_filters : Bool → Panel → Panel
unfolding write_local_storage
open_filters shown panel = record panel {
  filters_open = shown;
  storage = (write_local_storage filters_open_key (print_boolean shown) panel.storage).1;
}

unfoldable pub open_advanced : Bool → Panel → Panel
unfolding write_local_storage
open_advanced shown panel = record panel {
  advanced_open = shown;
  storage = (write_local_storage advanced_open_key (print_boolean shown) panel.storage).1;
}

unfoldable pub choose_view : ViewMode → Panel → Panel
unfolding write_local_storage
choose_view mode panel = record panel {
  view_mode = mode;
  storage = (write_local_storage view_mode_key (print_view_mode mode) panel.storage).1;
}

abbrev pub same_parameters : Parameters → Parameters → Bool
same_parameters [] [] = true
same_parameters ((name, value) ∷ s) ((key, text) ∷ t) =
    name == key && value == text && same_parameters s t
same_parameters _ _ = false

same_blank : (search : Parameters) → same_parameters [] search ≡ true → search ≡ []
same_blank [] h = refl
same_blank (entry ∷ search) h = cc

-- `new Date(raw)` and its year, month and day in the local time zone are the language's; `none` is an
-- invalid date. The years are from 0 on.
module _ (to_iso_string : LocalTime) (local_day : Text → Option (ℕ × ℕ × ℕ)) where
  abbrev pub day_value : Option (ℕ × ℕ × ℕ) → Text
  day_value none = []
  day_value (some (year, month, day)) =
      decimal year ++ 45 ∷ (pad_start 2 48 (decimal month) ++ 45 ∷ pad_start 2 48 (decimal day))

  unfoldable pub date_parameter_value : Option Text → Text
  date_parameter_value none = []
  date_parameter_value (some raw) = if raw == [] then [] else day_value (local_day raw)

  -- The effect on a new URL.
  unfoldable pub read_search : Parameters → Panel → Panel
  unfolding date_parameter_value lookup
  read_search search panel =
      let next = record panel {
        search = search;
        created_from = date_parameter_value (lookup (codes "createdFrom") search);
        created_to = date_parameter_value (lookup (codes "createdTo") search);
      } in
      if has_advanced_parameters search then open_advanced true next else next

  -- The effect runs where the URL has changed.
  unfoldable pub set_search : Parameters → Panel → Panel
  unfolding read_search
  set_search search panel =
      if same_parameters search panel.search then panel else read_search search panel

  -- `applyFilters`, on a narrow window or a wide one
  unfoldable pub apply_filters : Bool → Parameters → Panel → Panel
  unfolding applied
  apply_filters narrow form panel =
      let search = applied to_iso_string form panel.created_from panel.created_to in
      let next = set_search search panel in
      if narrow then record (open_filters false next) { toggle_is_focused = true } else next

  unfoldable pub reset_filters : Panel → Panel
  reset_filters panel =
      set_search [] (open_advanced false (record panel { created_from = []; created_to = [] }))

  unfoldable pub choose_visibility : Text → Panel → Panel
  unfolding set_visibility_filter
  choose_visibility value panel = set_search (set_visibility_filter value panel.search) panel

  -- The page when it is opened, with its URL and what is stored.
  unfoldable pub first_panel : Parameters → Storage → Panel
  unfolding stored_boolean stored_view_mode
  first_panel search storage = record {
    search = search;
    filters_open = stored_boolean filters_open_key storage;
    advanced_open = has_advanced_parameters search || stored_boolean advanced_open_key storage;
    created_from = date_parameter_value (lookup (codes "createdFrom") search);
    created_to = date_parameter_value (lookup (codes "createdTo") search);
    view_mode = stored_view_mode view_mode_key storage;
    toggle_is_focused = false;
    storage = storage;
  }

  no_filters :
      (active_filter_count (normalized_filter_query []) ≡ 0) × (has_advanced_parameters [] ≡ false)
  unfolding active_filter_count normalized_filter_query normalized has_advanced_parameters value_of
      lookup put_all put
  no_filters = (refl, refl)

  -- What a panel whose dates are empty and whose second half is closed becomes.
  cleared :
      (panel : Panel)
      → panel.advanced_open ≡ false
      → panel.created_from ≡ []
      → panel.created_to ≡ []
      → ((set_search [] panel).search ≡ [])
        × ((set_search [] panel).advanced_open ≡ false)
        × ((set_search [] panel).created_from ≡ [])
        × ((set_search [] panel).created_to ≡ [])
  unfolding set_search read_search date_parameter_value lookup
  cleared panel closed no_from no_to = elim (Bool-cases (same_parameters [] panel.search)) [
    | inl same ↦ rw same (same_blank panel.search same, closed, no_from, no_to)
    | inr new ↦ rw (new, no_filters.1) (refl, closed, refl, refl)
  ]

  -- After the filters are reset, none is counted and the service is asked for all images, no date is
  -- chosen, and the second half of the panel is closed. After a new URL was read, it is open where the
  -- URL has one of its filters.
  pub panel_lem :
      (search : Parameters) (panel : Panel)
      → (active_filter_count (normalized_filter_query (reset_filters panel).search) ≡ 0)
        × ((reset_filters panel).advanced_open ≡ false)
        × ((reset_filters panel).created_from ≡ [])
        × ((reset_filters panel).created_to ≡ [])
        × (has_advanced_parameters search ≡ true → (read_search search panel).advanced_open ≡ true)
  unfolding reset_filters read_search open_advanced
  panel_lem search panel =
      let done =
        cleared (open_advanced false (record panel { created_from = []; created_to = [] })) refl
          refl refl in
      (
        ap (λ (query : Parameters). active_filter_count (normalized_filter_query query)) done.0
            ∙ no_filters.0,
        done.1,
        done.2,
        done.3,
        λ advanced. rw advanced refl,
      )
