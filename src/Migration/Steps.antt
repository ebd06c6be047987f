-- ===== src/Migration/Steps.antt =====
-- The filters of the page and their form, and all that can happen on the page.
use imagesilo.Common.{Bool, true, false, not, Option, List, [], ◌∷◌, if◌then◌else◌}
use imagesilo.Common.Text.{Text, codes}
use imagesilo.Api.{MigrationImageList, MigrationImageBatchResult}
use imagesilo.FilterForm.{Parameters, fresh, normalized, field, append, append_mib}
use imagesilo.Storage.{
  Storage, stored_boolean, stored_view_mode, ViewMode, print_boolean, print_view_mode,
  write_local_storage,
}
use imagesilo.Toasts.{no_toasts}
use imagesilo.Migration.{
  Refresh, MigrationPage, toggle_path, ask_delete, ask_delete_selected, clear_selected,
  dismiss_delete, unmount_dialog, start_delete, finish_delete, start_refresh, answer_refresh,
  finish_refresh,
}

abbrev pub migration_names : List Text
migration_names = codes "q" ∷ codes "format" ∷ codes "minBytes" ∷ codes "maxBytes" ∷ []

-- `normalizedFilterQuery` of this page
unfoldable pub normalized_migration_query : Parameters → Parameters
unfolding normalized
normalized_migration_query input = normalized migration_names input

-- The parameters that `applyFilters` makes of the form.
unfoldable pub migration_applied : Parameters → Parameters
unfolding append append_mib
migration_applied form =
    let q = append (codes "q") (field (codes "q") form) fresh in
    let format = append (codes "format") (field (codes "format") form) q in
    let minimum = append_mib (codes "minBytes") (field (codes "minMiB") form) format in
    append_mib (codes "maxBytes") (field (codes "maxMiB") form) minimum

abbrev pub view_mode_key : Text
view_mode_key = codes "imagesilo_migration_view_mode"

abbrev pub filters_open_key : Text
filters_open_key = codes "imagesilo_migration_filters_open"

-- The two effects that store what is shown.
unfoldable pub set_filters_open : Bool → MigrationPage → MigrationPage
unfolding write_local_storage
set_filters_open shown page = record page {
  filters_open = shown;
  storage = (write_local_storage filters_open_key (print_boolean shown) page.storage).1;
}

unfoldable pub set_view_mode : ViewMode → MigrationPage → MigrationPage
unfolding write_local_storage
set_view_mode mode page = record page {
  view_mode = mode;
  storage = (write_local_storage view_mode_key (print_view_mode mode) page.storage).1;
}

-- A new URL: the effect on its key drops the selection.
unfoldable pub change_search : Parameters → MigrationPage → MigrationPage
change_search search page = record page { search = search; selected = [] }

-- `applyFilters`, on a narrow window or a wide one
unfoldable pub apply_filters : Bool → Parameters → MigrationPage → MigrationPage
unfolding migration_applied
apply_filters narrow form page =
    let next = change_search (migration_applied form) page in
    if narrow then record (set_filters_open false next) { toggle_is_focused = true } else next

unfoldable pub reset_filters : MigrationPage → MigrationPage
reset_filters page = change_search [] page

pub data MigrationEvent : Type 0 where
  toggle : Text → MigrationEvent
  ask_one : Text → MigrationEvent
  ask_selected clear dismiss dialog_gone confirm : MigrationEvent
  delete_finished : Option MigrationImageBatchResult → MigrationEvent
  press_refresh : MigrationEvent
  refresh_answered : Bool → MigrationEvent
  refresh_finished : MigrationEvent
  -- The query has these pages now.
  loaded : List MigrationImageList → MigrationEvent
  searched : Parameters → MigrationEvent
  submit_filters : Bool → Parameters → MigrationEvent
  press_reset toggle_filters : MigrationEvent
  choose_view : ViewMode → MigrationEvent

unfoldable pub migration_step : MigrationEvent → MigrationPage → MigrationPage
migration_step (toggle path) page = toggle_path path page
migration_step (ask_one path) page = ask_delete (path ∷ []) page
migration_step ask_selected page = ask_delete_selected page
migration_step clear page = clear_selected page
migration_step dismiss page = dismiss_delete page
migration_step dialog_gone page = unmount_dialog page
migration_step confirm page = start_delete page
migration_step (delete_finished answer) page = finish_delete answer page
migration_step press_refresh page = start_refresh page
migration_step (refresh_answered succeeded) page = answer_refresh succeeded page
migration_step refresh_finished page = finish_refresh page
migration_step (loaded pages) page = record page { pages = pages }
migration_step (searched search) page = change_search search page
migration_step (submit_filters narrow form) page = apply_filters narrow form page
migration_step press_reset page = reset_filters page
migration_step toggle_filters page = set_filters_open (not page.filters_open) page
migration_step (choose_view mode) page = set_view_mode mode page

unfoldable pub run_migration : List MigrationEvent → MigrationPage → MigrationPage
run_migration [] page = page
run_migration (e ∷ es) page = run_migration es (migration_step e page)

-- The page when it is opened, with the choices that are stored.
unfoldable pub mounting : Parameters → Storage → MigrationPage
unfolding stored_boolean stored_view_mode
mounting search storage = record {
  search = search;
  filters_open = stored_boolean filters_open_key storage;
  view_mode = stored_view_mode view_mode_key storage;
  selected = [];
  delete_confirm_open = false;
  dialog_mounted = false;
  delete_snapshot = [];
  pages = [];
  refreshing = Refresh.idle;
  delete_pending = false;
  toggle_is_focused = false;
  storage = storage;
  toasts = no_toasts;
  requests = [];
}

-- The effects of the mount, which write the choices back.
unfoldable pub mounted : MigrationPage → MigrationPage
mounted page = set_view_mode page.view_mode (set_filters_open page.filters_open page)

unfoldable pub first_migration : Parameters → Storage → MigrationPage
unfolding mounting mounted
first_migration search storage = mounted (mounting search storage)
