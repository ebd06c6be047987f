-- ===== src/Migration/Bounds.antt =====
-- What the page's deletions name, and what their notice says, whatever happens.
use imagesilo.Common.{refl, not, List, [], ◌∷◌, nat_eq, list_eq, arith}
use imagesilo.Api.{MigrationImageList}
use imagesilo.Batch.{empty-IsBatch, single-IsBatch}
use imagesilo.FilterForm.{Parameters}
use imagesilo.Storage.{Storage}
use imagesilo.Toasts.{is_loading}
use imagesilo.Migration.{MigrationPage}
use imagesilo.Migration.Steps.{
  set_filters_open, set_view_mode, reset_filters, MigrationEvent, migration_step, run_migration,
  first_migration, mounting, mounted,
}
use imagesilo.Migration.Kept.{
  IsBounded, toggle_path-IsBounded, clear_selected-IsBounded, dismiss_delete-IsBounded,
  unmount_dialog-IsBounded, start_delete-IsBounded, start_refresh-IsBounded,
  change_search-IsBounded, ask_delete-IsBounded, ask_delete_selected-IsBounded,
  finish_delete-IsBounded, answer_refresh-IsBounded, finish_refresh-IsBounded,
  set_filters_open-IsBounded, set_view_mode-IsBounded, apply_filters-IsBounded,
}

loaded-IsBounded :
    (pages : List MigrationImageList) (page : MigrationPage)
    → IsBounded page
    → IsBounded (record page { pages = pages })
loaded-IsBounded pages page h = record {
  selection = h.selection;
  snapshot = h.snapshot;
  asked = h.asked;
  sent = h.sent;
  shown = h.shown;
}

migration_step-IsBounded :
    (e : MigrationEvent) (page : MigrationPage) → IsBounded page → IsBounded (migration_step e page)
unfolding migration_step reset_filters
migration_step-IsBounded (MigrationEvent.toggle path) = toggle_path-IsBounded path
migration_step-IsBounded (MigrationEvent.ask_one path) =
    λ page h. ask_delete-IsBounded (path ∷ []) page h (single-IsBatch path) (omega arith)
migration_step-IsBounded MigrationEvent.ask_selected = ask_delete_selected-IsBounded
migration_step-IsBounded MigrationEvent.clear = clear_selected-IsBounded
migration_step-IsBounded MigrationEvent.dismiss = dismiss_delete-IsBounded
migration_step-IsBounded MigrationEvent.dialog_gone = unmount_dialog-IsBounded
migration_step-IsBounded MigrationEvent.confirm = start_delete-IsBounded
migration_step-IsBounded (MigrationEvent.delete_finished answer) = finish_delete-IsBounded answer
migration_step-IsBounded MigrationEvent.press_refresh = start_refresh-IsBounded
migration_step-IsBounded (MigrationEvent.refresh_answered succeeded) =
    answer_refresh-IsBounded succeeded
migration_step-IsBounded MigrationEvent.refresh_finished = finish_refresh-IsBounded
migration_step-IsBounded (MigrationEvent.loaded pages) = loaded-IsBounded pages
migration_step-IsBounded (MigrationEvent.searched search) = change_search-IsBounded search
migration_step-IsBounded (MigrationEvent.submit_filters narrow form) =
    apply_filters-IsBounded narrow form
migration_step-IsBounded MigrationEvent.press_reset = change_search-IsBounded []
migration_step-IsBounded MigrationEvent.toggle_filters =
    λ page. set_filters_open-IsBounded (not page.filters_open) page
migration_step-IsBounded (MigrationEvent.choose_view mode) = set_view_mode-IsBounded mode

run_migration-all :
    (es : List MigrationEvent) (page : MigrationPage)
    → IsBounded page
    → IsBounded (run_migration es page)
unfolding run_migration
run_migration-all [] page h = h
run_migration-all (e ∷ es) page h =
    run_migration-all es (migration_step e page) (migration_step-IsBounded e page h)

first_migration-IsBounded :
    (search : Parameters) (storage : Storage) → IsBounded (first_migration search storage)
unfolding first_migration mounting mounted set_filters_open set_view_mode is_loading
first_migration-IsBounded search storage = record {
  selection = empty-IsBatch;
  snapshot = empty-IsBatch;
  asked = λ e. cc;
  sent = tt;
  shown = refl;
}

-- Whatever happens on the page, in whatever order, the presses in a dialog that is closing included: the
-- selection never exceeds 100 paths and names none twice, nor does any deletion that was sent, nor what
-- the dialog would delete, which is at least one path as long as the dialog is open; and the notice of
-- the deletion says that it is under way exactly while it is.
pub run_migration-IsBounded :
    (es : List MigrationEvent) (search : Parameters) (storage : Storage)
    → IsBounded (run_migration es (first_migration search storage))
run_migration-IsBounded es search storage =
    run_migration-all es (first_migration search storage) (first_migration-IsBounded search storage)
