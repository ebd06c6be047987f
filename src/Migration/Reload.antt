-- ===== src/Migration/Reload.antt =====
-- What the page shows is stored, and shown again when the page is opened again.
use imagesilo.Common.{
  ◌≡◌, refl, ap, ◌∙◌, Bool, true, false, not, Option, some, List, [], ◌∷◌, nat_eq, list_eq, ◌==◌,
  if◌then◌else◌, arith,
}
use imagesilo.Common.Text.{Text, codes}
use imagesilo.Api.{MigrationImageBatchResult}
use imagesilo.FilterForm.{Parameters}
use imagesilo.Storage.{
  Storage, read_local_storage, write_local_storage, is_text, print_boolean, print_view_mode,
  stored_boolean, stored_view_mode, ViewMode, grid, list,
}
use imagesilo.Storage.Reload.{read-write, write_kept, is_text-print_boolean, read_view_mode}
use imagesilo.Migration.{
  MigrationPage, toggle_path, ask_delete, ask_delete_selected, clear_selected, dismiss_delete,
  unmount_dialog, start_delete, finish_delete, start_refresh, answer_refresh, finish_refresh,
}
use imagesilo.Migration.Steps.{
  filters_open_key, view_mode_key, set_filters_open, set_view_mode, change_search,
  migration_applied, apply_filters, reset_filters, MigrationEvent, migration_step, run_migration,
  first_migration, mounting, mounted,
}

record IsStored (page : MigrationPage) : Type 0 where
  readable : page.storage.readable ≡ true
  writable : page.storage.writable ≡ true
  filters : stored_boolean filters_open_key page.storage ≡ page.filters_open
  view : stored_view_mode view_mode_key page.storage ≡ page.view_mode

module _ (page : MigrationPage) (h : IsStored page) where
  read_other :
      (j key value : Text)
      → (key == j) ≡ false
      → read_local_storage j (write_local_storage key value page.storage).1
        ≡ read_local_storage j page.storage
  read_other j key value other =
      read-write j key value page.storage ∙ ground (arith, h.readable, h.writable, other)

  read_same :
      (key value : Text)
      → (key == key) ≡ true
      → read_local_storage key (write_local_storage key value page.storage).1 ≡ some value
  read_same key value same =
      read-write key key value page.storage ∙ ground (arith, h.readable, h.writable, same)

abbrev view_of : Option Text → ViewMode
view_of value = if is_text (codes "list") value then list else grid

set_filters_open-IsStored :
    (shown : Bool) (page : MigrationPage) → IsStored page → IsStored (set_filters_open shown page)
unfolding set_filters_open stored_boolean stored_view_mode
set_filters_open-IsStored shown page h = record {
  readable = (write_kept filters_open_key (print_boolean shown) page.storage).0 ∙ h.readable;
  writable = (write_kept filters_open_key (print_boolean shown) page.storage).1 ∙ h.writable;
  filters =
      ap (is_text (codes "true")) (read_same page h filters_open_key (print_boolean shown) refl)
      ∙ is_text-print_boolean shown;
  view =
      ap view_of (read_other page h view_mode_key filters_open_key (print_boolean shown) refl)
      ∙ h.view;
}

set_view_mode-IsStored :
    (mode : ViewMode) (page : MigrationPage) → IsStored page → IsStored (set_view_mode mode page)
unfolding set_view_mode stored_boolean stored_view_mode
set_view_mode-IsStored mode page h = record {
  readable = (write_kept view_mode_key (print_view_mode mode) page.storage).0 ∙ h.readable;
  writable = (write_kept view_mode_key (print_view_mode mode) page.storage).1 ∙ h.writable;
  filters =
      ap (is_text (codes "true"))
        (read_other page h filters_open_key view_mode_key (print_view_mode mode) refl)
      ∙ h.filters;
  view =
      ap view_of (read_same page h view_mode_key (print_view_mode mode) refl) ∙ read_view_mode mode;
}

toggle_path-IsStored :
    (path : Text) (page : MigrationPage) → IsStored page → IsStored (toggle_path path page)
unfolding toggle_path
toggle_path-IsStored path page h = ground (arith, h.readable, h.writable, h.filters, h.view)

ask_delete-IsStored :
    (paths : List Text) (page : MigrationPage) → IsStored page → IsStored (ask_delete paths page)
unfolding ask_delete
ask_delete-IsStored paths page h = ground (arith, h.readable, h.writable, h.filters, h.view)

ask_delete_selected-IsStored :
    (page : MigrationPage) → IsStored page → IsStored (ask_delete_selected page)
unfolding ask_delete_selected
ask_delete_selected-IsStored page h =
    ground
      (arith, h.readable, h.writable, h.filters, h.view, ask_delete-IsStored page.selected page h)

clear_selected-IsStored : (page : MigrationPage) → IsStored page → IsStored (clear_selected page)
unfolding clear_selected
clear_selected-IsStored page h = ground (arith, h.readable, h.writable, h.filters, h.view)

dismiss_delete-IsStored : (page : MigrationPage) → IsStored page → IsStored (dismiss_delete page)
unfolding dismiss_delete
dismiss_delete-IsStored page h = ground (arith, h.readable, h.writable, h.filters, h.view)

unmount_dialog-IsStored : (page : MigrationPage) → IsStored page → IsStored (unmount_dialog page)
unfolding unmount_dialog
unmount_dialog-IsStored page h = ground (arith, h.readable, h.writable, h.filters, h.view)

start_delete-IsStored : (page : MigrationPage) → IsStored page → IsStored (start_delete page)
unfolding start_delete
start_delete-IsStored page h = ground (arith, h.readable, h.writable, h.filters, h.view)

finish_delete-IsStored :
    (answer : Option MigrationImageBatchResult) (page : MigrationPage)
    → IsStored page
    → IsStored (finish_delete answer page)
unfolding finish_delete
finish_delete-IsStored answer page h = ground (arith, h.readable, h.writable, h.filters, h.view)

start_refresh-IsStored : (page : MigrationPage) → IsStored page → IsStored (start_refresh page)
unfolding start_refresh
start_refresh-IsStored page h = ground (arith, h.readable, h.writable, h.filters, h.view)

answer_refresh-IsStored :
    (succeeded : Bool) (page : MigrationPage)
    → IsStored page
    → IsStored (answer_refresh succeeded page)
unfolding answer_refresh
answer_refresh-IsStored succeeded page h = ground (arith, h.readable, h.writable, h.filters, h.view)

finish_refresh-IsStored : (page : MigrationPage) → IsStored page → IsStored (finish_refresh page)
unfolding finish_refresh
finish_refresh-IsStored page h = ground (arith, h.readable, h.writable, h.filters, h.view)

change_search-IsStored :
    (query : Parameters) (page : MigrationPage)
    → IsStored page
    → IsStored (change_search query page)
unfolding change_search
change_search-IsStored query page h = ground (arith, h.readable, h.writable, h.filters, h.view)

apply_filters-IsStored :
    (narrow : Bool) (form : Parameters) (page : MigrationPage)
    → IsStored page
    → IsStored (apply_filters narrow form page)
unfolding apply_filters
apply_filters-IsStored narrow form page h =
    let next = change_search-IsStored (migration_applied form) page h in
    let shut = set_filters_open-IsStored false (change_search (migration_applied form) page) next in
    ground (arith, next, shut.readable, shut.writable, shut.filters, shut.view)

migration_step-IsStored :
    (e : MigrationEvent) (page : MigrationPage) → IsStored page → IsStored (migration_step e page)
unfolding migration_step reset_filters
migration_step-IsStored (MigrationEvent.toggle path) page = toggle_path-IsStored path page
migration_step-IsStored (MigrationEvent.ask_one path) page = ask_delete-IsStored (path ∷ []) page
migration_step-IsStored MigrationEvent.ask_selected page = ask_delete_selected-IsStored page
migration_step-IsStored MigrationEvent.clear page = clear_selected-IsStored page
migration_step-IsStored MigrationEvent.dismiss page = dismiss_delete-IsStored page
migration_step-IsStored MigrationEvent.dialog_gone page = unmount_dialog-IsStored page
migration_step-IsStored MigrationEvent.confirm page = start_delete-IsStored page
migration_step-IsStored (MigrationEvent.delete_finished answer) page =
    finish_delete-IsStored answer page
migration_step-IsStored MigrationEvent.press_refresh page = start_refresh-IsStored page
migration_step-IsStored (MigrationEvent.refresh_answered succeeded) page =
    answer_refresh-IsStored succeeded page
migration_step-IsStored MigrationEvent.refresh_finished page = finish_refresh-IsStored page
migration_step-IsStored (MigrationEvent.loaded pages) page =
    λ h. record { readable = h.readable; writable = h.writable; filters = h.filters; view = h.view }
migration_step-IsStored (MigrationEvent.searched query) page = change_search-IsStored query page
migration_step-IsStored (MigrationEvent.submit_filters narrow form) page =
    apply_filters-IsStored narrow form page
migration_step-IsStored MigrationEvent.press_reset page = change_search-IsStored [] page
migration_step-IsStored MigrationEvent.toggle_filters page =
    set_filters_open-IsStored (not page.filters_open) page
migration_step-IsStored (MigrationEvent.choose_view mode) page = set_view_mode-IsStored mode page

run_migration-IsStored :
    (es : List MigrationEvent) (page : MigrationPage)
    → IsStored page
    → IsStored (run_migration es page)
unfolding run_migration
run_migration-IsStored [] page h = h
run_migration-IsStored (e ∷ es) page h =
    run_migration-IsStored es (migration_step e page) (migration_step-IsStored e page h)

first_migration-shown :
    (query : Parameters) (storage : Storage)
    → ((first_migration query storage).filters_open ≡ stored_boolean filters_open_key storage)
      × ((first_migration query storage).view_mode ≡ stored_view_mode view_mode_key storage)
unfolding first_migration mounting mounted set_filters_open set_view_mode
first_migration-shown query storage = (refl, refl)

mounted-IsStored : (page : MigrationPage) → IsStored page → IsStored (mounted page)
unfolding mounted
mounted-IsStored page h =
    set_view_mode-IsStored page.view_mode (set_filters_open page.filters_open page)
      (set_filters_open-IsStored page.filters_open page h)

first_migration-IsStored :
    (query : Parameters) (storage : Storage)
    → storage.readable ≡ true
    → storage.writable ≡ true
    → IsStored (first_migration query storage)
unfolding first_migration mounting
first_migration-IsStored query storage readable writable =
    mounted-IsStored (mounting query storage)
      (record { readable = readable; writable = writable; filters = refl; view = refl })

-- With a storage that can be read and written: whatever has happened on the page, a page that is
-- opened after it shows the images in the same way, and the filters exactly if they were shown.
pub reopened_lem :
    (es : List MigrationEvent) (query next : Parameters) (storage : Storage)
    → storage.readable ≡ true
    → storage.writable ≡ true
    → ((first_migration next
          (run_migration es (first_migration query storage)).storage).filters_open
        ≡ (run_migration es (first_migration query storage)).filters_open)
      × ((first_migration next (run_migration es (first_migration query storage)).storage).view_mode
          ≡ (run_migration es (first_migration query storage)).view_mode)
reopened_lem es query next storage readable writable =
    let page = run_migration es (first_migration query storage) in
    let stored =
      run_migration-IsStored es (first_migration query storage)
        (first_migration-IsStored query storage readable writable) in
    let shown = first_migration-shown next page.storage in
    (shown.0 ∙ stored.filters, shown.1 ∙ stored.view)
