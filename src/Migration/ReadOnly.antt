-- ===== src/Migration/ReadOnly.antt =====
-- A page whose service does not allow changes.
use imagesilo.Common.{
  ◌≡◌, refl, Bool, false, not, Option, List, [], ◌∷◌, All, nat_eq, list_eq, arith,
}
use imagesilo.Common.Text.{Text}
use imagesilo.Api.{MigrationImageList, MigrationImageBatchResult}
use imagesilo.FilterForm.{Parameters}
use imagesilo.Storage.{Storage, ViewMode}
use imagesilo.Migration.{
  Request, MigrationPage, first_mutations_enabled, mutations_enabled, toggle_path, ask_delete,
  ask_delete_selected, clear_selected, dismiss_delete, unmount_dialog, start_delete, finish_delete,
  start_refresh, answer_refresh, finish_refresh,
}
use imagesilo.Migration.Steps.{
  set_filters_open, set_view_mode, change_search, migration_applied, apply_filters, reset_filters,
  MigrationEvent, migration_step, run_migration, first_migration, mounting, mounted,
}

-- The answers to the query do not allow changes.
abbrev pub IsReadOnly : MigrationEvent → Type 0
IsReadOnly (MigrationEvent.loaded pages) = first_mutations_enabled pages ≡ false
IsReadOnly _ = Unit

abbrev pub IsRefresh : Request → Type 0
IsRefresh Request.refresh = Unit
IsRefresh (Request.batch_delete _) = ⊥

record IsQuiet (page : MigrationPage) : Type 0 where
  disabled : mutations_enabled page ≡ false
  closed : page.delete_confirm_open ≡ false
  absent : page.dialog_mounted ≡ false
  unselected : page.selected ≡ []
  settled : page.delete_pending ≡ false
  only_refreshes : All IsRefresh page.requests

toggle_path-IsQuiet :
    (path : Text) (page : MigrationPage) → IsQuiet page → IsQuiet (toggle_path path page)
unfolding toggle_path
toggle_path-IsQuiet path page h =
    ground (arith, h.disabled, h.closed, h.absent, h.unselected, h.settled, h.only_refreshes)

ask_delete-IsQuiet :
    (paths : List Text) (page : MigrationPage) → IsQuiet page → IsQuiet (ask_delete paths page)
unfolding ask_delete
ask_delete-IsQuiet paths page h =
    ground (arith, h.disabled, h.closed, h.absent, h.unselected, h.settled, h.only_refreshes)

ask_delete_selected-IsQuiet :
    (page : MigrationPage) → IsQuiet page → IsQuiet (ask_delete_selected page)
unfolding ask_delete_selected
ask_delete_selected-IsQuiet page h = ground (
  arith,
  h.disabled,
  h.closed,
  h.absent,
  h.unselected,
  h.settled,
  h.only_refreshes,
  ask_delete-IsQuiet page.selected page h,
)

clear_selected-IsQuiet : (page : MigrationPage) → IsQuiet page → IsQuiet (clear_selected page)
unfolding clear_selected
clear_selected-IsQuiet page h =
    ground (arith, h.disabled, h.closed, h.absent, h.unselected, h.settled, h.only_refreshes)

dismiss_delete-IsQuiet : (page : MigrationPage) → IsQuiet page → IsQuiet (dismiss_delete page)
unfolding dismiss_delete
dismiss_delete-IsQuiet page h =
    ground (arith, h.disabled, h.closed, h.absent, h.unselected, h.settled, h.only_refreshes)

unmount_dialog-IsQuiet : (page : MigrationPage) → IsQuiet page → IsQuiet (unmount_dialog page)
unfolding unmount_dialog
unmount_dialog-IsQuiet page h =
    ground (arith, h.disabled, h.closed, h.absent, h.unselected, h.settled, h.only_refreshes)

start_delete-IsQuiet : (page : MigrationPage) → IsQuiet page → IsQuiet (start_delete page)
unfolding start_delete
start_delete-IsQuiet page h =
    ground (arith, h.disabled, h.closed, h.absent, h.unselected, h.settled, h.only_refreshes)

finish_delete-IsQuiet :
    (answer : Option MigrationImageBatchResult) (page : MigrationPage)
    → IsQuiet page
    → IsQuiet (finish_delete answer page)
unfolding finish_delete
finish_delete-IsQuiet answer page h =
    ground (arith, h.disabled, h.closed, h.absent, h.unselected, h.settled, h.only_refreshes)

start_refresh-IsQuiet : (page : MigrationPage) → IsQuiet page → IsQuiet (start_refresh page)
unfolding start_refresh
start_refresh-IsQuiet page h =
    ground (arith, h.disabled, h.closed, h.absent, h.unselected, h.settled, h.only_refreshes)

answer_refresh-IsQuiet :
    (succeeded : Bool) (page : MigrationPage)
    → IsQuiet page
    → IsQuiet (answer_refresh succeeded page)
unfolding answer_refresh
answer_refresh-IsQuiet succeeded page h =
    ground (arith, h.disabled, h.closed, h.absent, h.unselected, h.settled, h.only_refreshes)

finish_refresh-IsQuiet : (page : MigrationPage) → IsQuiet page → IsQuiet (finish_refresh page)
unfolding finish_refresh
finish_refresh-IsQuiet page h =
    ground (arith, h.disabled, h.closed, h.absent, h.unselected, h.settled, h.only_refreshes)

set_filters_open-IsQuiet :
    (shown : Bool) (page : MigrationPage) → IsQuiet page → IsQuiet (set_filters_open shown page)
unfolding set_filters_open
set_filters_open-IsQuiet shown page h =
    ground (arith, h.disabled, h.closed, h.absent, h.unselected, h.settled, h.only_refreshes)

set_view_mode-IsQuiet :
    (mode : ViewMode) (page : MigrationPage) → IsQuiet page → IsQuiet (set_view_mode mode page)
unfolding set_view_mode
set_view_mode-IsQuiet mode page h =
    ground (arith, h.disabled, h.closed, h.absent, h.unselected, h.settled, h.only_refreshes)

change_search-IsQuiet :
    (search : Parameters) (page : MigrationPage)
    → IsQuiet page
    → IsQuiet (change_search search page)
unfolding change_search
change_search-IsQuiet search page h =
    ground (arith, h.disabled, h.closed, h.absent, h.unselected, h.settled, h.only_refreshes)

apply_filters-IsQuiet :
    (narrow : Bool) (form : Parameters) (page : MigrationPage)
    → IsQuiet page
    → IsQuiet (apply_filters narrow form page)
unfolding apply_filters
apply_filters-IsQuiet narrow form page h =
    let next = change_search-IsQuiet (migration_applied form) page h in
    let shut = set_filters_open-IsQuiet false (change_search (migration_applied form) page) next in
    ground (
      arith, next, shut.disabled, shut.closed, shut.absent, shut.unselected, shut.settled,
      shut.only_refreshes,
    )

loaded-IsQuiet :
    (pages : List MigrationImageList) (page : MigrationPage)
    → first_mutations_enabled pages ≡ false
    → IsQuiet page
    → IsQuiet (record page { pages = pages })
loaded-IsQuiet pages page r h = record {
  disabled = r;
  closed = h.closed;
  absent = h.absent;
  unselected = h.unselected;
  settled = h.settled;
  only_refreshes = h.only_refreshes;
}

migration_step-IsQuiet :
    (e : MigrationEvent) (page : MigrationPage)
    → IsReadOnly e
    → IsQuiet page
    → IsQuiet (migration_step e page)
unfolding migration_step reset_filters
migration_step-IsQuiet (MigrationEvent.toggle path) page r = toggle_path-IsQuiet path page
migration_step-IsQuiet (MigrationEvent.ask_one path) page r = ask_delete-IsQuiet (path ∷ []) page
migration_step-IsQuiet MigrationEvent.ask_selected page r = ask_delete_selected-IsQuiet page
migration_step-IsQuiet MigrationEvent.clear page r = clear_selected-IsQuiet page
migration_step-IsQuiet MigrationEvent.dismiss page r = dismiss_delete-IsQuiet page
migration_step-IsQuiet MigrationEvent.dialog_gone page r = unmount_dialog-IsQuiet page
migration_step-IsQuiet MigrationEvent.confirm page r = start_delete-IsQuiet page
migration_step-IsQuiet (MigrationEvent.delete_finished answer) page r =
    finish_delete-IsQuiet answer page
migration_step-IsQuiet MigrationEvent.press_refresh page r = start_refresh-IsQuiet page
migration_step-IsQuiet (MigrationEvent.refresh_answered succeeded) page r =
    answer_refresh-IsQuiet succeeded page
migration_step-IsQuiet MigrationEvent.refresh_finished page r = finish_refresh-IsQuiet page
migration_step-IsQuiet (MigrationEvent.loaded pages) page r = loaded-IsQuiet pages page r
migration_step-IsQuiet (MigrationEvent.searched search) page r = change_search-IsQuiet search page
migration_step-IsQuiet (MigrationEvent.submit_filters narrow form) page r =
    apply_filters-IsQuiet narrow form page
migration_step-IsQuiet MigrationEvent.press_reset page r = change_search-IsQuiet [] page
migration_step-IsQuiet MigrationEvent.toggle_filters page r =
    set_filters_open-IsQuiet (not page.filters_open) page
migration_step-IsQuiet (MigrationEvent.choose_view mode) page r = set_view_mode-IsQuiet mode page

run_migration-IsQuiet :
    (es : List MigrationEvent) (page : MigrationPage)
    → All IsReadOnly es
    → IsQuiet page
    → IsQuiet (run_migration es page)
unfolding run_migration
run_migration-IsQuiet [] page rs h = h
run_migration-IsQuiet (e ∷ es) page rs h =
    run_migration-IsQuiet es (migration_step e page) rs.1 (migration_step-IsQuiet e page rs.0 h)

-- As long as no answer to the query allows changes, nothing is ever selected on the page, the dialog
-- stays closed, and no request but a refresh is sent.
pub read_only_lem :
    (es : List MigrationEvent) (search : Parameters) (storage : Storage)
    → All IsReadOnly es
    → ((run_migration es (first_migration search storage)).selected ≡ [])
      × ((run_migration es (first_migration search storage)).delete_confirm_open ≡ false)
      × All IsRefresh (run_migration es (first_migration search storage)).requests
unfolding first_migration mounting mounted set_filters_open set_view_mode
read_only_lem es search storage rs =
    let quiet = run_migration-IsQuiet es (first_migration search storage) rs (record {
      disabled = refl;
      closed = refl;
      absent = refl;
      unselected = refl;
      settled = refl;
      only_refreshes = tt;
    }) in
    (quiet.unselected, quiet.closed, quiet.only_refreshes)
