-- ===== src/Migration/Kept.antt =====
-- What each step keeps: the bounds of the page's deletions, and what their notice says.
use imagesilo.Common.{
  ℕ, ◌-◌, ◌≤◌, ◌≡◌, Bool, true, false, Option, none, some, List, [], ◌∷◌, length, filter, All,
  nat_eq, list_eq, arith,
}
use imagesilo.Common.Text.{Text, codes}
use imagesilo.Api.{MigrationImageBatchResult}
use imagesilo.Batch.{IsBatch, empty-IsBatch, add-IsBatch, delete-IsBatch}
use imagesilo.FilterForm.{Parameters}
use imagesilo.Storage.{ViewMode}
use imagesilo.Toasts.{
  Toasts, Level, loading, success, warning, failure, show_counts, is_loading, is_loading_level,
  is_loading-show, is_loading-notify,
}
use imagesilo.Migration.{
  Request, MigrationPage, delete_id, refresh_id, toggle_path, ask_delete, ask_delete_selected,
  clear_selected, dismiss_delete, unmount_dialog, start_delete, is_not_deleted, delete_toast,
  finish_delete, start_refresh, answer_refresh, finish_refresh,
}
use imagesilo.Migration.Steps.{
  set_filters_open, set_view_mode, change_search, migration_applied, apply_filters,
}

abbrev pub IsAllowed : Request → Type 0
IsAllowed Request.refresh = Unit
IsAllowed (Request.batch_delete paths) = IsBatch paths

pub record IsBounded (page : MigrationPage) : Type 0 where
  pub selection : IsBatch page.selected
  pub snapshot : IsBatch page.delete_snapshot
  pub asked : page.delete_confirm_open ≡ true → 1 ≤ length page.delete_snapshot
  pub sent : All IsAllowed page.requests
  pub shown : is_loading delete_id page.toasts ≡ page.delete_pending

-- A notice of the deletion, and one with another identifier.
shown_delete :
    (level : Level) (key : Text) (counts : List ℕ) (toasts : Toasts)
    → is_loading delete_id (show_counts delete_id level key counts toasts) ≡ is_loading_level level
shown_delete level key counts toasts = is_loading-show delete_id delete_id key level counts toasts

shown_refresh :
    (level : Level) (key : Text) (counts : List ℕ) (toasts : Toasts)
    → is_loading delete_id (show_counts refresh_id level key counts toasts)
      ≡ is_loading delete_id toasts
shown_refresh level key counts toasts = is_loading-show refresh_id delete_id key level counts toasts

delete_toast_ends :
    (result : MigrationImageBatchResult) (toasts : Toasts)
    → is_loading delete_id (delete_toast result toasts) ≡ false
unfolding delete_toast
delete_toast_ends result toasts = ground (
  arith,
  shown_delete warning (codes "migrations.batchPartial")
      ((length result - length (filter is_not_deleted result))
        ∷ length (filter is_not_deleted result)
        ∷ [])
      toasts,
  shown_delete success (codes "migrations.batchSuccess") (length result ∷ []) toasts,
)

pub toggle_path-IsBounded :
    (path : Text) (page : MigrationPage) → IsBounded page → IsBounded (toggle_path path page)
unfolding toggle_path
toggle_path-IsBounded path page h = ground (
  arith,
  h.selection,
  h.snapshot,
  h.asked,
  h.sent,
  h.shown,
  empty-IsBatch,
  h.selection,
  add-IsBatch path page.selected h.selection,
  delete-IsBatch path page.selected h.selection,
  is_loading-notify delete_id (codes "migrations.selectionLimit") warning page.toasts,
)

pub clear_selected-IsBounded :
    (page : MigrationPage) → IsBounded page → IsBounded (clear_selected page)
unfolding clear_selected
clear_selected-IsBounded page h =
    ground (arith, h.selection, h.snapshot, h.asked, h.sent, h.shown, empty-IsBatch)

pub dismiss_delete-IsBounded :
    (page : MigrationPage) → IsBounded page → IsBounded (dismiss_delete page)
unfolding dismiss_delete
dismiss_delete-IsBounded page h =
    ground (arith, h.selection, h.snapshot, h.asked, h.sent, h.shown, empty-IsBatch)

pub unmount_dialog-IsBounded :
    (page : MigrationPage) → IsBounded page → IsBounded (unmount_dialog page)
unfolding unmount_dialog
unmount_dialog-IsBounded page h =
    ground (arith, h.selection, h.snapshot, h.asked, h.sent, h.shown, empty-IsBatch)

pub start_delete-IsBounded : (page : MigrationPage) → IsBounded page → IsBounded (start_delete page)
unfolding start_delete
start_delete-IsBounded page h = ground (
  arith,
  h.selection,
  h.snapshot,
  h.asked,
  h.sent,
  h.shown,
  empty-IsBatch,
  shown_delete loading (codes "common.working") [] page.toasts,
)

pub start_refresh-IsBounded :
    (page : MigrationPage) → IsBounded page → IsBounded (start_refresh page)
unfolding start_refresh
start_refresh-IsBounded page h =
    ground (arith, h.selection, h.snapshot, h.asked, h.sent, h.shown, empty-IsBatch)

pub change_search-IsBounded :
    (search : Parameters) (page : MigrationPage)
    → IsBounded page
    → IsBounded (change_search search page)
unfolding change_search
change_search-IsBounded search page h =
    ground (arith, h.selection, h.snapshot, h.asked, h.sent, h.shown, empty-IsBatch)

pub ask_delete-IsBounded :
    (paths : List Text) (page : MigrationPage)
    → IsBounded page
    → IsBatch paths
    → 1 ≤ length paths
    → IsBounded (ask_delete paths page)
unfolding ask_delete
ask_delete-IsBounded paths page h k m =
    ground (arith, h.selection, h.snapshot, h.asked, h.sent, h.shown, empty-IsBatch, k, m)

pub ask_delete_selected-IsBounded :
    (page : MigrationPage) → IsBounded page → IsBounded (ask_delete_selected page)
unfolding ask_delete_selected
ask_delete_selected-IsBounded page h = ground (
  arith,
  h.selection,
  h.snapshot,
  h.asked,
  h.sent,
  h.shown,
  empty-IsBatch,
  ask_delete-IsBounded page.selected page h h.selection,
)

pub finish_delete-IsBounded :
    (answer : Option MigrationImageBatchResult) (page : MigrationPage)
    → IsBounded page
    → IsBounded (finish_delete answer page)
unfolding finish_delete
finish_delete-IsBounded none page h = ground (
  arith,
  h.selection,
  h.snapshot,
  h.asked,
  h.sent,
  h.shown,
  empty-IsBatch,
  shown_delete failure (codes "migrations.deleteFailed") [] page.toasts,
)
finish_delete-IsBounded (some result) page h = ground (
  arith,
  h.selection,
  h.snapshot,
  h.asked,
  h.sent,
  h.shown,
  empty-IsBatch,
  delete_toast_ends result page.toasts,
)

pub answer_refresh-IsBounded :
    (succeeded : Bool) (page : MigrationPage)
    → IsBounded page
    → IsBounded (answer_refresh succeeded page)
unfolding answer_refresh
answer_refresh-IsBounded succeeded page h = ground (
  arith,
  h.selection,
  h.snapshot,
  h.asked,
  h.sent,
  h.shown,
  empty-IsBatch,
  shown_refresh failure (codes "migrations.refreshFailed") [] page.toasts,
)

pub finish_refresh-IsBounded :
    (page : MigrationPage) → IsBounded page → IsBounded (finish_refresh page)
unfolding finish_refresh
finish_refresh-IsBounded page h = ground (
  arith,
  h.selection,
  h.snapshot,
  h.asked,
  h.sent,
  h.shown,
  empty-IsBatch,
  shown_refresh success (codes "migrations.refreshSuccess") [] page.toasts,
)

pub set_filters_open-IsBounded :
    (shown : Bool) (page : MigrationPage) → IsBounded page → IsBounded (set_filters_open shown page)
unfolding set_filters_open
set_filters_open-IsBounded shown page h =
    ground (arith, h.selection, h.snapshot, h.asked, h.sent, h.shown, empty-IsBatch)

pub set_view_mode-IsBounded :
    (mode : ViewMode) (page : MigrationPage) → IsBounded page → IsBounded (set_view_mode mode page)
unfolding set_view_mode
set_view_mode-IsBounded mode page h =
    ground (arith, h.selection, h.snapshot, h.asked, h.sent, h.shown, empty-IsBatch)

pub apply_filters-IsBounded :
    (narrow : Bool) (form : Parameters) (page : MigrationPage)
    → IsBounded page
    → IsBounded (apply_filters narrow form page)
unfolding apply_filters
apply_filters-IsBounded narrow form page h =
    let next = change_search-IsBounded (migration_applied form) page h in
    let closed =
      set_filters_open-IsBounded false (change_search (migration_applied form) page) next in
    ground (arith, next, closed.selection, closed.snapshot, closed.asked, closed.sent, closed.shown)
