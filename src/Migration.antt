-- ===== src/Migration.antt =====
-- The page of images that are still to be migrated,
-- web/src/features/migrations/migration-image-page.tsx: its state, the selection and the deletion.
-- The filters are in `Steps`, what the page shows is in `Card`.
pub mod Steps
pub mod Card
pub mod Controls
pub mod Kept
pub mod Bounds
pub mod ReadOnly
pub mod Search
pub mod Reload
mod Examples
use imagesilo.Common.{
  ℕ, ◌-◌, Bool, true, false, not, ◌||◌, Option, none, some, List, [], ◌∷◌, length, filter, ltb, leb,
  ◌==◌, nat_eq, list_eq, if◌then◌else◌,
}
use imagesilo.Common.Text.{Text, codes}
use imagesilo.Common.Collections.{has, add, delete}
use imagesilo.Api.{
  MigrationImageList, MigrationOperationItem, MigrationImageBatchResult, BatchStatus,
}
use imagesilo.FilterForm.{Parameters}
use imagesilo.Storage.{Storage, ViewMode}
use imagesilo.Toasts.{Toasts, show, show_counts, notify, loading, success, warning, failure}

pub data Request : Type 0 where
  refresh : Request
  batch_delete : List Text → Request

-- A refresh waits for its answer, then for the list to be loaded again.
pub data Refresh : Type 0 where
  idle requested reloading : Refresh

pub record MigrationPage : Type 0 where
  pub search : Parameters
  pub filters_open : Bool
  pub view_mode : ViewMode
  pub selected : List Text
  pub delete_confirm_open : Bool
  -- Whether the dialog is mounted: a closed one stays so, and can be pressed, until its exit has ended.
  pub dialog_mounted : Bool
  pub delete_snapshot : List Text
  -- `query.data?.pages`
  pub pages : List MigrationImageList
  pub refreshing : Refresh
  pub delete_pending : Bool
  pub toggle_is_focused : Bool
  pub storage : Storage
  pub toasts : Toasts
  -- What was sent, the latest request first.
  pub requests : List Request

abbrev pub first_mutations_enabled : List MigrationImageList → Bool
first_mutations_enabled [] = false
first_mutations_enabled (page ∷ _) = page.mutations_enabled

abbrev pub mutations_enabled : MigrationPage → Bool
mutations_enabled page = first_mutations_enabled page.pages

abbrev pub delete_id : Text
delete_id = codes "migration-batch-delete"

abbrev pub refresh_id : Text
refresh_id = codes "migration-refresh"

-- `toggleSelected`
unfoldable pub toggle_path : Text → MigrationPage → MigrationPage
unfolding has add delete
toggle_path path page =
    if page.delete_pending || not (mutations_enabled page)
    then page
    else if has path page.selected
    then record page { selected = delete path page.selected }
    else if leb 100 (length page.selected)
    then record page { toasts = notify warning (codes "migrations.selectionLimit") page.toasts }
    else record page { selected = add path page.selected }

-- `confirmDelete`
unfoldable pub ask_delete : List Text → MigrationPage → MigrationPage
ask_delete paths page =
    if not (mutations_enabled page) || page.delete_pending
    then page
    else record page { delete_snapshot = paths; delete_confirm_open = true; dialog_mounted = true }

-- The button of the toolbar, which is shown while something is selected.
unfoldable pub ask_delete_selected : MigrationPage → MigrationPage
unfolding ask_delete
ask_delete_selected page =
    if length page.selected == 0 || page.delete_pending then page else ask_delete page.selected page

unfoldable pub clear_selected : MigrationPage → MigrationPage
clear_selected page =
    if length page.selected == 0 || page.delete_pending then page else record page { selected = [] }

-- The dialog, where it is mounted, is closed; it cannot be while the request is under way.
unfoldable pub dismiss_delete : MigrationPage → MigrationPage
dismiss_delete page =
    if page.delete_pending || not page.dialog_mounted
    then page
    else record page { delete_confirm_open = false; delete_snapshot = [] }

-- The exit of a closed dialog has ended.
unfoldable pub unmount_dialog : MigrationPage → MigrationPage
unmount_dialog page =
    if page.delete_confirm_open then page else record page { dialog_mounted = false }

-- The button of the dialog, which is disabled only while the request is under way: `batchDelete.mutate`.
unfoldable pub start_delete : MigrationPage → MigrationPage
start_delete page = if page.delete_pending || not page.dialog_mounted then page else record page {
  delete_pending = true;
  toasts = show delete_id loading (codes "common.working") page.toasts;
  requests = batch_delete page.delete_snapshot ∷ page.requests;
}

abbrev pub is_not_deleted : MigrationOperationItem → Bool
is_not_deleted item = elim item.status [ BatchStatus.deleted ↦ false | _ ↦ true ]

unfoldable pub delete_toast : MigrationImageBatchResult → Toasts → Toasts
delete_toast result toasts =
    let failures = length (filter is_not_deleted result) in
    if ltb 0 failures
    then show_counts delete_id warning (codes "migrations.batchPartial")
        ((length result - failures) ∷ failures ∷ []) toasts
    else show_counts delete_id success (codes "migrations.batchSuccess") (length result ∷ []) toasts

unfoldable pub finish_delete : Option MigrationImageBatchResult → MigrationPage → MigrationPage
finish_delete answer page = if not page.delete_pending then page else elim answer [
  | none ↦ record page {
    delete_pending = false;
    toasts = show delete_id failure (codes "migrations.deleteFailed") page.toasts;
  }
  | some result ↦ record page {
    delete_pending = false;
    delete_confirm_open = false;
    delete_snapshot = [];
    selected = [];
    toasts = delete_toast result page.toasts;
  }
]

abbrev pub is_idle : Refresh → Bool
is_idle idle = true
is_idle _ = false

unfoldable pub start_refresh : MigrationPage → MigrationPage
start_refresh page =
    if is_idle page.refreshing
    then record page { refreshing = requested; requests = refresh ∷ page.requests }
    else page

-- The answer to the refresh, or its failure; then the end of the reload.
unfoldable pub answer_refresh : Bool → MigrationPage → MigrationPage
answer_refresh succeeded page = elim page.refreshing [
  | requested ↦
      if succeeded then record page { refreshing = reloading; selected = [] } else record page {
        refreshing = idle;
        toasts = show refresh_id failure (codes "migrations.refreshFailed") page.toasts;
      }
  | _ ↦ page
]

unfoldable pub finish_refresh : MigrationPage → MigrationPage
finish_refresh page = elim page.refreshing [
  | reloading ↦ record page {
    refreshing = idle;
    toasts = show refresh_id success (codes "migrations.refreshSuccess") page.toasts;
  }
  | _ ↦ page
]
