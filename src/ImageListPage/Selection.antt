-- ===== src/ImageListPage/Selection.antt =====
-- Selecting images, and the requests that change many of them at once. A request is answered by the
-- service's result for each image, or fails.
use imagesilo.Common.{
  ℕ, ◌-◌, Bool, true, false, not, ◌||◌, Option, none, some, List, [], ◌∷◌, ◌++◌, map, length,
  filter, ltb, leb, ◌==◌, nat_eq, list_eq, if◌then◌else◌,
}
use imagesilo.Common.Text.{Text}
use imagesilo.Common.Collections.{has, add, delete}
use imagesilo.Api.{Visibility, BatchItem, BatchStatus, BatchOperationResult}

pub data Toast : Type 0 where
  selection_limit : Toast
  working : Toast
  batch_partial : ℕ → ℕ → Toast
  batch_success : ℕ → Toast
  operation_failed : Toast
  visibility_changed : Visibility → Toast

pub data Request : Type 0 where
  change_visibility : Text → Visibility → Request
  batch_visibility : List Text → Visibility → Request
  batch_delete : List Text → Request

pub record ListPage : Type 0 where
  pub selected : List Text
  pub delete_confirm_open : Bool
  -- Whether the dialog is mounted: a closed one stays so, and can be pressed, until its exit has ended.
  pub dialog_mounted : Bool
  pub delete_snapshot : List Text
  -- The mutation that is under way, for each of the three.
  pub visibility_pending : Bool
  pub batch_visibility_pending : Bool
  pub batch_delete_pending : Bool
  -- What was sent, what was shown, and the details whose cached visibility was set.
  pub requests : List Request
  pub toasts : List Toast
  pub synced : List (Text × Visibility)

abbrev pub busy : ListPage → Bool
busy page = page.visibility_pending || page.batch_visibility_pending || page.batch_delete_pending

unfoldable pub toggle_selected : Text → ListPage → ListPage
unfolding has add delete
toggle_selected id page =
    if busy page
    then page
    else if has id page.selected
    then record page { selected = delete id page.selected }
    else if leb 100 (length page.selected)
    then record page { toasts = selection_limit ∷ page.toasts }
    else record page { selected = add id page.selected }

abbrev pub is_failure : BatchItem → Bool
is_failure item = elim item.status [
  | BatchStatus.error ↦ true
  | BatchStatus.not_found ↦ true
  | BatchStatus.cleanup_pending ↦ true
  | _ ↦ false
]

abbrev pub is_updated : BatchItem → Bool
is_updated item = elim item.status [ BatchStatus.updated ↦ true | _ ↦ false ]

unfoldable pub batch_toast : BatchOperationResult → Toast
batch_toast result =
    let failures = filter is_failure result in
    if ltb 0 (length failures)
    then batch_partial (length result - length failures) (length failures)
    else batch_success (length result)

-- The buttons are disabled while the page is busy, and shown while something is selected.
unfoldable pub press_visibility : Text → Visibility → ListPage → ListPage
press_visibility id visibility page = if busy page then page else record page {
  visibility_pending = true;
  requests = change_visibility id visibility ∷ page.requests;
  toasts = working ∷ page.toasts;
}

unfoldable pub settle_visibility : Text → Visibility → Bool → ListPage → ListPage
settle_visibility id visibility succeeded page =
    if not page.visibility_pending
    then page
    else if succeeded
    then record page {
      visibility_pending = false;
      synced = (id, visibility) ∷ page.synced;
      toasts = visibility_changed visibility ∷ page.toasts;
    }
    else record page { visibility_pending = false; toasts = operation_failed ∷ page.toasts }

unfoldable pub press_batch_visibility : Visibility → ListPage → ListPage
press_batch_visibility visibility page =
    if busy page || length page.selected == 0 then page else record page {
      batch_visibility_pending = true;
      requests = batch_visibility page.selected visibility ∷ page.requests;
      toasts = working ∷ page.toasts;
    }

abbrev pub sync_updated : Visibility → BatchOperationResult → List (Text × Visibility)
sync_updated visibility result =
    map (λ (item : BatchItem). (item.image_id, visibility)) (filter is_updated result)

unfoldable pub settle_batch_visibility :
    Visibility → Option BatchOperationResult → ListPage → ListPage
unfolding batch_toast
settle_batch_visibility visibility answer page =
    if not page.batch_visibility_pending then page else elim answer [
      | none ↦ record page {
        batch_visibility_pending = false;
        toasts = operation_failed ∷ page.toasts;
      }
      | some result ↦ record page {
        batch_visibility_pending = false;
        synced = sync_updated visibility result ++ page.synced;
        toasts = batch_toast result ∷ page.toasts;
        selected = [];
      }
    ]

unfoldable pub press_delete : ListPage → ListPage
press_delete page = if busy page || length page.selected == 0 then page else record page {
  delete_snapshot = page.selected;
  delete_confirm_open = true;
  dialog_mounted = true;
}

unfoldable pub clear_selection : ListPage → ListPage
clear_selection page = if busy page then page else record page { selected = [] }

-- The dialog, where it is mounted, is closed; it cannot be while the request is under way.
unfoldable pub close_confirm : ListPage → ListPage
close_confirm page =
    if page.batch_delete_pending || not page.dialog_mounted
    then page
    else record page { delete_confirm_open = false; delete_snapshot = [] }

-- The exit of a closed dialog has ended.
unfoldable pub unmount_dialog : ListPage → ListPage
unmount_dialog page =
    if page.delete_confirm_open then page else record page { dialog_mounted = false }

-- The button of the dialog, which is disabled only while the request is under way.
unfoldable pub confirm_delete : ListPage → ListPage
confirm_delete page =
    if page.batch_delete_pending || not page.dialog_mounted then page else record page {
      batch_delete_pending = true;
      requests = batch_delete page.delete_snapshot ∷ page.requests;
      toasts = working ∷ page.toasts;
    }

unfoldable pub settle_batch_delete : Option BatchOperationResult → ListPage → ListPage
unfolding batch_toast
settle_batch_delete answer page = if not page.batch_delete_pending then page else elim answer [
  | none ↦ record page { batch_delete_pending = false; toasts = operation_failed ∷ page.toasts }
  | some result ↦ record page {
    batch_delete_pending = false;
    delete_confirm_open = false;
    delete_snapshot = [];
    toasts = batch_toast result ∷ page.toasts;
    selected = [];
  }
]

-- The URL has changed: the selection is dropped, also while the page is busy.
unfoldable pub change_search : ListPage → ListPage
change_search page = record page { selected = [] }

pub data ListEvent : Type 0 where
  toggle : Text → ListEvent
  change_one : Text → Visibility → ListEvent
  one_settled : Text → Visibility → Bool → ListEvent
  change_many : Visibility → ListEvent
  many_settled : Visibility → Option BatchOperationResult → ListEvent
  ask_delete : ListEvent
  clear : ListEvent
  dismiss : ListEvent
  dialog_gone : ListEvent
  confirm : ListEvent
  delete_settled : Option BatchOperationResult → ListEvent
  searched : ListEvent

unfoldable pub list_step : ListEvent → ListPage → ListPage
list_step (toggle id) page = toggle_selected id page
list_step (change_one id visibility) page = press_visibility id visibility page
list_step (one_settled id visibility succeeded) page =
    settle_visibility id visibility succeeded page
list_step (change_many visibility) page = press_batch_visibility visibility page
list_step (many_settled visibility answer) page = settle_batch_visibility visibility answer page
list_step ask_delete page = press_delete page
list_step clear page = clear_selection page
list_step dismiss page = close_confirm page
list_step dialog_gone page = unmount_dialog page
list_step confirm page = confirm_delete page
list_step (delete_settled answer) page = settle_batch_delete answer page
list_step searched page = change_search page

unfoldable pub run_list : List ListEvent → ListPage → ListPage
run_list [] page = page
run_list (e ∷ es) page = run_list es (list_step e page)

abbrev pub first_page : ListPage
first_page = record {
  selected = [];
  delete_confirm_open = false;
  dialog_mounted = false;
  delete_snapshot = [];
  visibility_pending = false;
  batch_visibility_pending = false;
  batch_delete_pending = false;
  requests = [];
  toasts = [];
  synced = [];
}
