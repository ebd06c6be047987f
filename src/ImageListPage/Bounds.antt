-- ===== src/ImageListPage/Bounds.antt =====
-- What every request for many images carries, and what its notice says.
use imagesilo.Common.{
  ℕ, ◌+◌, ◌-◌, ◌≤◌, ◌≡◌, ◌⊎◌, inl, inr, refl, Bool, true, false, Option, List, [], ◌∷◌, length,
  count, length-filter, count-le-length, All, ltb, nat_eq, list_eq, arith, Bool-cases,
}
use imagesilo.Common.Text.{Text}
use imagesilo.Api.{Visibility, BatchOperationResult}
use imagesilo.Batch.{IsBatch, empty-IsBatch, delete-IsBatch, add-IsBatch}
use imagesilo.ImageListPage.Selection.{
  Request, change_visibility, batch_visibility, batch_delete, ListPage, batch_partial,
  batch_success, is_failure, batch_toast, toggle_selected, press_visibility, settle_visibility,
  press_batch_visibility, settle_batch_visibility, press_delete, clear_selection, close_confirm,
  unmount_dialog, confirm_delete, settle_batch_delete, change_search, ListEvent, list_step,
  run_list, first_page,
}

-- A batch request names at most 100 images, none twice, and one that sets a visibility at least one.
abbrev pub IsAllowed : Request → Type 0
IsAllowed (change_visibility _ _) = Unit
IsAllowed (batch_visibility ids _) = IsBatch ids × (1 ≤ length ids)
IsAllowed (batch_delete ids) = IsBatch ids

record IsBounded (page : ListPage) : Type 0 where
  selection : IsBatch page.selected
  snapshot : IsBatch page.delete_snapshot
  asked : page.delete_confirm_open ≡ true → 1 ≤ length page.delete_snapshot
  sent : All IsAllowed page.requests

pub toggle-IsBatch :
    (id : Text) (page : ListPage)
    → IsBatch page.selected
    → IsBatch (toggle_selected id page).selected
unfolding toggle_selected
toggle-IsBatch id page h =
    ground (arith, h, delete-IsBatch id page.selected h, add-IsBatch id page.selected h)

toggle_selected-IsBounded :
    (id : Text) (page : ListPage) → IsBounded page → IsBounded (toggle_selected id page)
toggle_selected-IsBounded id page h = record {
  selection = toggle-IsBatch id page h.selection;
  snapshot = unfold toggle_selected in ground (arith, h.snapshot);
  asked = unfold toggle_selected in ground (arith, h.asked);
  sent = unfold toggle_selected in ground (arith, h.sent);
}

press_visibility-IsBounded :
    (id : Text) (visibility : Visibility) (page : ListPage)
    → IsBounded page
    → IsBounded (press_visibility id visibility page)
unfolding press_visibility
press_visibility-IsBounded id visibility page h =
    ground (arith, h.selection, h.snapshot, h.asked, h.sent, empty-IsBatch)

settle_visibility-IsBounded :
    (id : Text) (visibility : Visibility) (succeeded : Bool) (page : ListPage)
    → IsBounded page
    → IsBounded (settle_visibility id visibility succeeded page)
unfolding settle_visibility
settle_visibility-IsBounded id visibility succeeded page h =
    ground (arith, h.selection, h.snapshot, h.asked, h.sent, empty-IsBatch)

press_batch_visibility-IsBounded :
    (visibility : Visibility) (page : ListPage)
    → IsBounded page
    → IsBounded (press_batch_visibility visibility page)
unfolding press_batch_visibility
press_batch_visibility-IsBounded visibility page h =
    ground (arith, h.selection, h.snapshot, h.asked, h.sent, empty-IsBatch)

settle_batch_visibility-IsBounded :
    (visibility : Visibility) (answer : Option BatchOperationResult) (page : ListPage)
    → IsBounded page
    → IsBounded (settle_batch_visibility visibility answer page)
unfolding settle_batch_visibility
settle_batch_visibility-IsBounded visibility answer page h =
    ground (arith, h.selection, h.snapshot, h.asked, h.sent, empty-IsBatch)

press_delete-IsBounded : (page : ListPage) → IsBounded page → IsBounded (press_delete page)
unfolding press_delete
press_delete-IsBounded page h =
    ground (arith, h.selection, h.snapshot, h.asked, h.sent, empty-IsBatch)

clear_selection-IsBounded : (page : ListPage) → IsBounded page → IsBounded (clear_selection page)
unfolding clear_selection
clear_selection-IsBounded page h =
    ground (arith, h.selection, h.snapshot, h.asked, h.sent, empty-IsBatch)

close_confirm-IsBounded : (page : ListPage) → IsBounded page → IsBounded (close_confirm page)
unfolding close_confirm
close_confirm-IsBounded page h =
    ground (arith, h.selection, h.snapshot, h.asked, h.sent, empty-IsBatch)

unmount_dialog-IsBounded : (page : ListPage) → IsBounded page → IsBounded (unmount_dialog page)
unfolding unmount_dialog
unmount_dialog-IsBounded page h =
    ground (arith, h.selection, h.snapshot, h.asked, h.sent, empty-IsBatch)

confirm_delete-IsBounded : (page : ListPage) → IsBounded page → IsBounded (confirm_delete page)
unfolding confirm_delete
confirm_delete-IsBounded page h =
    ground (arith, h.selection, h.snapshot, h.asked, h.sent, empty-IsBatch)

settle_batch_delete-IsBounded :
    (answer : Option BatchOperationResult) (page : ListPage)
    → IsBounded page
    → IsBounded (settle_batch_delete answer page)
unfolding settle_batch_delete
settle_batch_delete-IsBounded answer page h =
    ground (arith, h.selection, h.snapshot, h.asked, h.sent, empty-IsBatch)

change_search-IsBounded : (page : ListPage) → IsBounded page → IsBounded (change_search page)
unfolding change_search
change_search-IsBounded page h =
    ground (arith, h.selection, h.snapshot, h.asked, h.sent, empty-IsBatch)

list_step-IsBounded :
    (e : ListEvent) (page : ListPage) → IsBounded page → IsBounded (list_step e page)
unfolding list_step
list_step-IsBounded (ListEvent.toggle id) = toggle_selected-IsBounded id
list_step-IsBounded (ListEvent.change_one id visibility) = press_visibility-IsBounded id visibility
list_step-IsBounded (ListEvent.one_settled id visibility succeeded) =
    settle_visibility-IsBounded id visibility succeeded
list_step-IsBounded (ListEvent.change_many visibility) = press_batch_visibility-IsBounded visibility
list_step-IsBounded (ListEvent.many_settled visibility answer) =
    settle_batch_visibility-IsBounded visibility answer
list_step-IsBounded ListEvent.ask_delete = press_delete-IsBounded
list_step-IsBounded ListEvent.clear = clear_selection-IsBounded
list_step-IsBounded ListEvent.dismiss = close_confirm-IsBounded
list_step-IsBounded ListEvent.dialog_gone = unmount_dialog-IsBounded
list_step-IsBounded ListEvent.confirm = confirm_delete-IsBounded
list_step-IsBounded (ListEvent.delete_settled answer) = settle_batch_delete-IsBounded answer
list_step-IsBounded ListEvent.searched = change_search-IsBounded

run_list-IsBounded :
    (es : List ListEvent) (page : ListPage) → IsBounded page → IsBounded (run_list es page)
unfolding run_list
run_list-IsBounded [] page h = h
run_list-IsBounded (e ∷ es) page h =
    run_list-IsBounded es (list_step e page) (list_step-IsBounded e page h)

-- Whatever happens on the page, in whatever order, the presses in a dialog that is closing included: the
-- selection never exceeds 100 images and names none twice, every batch request that was sent names at
-- most 100 images, none twice, and at least one if it sets a visibility; and the images that the
-- dialog would delete are at most 100, none twice, and at least one as long as the dialog is open.
pub requests-IsAllowed :
    (es : List ListEvent)
    → IsBatch (run_list es first_page).selected
      × All IsAllowed (run_list es first_page).requests
      × IsBatch (run_list es first_page).delete_snapshot
      × (((run_list es first_page).delete_confirm_open ≡ false)
          ⊎ (1 ≤ length (run_list es first_page).delete_snapshot))
requests-IsAllowed es =
    let bounded = run_list-IsBounded es first_page (record {
      selection = empty-IsBatch;
      snapshot = empty-IsBatch;
      asked = λ e. cc;
      sent = tt;
    }) in
    (
      bounded.selection,
      bounded.sent,
      bounded.snapshot,
      elim (Bool-cases (run_list es first_page).delete_confirm_open) [
        | inl shown ↦ inr (bounded.asked shown)
        | inr closed ↦ inl closed
      ],
    )

-- The notice after a batch: either no image failed and all are counted as done, or some failed and
-- the two numbers, the second of which counts the failures, add up to all.
pub batch_toast_lem :
    (result : BatchOperationResult)
    → ((count is_failure result ≡ 0) × (batch_toast result ≡ batch_success (length result)))
      ⊎ ((done : ℕ) × (done + count is_failure result ≡ length result)
          × (1 ≤ count is_failure result)
          × (batch_toast result ≡ batch_partial done (count is_failure result)))
unfolding batch_toast
batch_toast_lem result = elim (Bool-cases (ltb 0 (count is_failure result))) [
  | inl some_failed ↦ inr (
    length result - count is_failure result,
    omega (arith, count-le-length is_failure result),
    ground (arith, some_failed),
    rw (length-filter is_failure result, some_failed) refl,
  )
  | inr none_failed ↦
      inl (ground (arith, none_failed), rw (length-filter is_failure result, none_failed) refl)
]
