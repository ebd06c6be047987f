-- ===== src/ImageListPage/Examples.antt =====
-- The list's theorems at concrete values.
use imagesilo.Common.{
  ℕ, ◌≤◌, ◌≡◌, ◌⊎◌, refl, some, none, List, [], ◌∷◌, length, All, ◌==◌, nat_eq, list_eq, Bool,
  false, if◌then◌else◌, arith,
}
use imagesilo.Common.Text.{codes, trim, decimal}
use imagesilo.Numbers.{number, positive}
use imagesilo.DatePicker.{is_digit}
use imagesilo.Common.Collections.{lookup, remove}
use imagesilo.Api.{BatchStatus, BatchOperationResult}
use imagesilo.ImageListPage.Scroll.{Positions, scroll_to, remember_scroll, remember_scroll_lem}
use imagesilo.FilterForm.{Parameters}
use imagesilo.ImageListPage.Filters.{normalized_filter_query, LocalTime, applied}
use imagesilo.ImageListPage.Normal.{normalized-applied}
use imagesilo.ImageListPage.Selection.{
  batch_delete, ListEvent, list_step, toggle_selected, press_delete, close_confirm, confirm_delete,
  run_list, first_page,
}
use imagesilo.Batch.{IsBatch, empty-IsBatch}
use imagesilo.ImageListPage.Refinement.{chosen_of, toggles, choose_all, toggles-choose_all}
use imagesilo.ImageListPage.Return.{restore_all, restore_all_lem}
use imagesilo.ImageListPage.Bounds.{IsAllowed, requests-IsAllowed}

abbrev visited : Positions
visited = (codes "k1", record { top = 10; count = 100 }) ∷ []

remember_scroll_lem_example :
    (length (remember_scroll (codes "k2") (record { top = 0; count = 48 }) visited) ≤ 20)
    × (lookup (codes "k2") (remember_scroll (codes "k2") (record { top = 0; count = 48 }) visited)
        ≡ some (record { top = 0; count = 48 }))
    × ((lookup (codes "k1") (remember_scroll (codes "k2") (record { top = 0; count = 48 }) visited)
          ≡ lookup (codes "k1") visited)
        ⊎ (20 ≤ length visited))
remember_scroll_lem_example =
    remember_scroll_lem (codes "k2") (codes "k1") (record { top = 0; count = 48 }) visited

abbrev source : Parameters
source =
    (codes "q", codes " cat ") ∷ (codes "format", codes "  ") ∷ (codes "limit", codes "99") ∷ []

normalized_run :
    normalized_filter_query source ≡ (codes "limit", codes "24") ∷ (codes "q", codes "cat") ∷ []
unfolding normalized_filter_query
normalized_run = refl

-- A day of 2026 in UTC, any other one at the start of the epoch.
abbrev utc : LocalTime
utc (year, month, day) end_of_day =
    if year == 2026 then codes "2026-01-02T00:00:00.000Z" else codes "1970-01-01T00:00:00.000Z"

abbrev form : Parameters
form = (codes "q", codes " cat ") ∷ (codes "minMiB", codes "0.5") ∷ []

applied_run :
    applied utc form (codes "2026-01-02") []
    ≡ (codes "limit", codes "24")
      ∷ (codes "q", codes "cat")
      ∷ (codes "createdFrom", codes "2026-01-02T00:00:00.000Z")
      ∷ (codes "minBytes", codes "524288")
      ∷ []
unfolding applied lookup positive number decimal is_digit
applied_run = refl

utc_solid : (day : ℕ × ℕ × ℕ) (end_of_day : Bool) → trim (utc day end_of_day) ≡ utc day end_of_day
unfolding trim
utc_solid (year, month, day) end_of_day = ground arith

utc_filled : (day : ℕ × ℕ × ℕ) (end_of_day : Bool) → (utc day end_of_day == []) ≡ false
utc_filled (year, month, day) end_of_day = ground arith

normalized-applied_example :
    normalized_filter_query (applied utc form (codes "2026-01-02") [])
    ≡ applied utc form (codes "2026-01-02") []
normalized-applied_example =
    normalized-applied utc utc_solid utc_filled form (codes "2026-01-02") []

abbrev events : List ListEvent
events =
    ListEvent.toggle (codes "a")
    ∷ ListEvent.toggle (codes "b")
    ∷ ListEvent.ask_delete
    ∷ ListEvent.confirm
    ∷ ListEvent.delete_settled none
    ∷ ListEvent.confirm
    ∷ []

requests-IsAllowed_example :
    IsBatch (run_list events first_page).selected
    × All IsAllowed (run_list events first_page).requests
    × IsBatch (run_list events first_page).delete_snapshot
    × (((run_list events first_page).delete_confirm_open ≡ false)
        ⊎ (1 ≤ length (run_list events first_page).delete_snapshot))
requests-IsAllowed_example = requests-IsAllowed events

-- A press on the button of the dialog while it closes.
empty_deletion_run :
    (run_list
      (ListEvent.toggle (codes "a")
        ∷ ListEvent.ask_delete
        ∷ ListEvent.dismiss
        ∷ ListEvent.confirm
        ∷ [])
      first_page).requests
    ≡ batch_delete [] ∷ []
unfolding run_list list_step toggle_selected press_delete close_confirm confirm_delete
empty_deletion_run = refl

abbrev result : BatchOperationResult
result =
    record { image_id = codes "a"; status = BatchStatus.deleted }
    ∷ record { image_id = codes "b"; status = BatchStatus.not_found }
    ∷ []

toggles-choose_all_example :
    chosen_of (run_list (toggles (codes "a" ∷ codes "b" ∷ codes "a" ∷ [])) first_page).selected
    ≡ choose_all false (codes "a" ∷ codes "b" ∷ codes "a" ∷ []) (chosen_of [])
toggles-choose_all_example =
    toggles-choose_all (codes "a" ∷ codes "b" ∷ codes "a" ∷ []) first_page empty-IsBatch

restore_all_lem_example :
    restore_all (codes "k1") visited 24 (some 24 ∷ some 60 ∷ none ∷ [])
    ≡ (scroll_to 10, remove (codes "k1") visited)
unfolding lookup
restore_all_lem_example =
    restore_all_lem (codes "k1") visited 24 (some 24 ∷ some 60 ∷ none ∷ [])
      (record { top = 10; count = 100 }) refl
