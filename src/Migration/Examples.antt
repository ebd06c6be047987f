-- ===== src/Migration/Examples.antt =====
-- The page's theorems at concrete values.
use imagesilo.Common.{
  ◌<◌, ◌≡◌, refl, Bool, true, false, not, ◌&&◌, Option, none, some, List, [], ◌∷◌, length, All,
  nat_eq, list_eq,
}
use imagesilo.Common.Text.{Text, codes}
use imagesilo.Common.Collections.{has}
use imagesilo.Api.{MigrationImage, MigrationImageList, BatchStatus}
use imagesilo.FilterForm.{Parameters}
use imagesilo.Storage.{Storage, ViewMode}
use imagesilo.Migration.{
  Request, MigrationPage, toggle_path, ask_delete, ask_delete_selected, start_delete, finish_delete,
}
use imagesilo.Migration.Steps.{
  MigrationEvent, migration_step, set_view_mode, set_filters_open, run_migration, first_migration,
  normalized_migration_query, migration_applied,
}
use imagesilo.Migration.Card.{migration_card, is_enabled}
use imagesilo.Migration.{mutations_enabled, dismiss_delete}
use imagesilo.Migration.Controls.{card_controls}
use imagesilo.Migration.Kept.{IsBounded}
use imagesilo.Migration.Bounds.{run_migration-IsBounded}
use imagesilo.Migration.ReadOnly.{IsRefresh, read_only_lem}
use imagesilo.Migration.Search.{normalized_migration_query-migration_applied}
use imagesilo.Migration.Reload.{reopened_lem}

abbrev image : MigrationImage
image = record {
  path = codes "old/a.png";
  original_name = codes "a.png";
  standard_url = codes "/old/a.png";
  extension = codes ".png";
  stored_size = 100;
  modified_at = codes "2026-01-02T00:00:00Z";
}

abbrev answer : Bool → List MigrationImageList
answer allowed =
    record {
      items = image ∷ [];
      next_cursor = none;
      mutations_enabled = allowed;
      skipped_files = 0;
    }
    ∷ []

abbrev storage : Storage
storage = record { readable = true; writable = true; entries = [] }

abbrev deletion : List MigrationEvent
deletion =
    MigrationEvent.loaded (answer true)
    ∷ MigrationEvent.toggle (codes "old/a.png")
    ∷ MigrationEvent.ask_selected
    ∷ MigrationEvent.confirm
    ∷ MigrationEvent.confirm
    ∷ MigrationEvent.delete_finished
        (some (record { path = codes "old/a.png"; status = BatchStatus.deleted } ∷ []))
    ∷ []

deletion_run :
    (run_migration deletion (first_migration [] storage)).requests
    ≡ Request.batch_delete (codes "old/a.png" ∷ []) ∷ []
unfolding run_migration first_migration migration_step finish_delete start_delete
    ask_delete_selected toggle_path set_view_mode set_filters_open
deletion_run = refl

-- A press on the button of the dialog while it closes.
empty_deletion_run :
    (run_migration
      (MigrationEvent.loaded (answer true)
        ∷ MigrationEvent.ask_one (codes "old/a.png")
        ∷ MigrationEvent.dismiss
        ∷ MigrationEvent.confirm
        ∷ [])
      (first_migration [] storage)).requests
    ≡ Request.batch_delete [] ∷ []
unfolding run_migration first_migration migration_step start_delete ask_delete dismiss_delete
    set_view_mode set_filters_open
empty_deletion_run = refl

run_migration-IsBounded_example : IsBounded (run_migration deletion (first_migration [] storage))
run_migration-IsBounded_example = run_migration-IsBounded deletion [] storage

abbrev attempts : List MigrationEvent
attempts =
    MigrationEvent.loaded (answer false)
    ∷ MigrationEvent.toggle (codes "old/a.png")
    ∷ MigrationEvent.ask_one (codes "old/a.png")
    ∷ MigrationEvent.confirm
    ∷ MigrationEvent.press_refresh
    ∷ []

read_only_lem_example :
    ((run_migration attempts (first_migration [] storage)).selected ≡ [])
    × ((run_migration attempts (first_migration [] storage)).delete_confirm_open ≡ false)
    × All IsRefresh (run_migration attempts (first_migration [] storage)).requests
read_only_lem_example = read_only_lem attempts [] storage (refl, (tt, (tt, (tt, (tt, tt)))))

abbrev form : Parameters
form = (codes "q", codes " cat ") ∷ (codes "minMiB", codes "0.5") ∷ []

normalized_migration_query-migration_applied_example :
    normalized_migration_query (migration_applied form) ≡ migration_applied form
normalized_migration_query-migration_applied_example =
    normalized_migration_query-migration_applied form

abbrev looks : List MigrationEvent
looks = MigrationEvent.toggle_filters ∷ MigrationEvent.choose_view ViewMode.list ∷ []

reopened_lem_example :
    ((first_migration [] (run_migration looks (first_migration [] storage)).storage).filters_open
      ≡ (run_migration looks (first_migration [] storage)).filters_open)
    × ((first_migration [] (run_migration looks (first_migration [] storage)).storage).view_mode
        ≡ (run_migration looks (first_migration [] storage)).view_mode)
reopened_lem_example = reopened_lem looks [] [] storage refl refl

abbrev decode : Text → Option Text
decode value = some value

abbrev page : MigrationPage
page = run_migration (MigrationEvent.loaded (answer true) ∷ []) (first_migration [] storage)

card_controls_example :
    (is_enabled (migration_card decode page image).checkbox
      ≡ (mutations_enabled page && not page.delete_pending))
    × (is_enabled (migration_card decode page image).checkbox ≡ false
        → (toggle_path image.path page ≡ page) × (ask_delete (image.path ∷ []) page ≡ page))
    × (is_enabled (migration_card decode page image).checkbox ≡ true
        → length page.selected < 100
        → has image.path (toggle_path image.path page).selected
          ≡ not (has image.path page.selected))
card_controls_example = card_controls decode page image
