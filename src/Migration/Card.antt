-- ===== src/Migration/Card.antt =====
-- What the page shows: its cards, its dialog, and which controls are enabled.
use imagesilo.Common.{
  ℕ, Bool, false, not, Option, none, some, List, [], ◌∷◌, length, nat_eq, list_eq, if◌then◌else◌,
  or_else, flat_map, ltb,
}
use imagesilo.Common.Text.{Text, codes}
use imagesilo.Common.Collections.{has}
use imagesilo.Api.{MigrationImage, MigrationImageList}
use imagesilo.Migration.{MigrationPage, mutations_enabled, is_idle}

abbrev pub images : List MigrationImageList → List MigrationImage
images pages = flat_map (λ (page : MigrationImageList). page.items) pages

abbrev pub first_skipped : List MigrationImageList → ℕ
first_skipped [] = 0
first_skipped (page ∷ _) = page.skipped_files

-- A control that is shown: whether it is checked and whether it is disabled.
pub record Control : Type 0 where
  pub checked : Bool
  pub disabled : Bool

pub record MigrationCard : Type 0 where
  pub path_text : Text
  pub checkbox : Option Control
  pub delete_button : Option Control

-- `decodeURI` is the language's; it fails on a malformed text.
module _ (decode_uri : Text → Option Text) where
  unfoldable pub display_path : Text → Text
  display_path value = or_else (decode_uri value) value

  unfoldable pub migration_card : MigrationPage → MigrationImage → MigrationCard
  migration_card page image = record {
    path_text = display_path image.path;
    checkbox =
        if mutations_enabled page
        then some
            (record { checked = has image.path page.selected; disabled = page.delete_pending })
        else none;
    delete_button =
        if mutations_enabled page
        then some (record { checked = false; disabled = page.delete_pending })
        else none;
  }

  -- The title and the text of the dialog, with what stands in it: a path or a number.
  unfoldable pub delete_dialog : MigrationPage → Text × Text × Option Text × ℕ
  delete_dialog page = elim page.delete_snapshot [
    | path ∷ [] ↦ (
      codes "migrations.deleteImageTitle",
      codes "migrations.confirmDelete",
      some (display_path path),
      1,
    )
    | paths ↦ (
      codes "migrations.deleteSelectionTitle",
      codes "migrations.confirmBatchDelete",
      none,
      length paths,
    )
  ]

-- The toolbar for the selection, and the button that scans again.
unfoldable pub toolbar : MigrationPage → Option Control
toolbar page =
    if ltb 0 (length page.selected)
    then some (record { checked = false; disabled = page.delete_pending })
    else none

unfoldable pub refresh_is_disabled : MigrationPage → Bool
refresh_is_disabled page = not (is_idle page.refreshing)

abbrev pub is_enabled : Option Control → Bool
is_enabled none = false
is_enabled (some control) = not control.disabled
