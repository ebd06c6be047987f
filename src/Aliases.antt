-- ===== src/Aliases.antt =====
-- The page of aliases, web/src/features/aliases/alias-page.tsx: an alias for a new image, looking an
-- alias up, and deleting one.
pub mod Bounds
mod Examples
use imagesilo.Common.{
  ℕ, Bool, true, false, not, ◌||◌, Option, none, some, List, [], ◌∷◌, ◌==◌, nat_eq, list_eq,
  if◌then◌else◌, is_some,
}
use imagesilo.Common.Text.{Text, codes}
use imagesilo.Common.Collections.{lookup}
use imagesilo.ApiClient.{percent_of}
use imagesilo.FilterForm.{Parameters, field}
use imagesilo.Toasts.{Toasts, no_toasts, show, notify, loading, success, failure}

pub record ImageAlias : Type 0 where
  pub id : Text
  pub path : Text
  pub image_id : Text
  pub source : Text

-- A file that was chosen, as far as the page reads it.
pub record ChosenFile : Type 0 where
  pub name : Text
  pub size : ℕ

pub data AliasRequest : Type 0 where
  import_file : Text → ChosenFile → AliasRequest
  resolve_path : Text → AliasRequest
  delete_alias : Text → AliasRequest

pub record AliasPage : Type 0 where
  pub resolved : Option ImageAlias
  pub created : Option ImageAlias
  pub selected_file : Option ChosenFile
  pub upload_progress : ℕ
  pub delete_target : Option ImageAlias
  pub create_pending : Bool
  pub resolve_pending : Bool
  pub remove_pending : Bool
  pub toasts : Toasts
  pub requests : List AliasRequest

abbrev pub create_id : Text
create_id = codes "alias-create"

unfoldable pub choose_file : Option ChosenFile → AliasPage → AliasPage
choose_file file page = record page { selected_file = file }

abbrev pub send_create : Text → ChosenFile → AliasPage → AliasPage
send_create path file page =
    if file.size == 0
    then record page {
      created = none;
      toasts = notify failure (codes "aliases.createFailed") page.toasts;
    }
    else record page {
      created = none;
      create_pending = true;
      upload_progress = 0;
      toasts = show create_id loading (codes "aliases.saving") page.toasts;
      requests = import_file path file ∷ page.requests;
    }

abbrev pub send_chosen : Text → Option ChosenFile → AliasPage → AliasPage
send_chosen path none page = page
send_chosen path (some file) page = send_create path file page

-- `createAlias`; the form cannot be submitted without a file or while an alias is created.
unfoldable pub create_alias : Parameters → AliasPage → AliasPage
unfolding lookup
create_alias form page =
    if page.create_pending
    then page
    else send_chosen (field (codes "path") form) page.selected_file page

abbrev pub set_progress : Option ℕ → AliasPage → AliasPage
set_progress none page = page
set_progress (some percent) page = record page { upload_progress = percent }

-- A progress event of the upload.
unfoldable pub report_progress : ℕ → ℕ → AliasPage → AliasPage
unfolding percent_of
report_progress loaded total page =
    if page.create_pending then set_progress (percent_of loaded total) page else page

abbrev pub end_create : Option ImageAlias → AliasPage → AliasPage
end_create none page = record page {
  create_pending = false;
  upload_progress = 0;
  toasts = show create_id failure (codes "aliases.createFailed") page.toasts;
}
end_create (some value) page = record page {
  create_pending = false;
  created = some value;
  upload_progress = 0;
  selected_file = none;
  toasts = show create_id success (codes "toast.aliasCreated") page.toasts;
}

unfoldable pub settle_create : Option ImageAlias → AliasPage → AliasPage
settle_create answer page = if page.create_pending then end_create answer page else page

-- `resolveAlias`
unfoldable pub resolve_alias : Parameters → AliasPage → AliasPage
unfolding lookup
resolve_alias form page = if page.resolve_pending then page else record page {
  resolved = none;
  resolve_pending = true;
  requests = resolve_path (field (codes "resolvePath") form) ∷ page.requests;
}

abbrev pub end_resolve : Option ImageAlias → AliasPage → AliasPage
end_resolve none page = record page {
  resolve_pending = false;
  toasts = notify failure (codes "aliases.notFound") page.toasts;
}
end_resolve (some value) page = record page { resolve_pending = false; resolved = some value }

unfoldable pub settle_resolve : Option ImageAlias → AliasPage → AliasPage
settle_resolve answer page = if page.resolve_pending then end_resolve answer page else page

unfoldable pub ask_remove : ImageAlias → AliasPage → AliasPage
ask_remove alias page =
    if page.remove_pending then page else record page { delete_target = some alias }

unfoldable pub dismiss_remove : AliasPage → AliasPage
dismiss_remove page = if page.remove_pending then page else record page { delete_target = none }

abbrev pub send_remove : Option ImageAlias → AliasPage → AliasPage
send_remove none page = page
send_remove (some alias) page = record page {
  remove_pending = true;
  requests = delete_alias alias.id ∷ page.requests;
}

unfoldable pub confirm_remove : AliasPage → AliasPage
confirm_remove page = if page.remove_pending then page else send_remove page.delete_target page

unfoldable pub settle_remove : Bool → AliasPage → AliasPage
settle_remove succeeded page =
    if not page.remove_pending
    then page
    else if succeeded
    then record page {
      remove_pending = false;
      delete_target = none;
      toasts = notify success (codes "toast.aliasDeleted") page.toasts;
    }
    else record page {
      remove_pending = false;
      toasts = notify failure (codes "aliases.deleteFailed") page.toasts;
    }

pub data AliasEvent : Type 0 where
  file_chosen : Option ChosenFile → AliasEvent
  create_submitted resolve_submitted : Parameters → AliasEvent
  progressed : ℕ → ℕ → AliasEvent
  create_settled resolve_settled : Option ImageAlias → AliasEvent
  remove_asked : ImageAlias → AliasEvent
  remove_dismissed remove_confirmed : AliasEvent
  remove_settled : Bool → AliasEvent

unfoldable pub alias_step : AliasEvent → AliasPage → AliasPage
alias_step (file_chosen file) page = choose_file file page
alias_step (create_submitted form) page = create_alias form page
alias_step (resolve_submitted form) page = resolve_alias form page
alias_step (progressed loaded total) page = report_progress loaded total page
alias_step (create_settled answer) page = settle_create answer page
alias_step (resolve_settled answer) page = settle_resolve answer page
alias_step (remove_asked alias) page = ask_remove alias page
alias_step remove_dismissed page = dismiss_remove page
alias_step remove_confirmed page = confirm_remove page
alias_step (remove_settled succeeded) page = settle_remove succeeded page

unfoldable pub run_aliases : List AliasEvent → AliasPage → AliasPage
run_aliases [] page = page
run_aliases (e ∷ es) page = run_aliases es (alias_step e page)

abbrev pub first_aliases : AliasPage
first_aliases = record {
  resolved = none;
  created = none;
  selected_file = none;
  upload_progress = 0;
  delete_target = none;
  create_pending = false;
  resolve_pending = false;
  remove_pending = false;
  toasts = no_toasts;
  requests = [];
}
