-- ===== src/ImageDetail.antt =====
-- The page of one image, web/src/features/images/image-detail-page.tsx: its four mutations, its two
-- dialogs, and the way back to the list.
pub mod Steps
pub mod Leaving
pub mod Kept
pub mod Sent
mod Examples
use imagesilo.Common.{
  Bool, true, false, not, ◌&&◌, Option, none, some, List, [], ◌∷◌, ◌==◌, nat_eq, list_eq,
  if◌then◌else◌, is_some,
}
use imagesilo.Common.Text.{Text, codes, trim}
use imagesilo.Api.{Visibility, Image}
use imagesilo.Toasts.{Toasts, show, loading, success, failure}

-- A mutation waits for its answer, then, where its handler awaits a reload, for the end of that.
pub data Mutation : Type 0 where
  idle sent finishing : Mutation

abbrev pub is_idle : Mutation → Bool
is_idle idle = true
is_idle _ = false

abbrev pub is_sent : Mutation → Bool
is_sent sent = true
is_sent _ = false

-- `location.state`; a missing state has neither.
pub record ReturnState : Type 0 where
  pub from_image_list : Bool
  pub return_to : Option Text

pub data Navigation : Type 0 where
  back : Navigation
  push : Text → Navigation
  replace : Text → Navigation

pub data DetailRequest : Type 0 where
  change_visibility : Visibility → DetailRequest
  delete_image convert_webp : DetailRequest
  create_alias : Text → DetailRequest

pub record DetailPage : Type 0 where
  -- `location.key` and `location.state`
  pub location_key : Text
  pub state : ReturnState
  pub current_entry : Option Text
  pub image : Option Image
  pub delete_open : Bool
  pub convert_open : Bool
  pub alias_path : Text
  pub visibility : Mutation
  pub deletion : Mutation
  pub conversion : Mutation
  pub alias_creation : Mutation
  -- The key that the handler of the deletion saw when the answer arrived.
  pub deleted_at : Text
  pub navigations : List Navigation
  pub toasts : Toasts
  pub requests : List DetailRequest

abbrev pub visibility_id : Text
visibility_id = codes "detail-visibility"

abbrev pub delete_id : Text
delete_id = codes "detail-delete"

abbrev pub conversion_id : Text
conversion_id = codes "detail-conversion"

abbrev pub alias_id : Text
alias_id = codes "detail-alias"

-- `state?.returnTo || '/admin/images'`
abbrev pub list_path : Option Text → Text
list_path none = codes "/admin/images"
list_path (some path) = if path == [] then codes "/admin/images" else path

-- `returnToList`
unfoldable pub return_to_list : DetailPage → DetailPage
return_to_list page = record page {
  navigations =
      (if page.state.from_image_list then back else push (list_path page.state.return_to))
      ∷ page.navigations;
}

abbrev pub opposite : Visibility → Visibility
opposite Visibility.public = Visibility.private
opposite Visibility.private = Visibility.public

abbrev pub send_visibility : Option Image → DetailPage → DetailPage
send_visibility none page = page
send_visibility (some image) page = record page {
  visibility = sent;
  toasts = show visibility_id loading (codes "common.working") page.toasts;
  requests = change_visibility (opposite image.visibility) ∷ page.requests;
}

unfoldable pub press_visibility : DetailPage → DetailPage
press_visibility page = if is_idle page.visibility then send_visibility page.image page else page

-- The answer, for the visibility that was asked for.
unfoldable pub settle_visibility : Visibility → Bool → DetailPage → DetailPage
settle_visibility value succeeded page =
    if not (is_sent page.visibility)
    then page
    else if succeeded
    then record page {
      visibility = idle;
      toasts =
          show visibility_id success
            (elim value [
              | Visibility.public ↦ codes "toast.imagePublic"
              | Visibility.private ↦ codes "toast.imagePrivate"
            ])
            page.toasts;
    }
    else record page {
      visibility = idle;
      toasts = show visibility_id failure (codes "toast.operationFailed") page.toasts;
    }

unfoldable pub ask_delete : DetailPage → DetailPage
ask_delete page =
    if is_some page.image && is_idle page.deletion then record page { delete_open = true } else page

unfoldable pub dismiss_delete : DetailPage → DetailPage
dismiss_delete page = if is_idle page.deletion then record page { delete_open = false } else page

unfoldable pub confirm_delete : DetailPage → DetailPage
confirm_delete page =
    if is_some page.image && is_idle page.deletion
    then record page {
      deletion = sent;
      toasts = show delete_id loading (codes "common.working") page.toasts;
      requests = delete_image ∷ page.requests;
    }
    else page

-- The answer says whether a cleanup is pending; `none` is a failure.
abbrev pub deletion_answered : Option Bool → DetailPage → DetailPage
deletion_answered none page = record page {
  deletion = idle;
  toasts = show delete_id failure (codes "toast.operationFailed") page.toasts;
}
deletion_answered (some cleanup_pending) page = record page {
  deletion = finishing;
  deleted_at = page.location_key;
  toasts =
      show delete_id success
        (if cleanup_pending then codes "toast.imageDeletedCleanup" else codes "toast.imageDeleted")
        page.toasts;
}

unfoldable pub answer_deletion : Option Bool → DetailPage → DetailPage
answer_deletion answer page = if is_sent page.deletion then deletion_answered answer page else page

abbrev pub is_finishing : Mutation → Bool
is_finishing finishing = true
is_finishing _ = false

abbrev pub is_entry : Text → Option Text → Bool
is_entry key none = false
is_entry key (some entry) = entry == key

-- The lists are loaded again: back to the list, unless the page was left in the meantime.
unfoldable pub finish_deletion : DetailPage → DetailPage
finish_deletion page =
    if not (is_finishing page.deletion)
    then page
    else if is_entry page.deleted_at page.current_entry
    then record page {
      deletion = idle;
      navigations =
          (if page.state.from_image_list then back else replace (list_path page.state.return_to))
          ∷ page.navigations;
    }
    else record page { deletion = idle }
