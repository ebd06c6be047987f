-- ===== src/ImageDetail/Steps.antt =====
-- Converting the image, its aliases, leaving the page, and all that can happen on it.
use imagesilo.Common.{
  is_some, Bool, true, false, not, ◌&&◌, ◌||◌, Option, none, some, List, [], ◌∷◌, ◌==◌, nat_eq,
  list_eq, if◌then◌else◌,
}
use imagesilo.Common.Text.{Text, codes, trim}
use imagesilo.Api.{Visibility, Image}
use imagesilo.Toasts.{no_toasts, show, loading, success, failure}
use imagesilo.ImageDetail.{
  idle, sent, finishing, is_idle, is_sent, is_finishing, ReturnState, convert_webp, create_alias,
  DetailPage, conversion_id, alias_id, return_to_list, press_visibility, settle_visibility,
  ask_delete, dismiss_delete, confirm_delete, answer_deletion, finish_deletion,
}

abbrev pub can_convert : Option Image → Bool
can_convert none = false
can_convert (some image) =
    image.mime_type == codes "image/jpeg" || image.mime_type == codes "image/png"

unfoldable pub ask_convert : DetailPage → DetailPage
ask_convert page =
    if can_convert page.image && is_idle page.conversion
    then record page { convert_open = true }
    else page

unfoldable pub dismiss_convert : DetailPage → DetailPage
dismiss_convert page =
    if is_idle page.conversion then record page { convert_open = false } else page

unfoldable pub confirm_convert : DetailPage → DetailPage
confirm_convert page =
    if is_some page.image && is_idle page.conversion
    then record page {
      conversion = sent;
      toasts = show conversion_id loading (codes "common.working") page.toasts;
      requests = convert_webp ∷ page.requests;
    }
    else page

abbrev pub conversion_settled : Option Bool → DetailPage → DetailPage
conversion_settled none page = record page {
  conversion = idle;
  toasts = show conversion_id failure (codes "toast.webpFailed") page.toasts;
}
conversion_settled (some cleanup_pending) page = record page {
  conversion = idle;
  convert_open = false;
  toasts =
      show conversion_id success
        (if cleanup_pending
          then codes "toast.webpConvertedCleanup"
          else codes "toast.webpConverted")
        page.toasts;
}

unfoldable pub settle_conversion : Option Bool → DetailPage → DetailPage
settle_conversion answer page =
    if is_sent page.conversion then conversion_settled answer page else page

-- `createAlias`; the form cannot be submitted while its button is disabled.
unfoldable pub submit_alias : DetailPage → DetailPage
unfolding trim
submit_alias page =
    let path = trim page.alias_path in
    if path == [] || not (is_idle page.alias_creation) then page else record page {
      alias_creation = sent;
      toasts = show alias_id loading (codes "images.aliasSaving") page.toasts;
      requests = create_alias path ∷ page.requests;
    }

abbrev pub alias_answered : Bool → DetailPage → DetailPage
alias_answered true page = record page { alias_creation = finishing; alias_path = [] }
alias_answered false page = record page {
  alias_creation = idle;
  toasts = show alias_id failure (codes "images.aliasCreateFailed") page.toasts;
}

unfoldable pub answer_alias : Bool → DetailPage → DetailPage
answer_alias succeeded page =
    if is_sent page.alias_creation then alias_answered succeeded page else page

unfoldable pub finish_alias : DetailPage → DetailPage
finish_alias page =
    if is_finishing page.alias_creation
    then record page {
      alias_creation = idle;
      toasts = show alias_id success (codes "toast.aliasCreated") page.toasts;
    }
    else page

-- The layout effect: a new entry of the history, `popstate`, and the end of the page.
unfoldable pub enter : Text → ReturnState → DetailPage → DetailPage
enter key state page = record page { location_key = key; state = state; current_entry = some key }

unfoldable pub leave : DetailPage → DetailPage
leave page = record page { current_entry = none }

pub data DetailEvent : Type 0 where
  back_pressed visibility_pressed delete_asked delete_dismissed delete_confirmed : DetailEvent
  convert_asked convert_dismissed convert_confirmed alias_submitted : DetailEvent
  visibility_settled : Visibility → Bool → DetailEvent
  deletion_settled conversion_ended : Option Bool → DetailEvent
  deletion_finished alias_finished left : DetailEvent
  alias_typed : Text → DetailEvent
  alias_settled : Bool → DetailEvent
  image_loaded : Option Image → DetailEvent
  entered : Text → ReturnState → DetailEvent

unfoldable pub detail_step : DetailEvent → DetailPage → DetailPage
detail_step back_pressed page = return_to_list page
detail_step visibility_pressed page = press_visibility page
detail_step delete_asked page = ask_delete page
detail_step delete_dismissed page = dismiss_delete page
detail_step delete_confirmed page = confirm_delete page
detail_step convert_asked page = ask_convert page
detail_step convert_dismissed page = dismiss_convert page
detail_step convert_confirmed page = confirm_convert page
detail_step alias_submitted page = submit_alias page
detail_step (visibility_settled value succeeded) page = settle_visibility value succeeded page
detail_step (deletion_settled answer) page = answer_deletion answer page
detail_step (conversion_ended answer) page = settle_conversion answer page
detail_step deletion_finished page = finish_deletion page
detail_step alias_finished page = finish_alias page
detail_step left page = leave page
detail_step (alias_typed path) page = record page { alias_path = path }
detail_step (alias_settled succeeded) page = answer_alias succeeded page
detail_step (image_loaded image) page = record page { image = image }
detail_step (entered key state) page = enter key state page

unfoldable pub run_detail : List DetailEvent → DetailPage → DetailPage
run_detail [] page = page
run_detail (e ∷ es) page = run_detail es (detail_step e page)

abbrev pub first_detail : Text → ReturnState → DetailPage
first_detail key state = record {
  location_key = key;
  state = state;
  current_entry = some key;
  image = none;
  delete_open = false;
  convert_open = false;
  alias_path = [];
  visibility = idle;
  deletion = idle;
  conversion = idle;
  alias_creation = idle;
  deleted_at = [];
  navigations = [];
  toasts = no_toasts;
  requests = [];
}
