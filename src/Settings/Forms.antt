-- ===== src/Settings/Forms.antt =====
-- The forms for the password and for the processing of images, and how the mutations end.
use imagesilo.Common.{
  ℕ, Bool, true, false, not, ◌||◌, Option, none, some, List, [], ◌∷◌, ◌++◌, length, ltb, ◌==◌,
  nat_eq, list_eq, if◌then◌else◌, is_some, ◌>>=◌,
}
use imagesilo.Common.Text.{Text, codes}
use imagesilo.Api.{Visibility}
use imagesilo.Toasts.{no_toasts, show, loading, success, failure}
use imagesilo.Settings.{
  Processing, AppSettings, ProcessingDraft, FormErrors, Request, SettingsPage, number_value,
  to_processing_draft, update_profile,
}

-- `changePassword`, up to the mutation
unfoldable pub password_form_errors : Text → Text → FormErrors
password_form_errors current next =
    (if current == [] then (codes "currentPassword", codes "validation.required") ∷ [] else [])
    ++ (if next == []
        then (codes "newPassword", codes "validation.required") ∷ []
        else if ltb (length next) 12
        then (codes "newPassword", codes "validation.minLength") ∷ []
        else [])

unfoldable pub change_password : SettingsPage → SettingsPage
change_password page =
    let errors = password_form_errors page.current_password page.new_password in
    if page.password_pending
    then page
    else if ltb 0 (length errors)
    then record page { password_errors = errors }
    else record page {
      password_errors = [];
      password_pending = true;
      toasts =
          show (codes "settings-password") loading (codes "toast.passwordChanging") page.toasts;
      requests = Request.password page.current_password page.new_password ∷ page.requests;
    }

-- The four numbers of a draft, in the order of the code.
pub record Fields : Type 0 where
  pub jpeg_quality : Option ℕ
  pub webp_quality : Option ℕ
  pub png_compression_level : Option ℕ
  pub conversion_webp_quality : Option ℕ

abbrev pub read_fields : ProcessingDraft → Fields
read_fields draft = record {
  jpeg_quality = number_value draft.jpeg_quality 1 100;
  webp_quality = number_value draft.webp_quality 1 100;
  png_compression_level = number_value draft.png_compression_level 0 9;
  conversion_webp_quality = number_value draft.conversion_webp_quality 1 100;
}

abbrev pub field_error : Text → Option ℕ → FormErrors
field_error name none = (name, codes "validation.numberRange") ∷ []
field_error name (some _) = []

abbrev pub field_errors : Fields → FormErrors
field_errors fields =
    field_error (codes "jpegQuality") fields.jpeg_quality
    ++ (field_error (codes "webpQuality") fields.webp_quality
        ++ (field_error (codes "pngCompressionLevel") fields.png_compression_level
            ++ field_error (codes "conversionWebpQuality") fields.conversion_webp_quality))

-- What is sent where no field has an error.
unfoldable pub checked : ProcessingDraft → Option Processing
checked draft = do
  let fields = read_fields draft
  jpeg ← fields.jpeg_quality
  webp ← fields.webp_quality
  png ← fields.png_compression_level
  conversion ← fields.conversion_webp_quality
  some (record {
    compression_enabled = draft.compression_enabled;
    jpeg_quality = jpeg;
    webp_quality = webp;
    png_compression_level = png;
    conversion_enabled = draft.conversion_enabled;
    conversion_webp_quality = conversion;
    conversion_webp_lossless = draft.conversion_webp_lossless;
  })

abbrev pub send_processing : Option Processing → SettingsPage → SettingsPage
send_processing none page = page
send_processing (some value) page = record page {
  processing_errors = [];
  processing_pending = true;
  toasts = show (codes "settings-processing") loading (codes "toast.settingsSaving") page.toasts;
  requests = Request.processing value ∷ page.requests;
}

unfoldable pub submit_draft : ProcessingDraft → SettingsPage → SettingsPage
submit_draft draft page =
    let errors = field_errors (read_fields draft) in
    if ltb 0 (length errors)
    then record page { processing_errors = errors }
    else send_processing (checked draft) page

abbrev pub submit_drafted : Option ProcessingDraft → SettingsPage → SettingsPage
submit_drafted none page = page
submit_drafted (some draft) page = submit_draft draft page

-- `updateProcessing`
unfoldable pub update_processing : SettingsPage → SettingsPage
update_processing page =
    if page.processing_pending then page else submit_drafted page.processing_draft page

unfoldable pub choose_visibility : Visibility → SettingsPage → SettingsPage
choose_visibility visibility page =
    if page.visibility_pending || not (is_some page.settings) then page else record page {
      visibility_pending = true;
      toasts =
          show (codes "settings-visibility") loading (codes "toast.settingsSaving") page.toasts;
      requests = Request.visibility visibility ∷ page.requests;
    }

-- The ends of the four mutations. `none` stands for a failed request.
unfoldable pub settle_profile : Bool → SettingsPage → SettingsPage
settle_profile succeeded page =
    if not page.profile_pending
    then page
    else if succeeded
    then record page {
      profile_pending = false;
      toasts = show (codes "settings-profile") success (codes "toast.profileSaved") page.toasts;
    }
    else record page {
      profile_pending = false;
      toasts = show (codes "settings-profile") failure (codes "toast.profileFailed") page.toasts;
    }

unfoldable pub settle_visibility : Option AppSettings → SettingsPage → SettingsPage
settle_visibility answer page = if not page.visibility_pending then page else elim answer [
  | some settings ↦ record page {
    visibility_pending = false;
    settings = some settings;
    toasts = show (codes "settings-visibility") success (codes "toast.settingsSaved") page.toasts;
  }
  | none ↦ record page {
    visibility_pending = false;
    toasts = show (codes "settings-visibility") failure (codes "toast.settingsFailed") page.toasts;
  }
]

unfoldable pub settle_password : Bool → SettingsPage → SettingsPage
settle_password succeeded page =
    if not page.password_pending
    then page
    else if succeeded
    then record page {
      password_pending = false;
      current_password = [];
      new_password = [];
      toasts = show (codes "settings-password") success (codes "toast.passwordChanged") page.toasts;
    }
    else record page {
      password_pending = false;
      toasts =
          show (codes "settings-password") failure (codes "settings.passwordFailed") page.toasts;
    }

unfoldable pub settle_processing : Option AppSettings → SettingsPage → SettingsPage
settle_processing answer page = if not page.processing_pending then page else elim answer [
  | some settings ↦ record page {
    processing_pending = false;
    settings = some settings;
    processing_draft = some (to_processing_draft settings.processing);
    toasts = show (codes "settings-processing") success (codes "toast.settingsSaved") page.toasts;
  }
  | none ↦ record page {
    processing_pending = false;
    toasts =
        show (codes "settings-processing") failure (codes "settings.processingFailed") page.toasts;
  }
]

-- The query has an answer; the effect makes the first draft of it.
abbrev pub first_draft : AppSettings → Option ProcessingDraft → Option ProcessingDraft
first_draft settings none = some (to_processing_draft settings.processing)
first_draft settings (some draft) = some draft

unfoldable pub settings_loaded : AppSettings → SettingsPage → SettingsPage
settings_loaded settings page = record page {
  settings = some settings;
  processing_draft = first_draft settings page.processing_draft;
}

-- What the fields of the forms change.
pub data Edit : Type 0 where
  current_password new_password : Text → Edit
  compression_enabled conversion_enabled conversion_webp_lossless : Bool → Edit
  jpeg_quality webp_quality png_compression_level conversion_webp_quality : Text → Edit

abbrev pub edit_draft : Edit → ProcessingDraft → ProcessingDraft
edit_draft (compression_enabled b) draft = record draft { compression_enabled = b }
edit_draft (conversion_enabled b) draft = record draft { conversion_enabled = b }
edit_draft (conversion_webp_lossless b) draft = record draft { conversion_webp_lossless = b }
edit_draft (jpeg_quality t) draft = record draft { jpeg_quality = t }
edit_draft (webp_quality t) draft = record draft { webp_quality = t }
edit_draft (png_compression_level t) draft = record draft { png_compression_level = t }
edit_draft (conversion_webp_quality t) draft = record draft { conversion_webp_quality = t }
edit_draft _ draft = draft

abbrev pub edit_drafted : Edit → Option ProcessingDraft → Option ProcessingDraft
edit_drafted edit none = none
edit_drafted edit (some draft) = some (edit_draft edit draft)

unfoldable pub edit_field : Edit → SettingsPage → SettingsPage
edit_field (current_password t) page = record page { current_password = t }
edit_field (new_password t) page = record page { new_password = t }
edit_field edit page = record page { processing_draft = edit_drafted edit page.processing_draft }

pub data SettingsEvent : Type 0 where
  edited : Edit → SettingsEvent
  loaded : AppSettings → SettingsEvent
  submit_profile : Text → Text → SettingsEvent
  submit_password submit_processing : SettingsEvent
  visibility_chosen : Visibility → SettingsEvent
  profile_settled password_settled : Bool → SettingsEvent
  visibility_settled processing_settled : Option AppSettings → SettingsEvent

unfoldable pub settings_step : SettingsEvent → SettingsPage → SettingsPage
settings_step (edited edit) page = edit_field edit page
settings_step (loaded settings) page = settings_loaded settings page
settings_step (submit_profile name email) page = update_profile name email page
settings_step submit_password page = change_password page
settings_step submit_processing page = update_processing page
settings_step (visibility_chosen visibility) page = choose_visibility visibility page
settings_step (profile_settled succeeded) page = settle_profile succeeded page
settings_step (password_settled succeeded) page = settle_password succeeded page
settings_step (visibility_settled answer) page = settle_visibility answer page
settings_step (processing_settled answer) page = settle_processing answer page

unfoldable pub run_settings : List SettingsEvent → SettingsPage → SettingsPage
run_settings [] page = page
run_settings (e ∷ es) page = run_settings es (settings_step e page)

abbrev pub first_settings : SettingsPage
first_settings = record {
  current_password = [];
  new_password = [];
  profile_errors = [];
  password_errors = [];
  processing_errors = [];
  processing_draft = none;
  settings = none;
  profile_pending = false;
  visibility_pending = false;
  password_pending = false;
  processing_pending = false;
  toasts = no_toasts;
  requests = [];
}
