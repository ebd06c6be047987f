-- ===== src/Settings/Kept.antt =====
-- What each step of the settings page keeps: what it sends, and what its notices say.
use imagesilo.Common.{
  ◌≤◌, ◌≡◌, refl, ◌∙◌, Bool, true, false, Option, none, some, [], ◌∷◌, length, All, ltb, ◌==◌,
  nat_eq, list_eq, arith, Bool-cases, Option-cases, inl, inr,
}
use imagesilo.Common.Text.{Text, codes, trim, trim_idem}
use imagesilo.Api.{Visibility}
use imagesilo.Toasts.{
  Toasts, Level, loading, success, failure, show, is_loading, is_loading_level, is_loading-show,
}
use imagesilo.Settings.{
  Processing, AppSettings, ProcessingDraft, Request, SettingsPage, is_email, profile_form_errors,
  update_profile,
}
use imagesilo.Settings.Forms.{
  change_password, password_form_errors, read_fields, field_errors, checked, update_processing,
  submit_draft, submit_drafted, send_processing, choose_visibility, settle_profile,
  settle_visibility, settle_password, settle_processing, settings_loaded, Edit, edit_field,
  first_settings,
}
use imagesilo.Settings.Values.{number_value_bounds}
use imagesilo.Settings.Roundtrip.{IsProcessing}

-- A request that the page may send.
abbrev pub IsSendable : Request → Type 0
IsSendable (Request.profile name email) =
    ((name == []) ≡ false) × (trim name ≡ name) × (is_email email ≡ true)
IsSendable (Request.visibility _) = Unit
IsSendable (Request.password current next) = ((current == []) ≡ false) × (12 ≤ length next)
IsSendable (Request.processing p) = IsProcessing p

abbrev profile_id : Text
profile_id = codes "settings-profile"

abbrev visibility_id : Text
visibility_id = codes "settings-visibility"

abbrev password_id : Text
password_id = codes "settings-password"

abbrev processing_id : Text
processing_id = codes "settings-processing"

-- Which of the four notices say that something is under way.
pub record Shows (profile visibility password processing : Bool) (toasts : Toasts) : Type 0 where
  pub profile_shown : is_loading profile_id toasts ≡ profile
  pub visibility_shown : is_loading visibility_id toasts ≡ visibility
  pub password_shown : is_loading password_id toasts ≡ password
  pub processing_shown : is_loading processing_id toasts ≡ processing

-- The notice of a mutation says that it is under way exactly while it is.
pub record IsInStep (page : SettingsPage) : Type 0 where
  pub sent : All IsSendable page.requests
  pub shows :
      Shows page.profile_pending page.visibility_pending page.password_pending
        page.processing_pending page.toasts

checked-IsProcessing :
    (draft : ProcessingDraft) (p : Processing) → checked draft ≡ some p → IsProcessing p
unfolding checked
checked-IsProcessing draft p e = ground (
  arith,
  e,
  number_value_bounds draft.jpeg_quality 1 100 p.jpeg_quality,
  number_value_bounds draft.webp_quality 1 100 p.webp_quality,
  number_value_bounds draft.png_compression_level 0 9 p.png_compression_level,
  number_value_bounds draft.conversion_webp_quality 1 100 p.conversion_webp_quality,
)

module _ {a b c d : Bool} (key : Text) (level : Level) (toasts : Toasts)
    (h : Shows a b c d toasts) where
  show_profile : Shows (is_loading_level level) b c d (show profile_id level key toasts)
  show_profile = record {
    profile_shown = is_loading-show profile_id profile_id key level [] toasts;
    visibility_shown =
        is_loading-show profile_id visibility_id key level [] toasts ∙ h.visibility_shown;
    password_shown = is_loading-show profile_id password_id key level [] toasts ∙ h.password_shown;
    processing_shown =
        is_loading-show profile_id processing_id key level [] toasts ∙ h.processing_shown;
  }

  show_visibility : Shows a (is_loading_level level) c d (show visibility_id level key toasts)
  show_visibility = record {
    profile_shown = is_loading-show visibility_id profile_id key level [] toasts ∙ h.profile_shown;
    visibility_shown = is_loading-show visibility_id visibility_id key level [] toasts;
    password_shown =
        is_loading-show visibility_id password_id key level [] toasts ∙ h.password_shown;
    processing_shown =
        is_loading-show visibility_id processing_id key level [] toasts ∙ h.processing_shown;
  }

  show_password : Shows a b (is_loading_level level) d (show password_id level key toasts)
  show_password = record {
    profile_shown = is_loading-show password_id profile_id key level [] toasts ∙ h.profile_shown;
    visibility_shown =
        is_loading-show password_id visibility_id key level [] toasts ∙ h.visibility_shown;
    password_shown = is_loading-show password_id password_id key level [] toasts;
    processing_shown =
        is_loading-show password_id processing_id key level [] toasts ∙ h.processing_shown;
  }

  show_processing : Shows a b c (is_loading_level level) (show processing_id level key toasts)
  show_processing = record {
    profile_shown = is_loading-show processing_id profile_id key level [] toasts ∙ h.profile_shown;
    visibility_shown =
        is_loading-show processing_id visibility_id key level [] toasts ∙ h.visibility_shown;
    password_shown =
        is_loading-show processing_id password_id key level [] toasts ∙ h.password_shown;
    processing_shown = is_loading-show processing_id processing_id key level [] toasts;
  }

pub first_settings-IsInStep : IsInStep first_settings
unfolding is_loading
first_settings-IsInStep = record {
  sent = tt;
  shows = record {
    profile_shown = refl;
    visibility_shown = refl;
    password_shown = refl;
    processing_shown = refl;
  };
}

pub choose_visibility-IsInStep :
    (visibility : Visibility) (page : SettingsPage)
    → IsInStep page
    → IsInStep (choose_visibility visibility page)
unfolding choose_visibility
choose_visibility-IsInStep visibility page h = ground (
  arith,
  h.sent,
  h.shows,
  show_visibility (codes "toast.settingsSaving") loading page.toasts h.shows,
)

profile_form_errors_none :
    (name email : Text)
    → ltb 0 (length (profile_form_errors name email)) ≡ false
    → ((name == []) ≡ false) × (is_email email ≡ true)
unfolding profile_form_errors
profile_form_errors_none name email h = elim (Bool-cases (name == [])) [
  | inl e ↦ ground (arith, h, e)
  | inr e ↦ elim (Bool-cases (email == [])) [
    | inl k ↦ ground (arith, h, e, k)
    | inr k ↦ elim (Bool-cases (is_email email)) [
      | inl m ↦ (e, m)
      | inr m ↦ ground (arith, h, e, k, m)
    ]
  ]
]

pub update_profile-IsInStep :
    (name email : Text) (page : SettingsPage)
    → IsInStep page
    → IsInStep (update_profile name email page)
unfolding update_profile
update_profile-IsInStep name email page h = ground (
  arith,
  h.sent,
  h.shows,
  trim_idem name,
  profile_form_errors_none (trim name) (trim email),
  show_profile (codes "toast.profileSaving") loading page.toasts h.shows,
)

password_form_errors_none :
    (current next : Text)
    → ltb 0 (length (password_form_errors current next)) ≡ false
    → ((current == []) ≡ false) × (12 ≤ length next)
unfolding password_form_errors
password_form_errors_none current [] h = ground (arith, h)
password_form_errors_none current (c ∷ s) h = ground (arith, h)

pub change_password-IsInStep :
    (page : SettingsPage) → IsInStep page → IsInStep (change_password page)
unfolding change_password
change_password-IsInStep page h = ground (
  arith,
  h.sent,
  h.shows,
  password_form_errors_none page.current_password page.new_password,
  show_password (codes "toast.passwordChanging") loading page.toasts h.shows,
)

pub send_processing-IsInStep :
    (draft : ProcessingDraft) (page : SettingsPage)
    → IsInStep page
    → IsInStep (send_processing (checked draft) page)
send_processing-IsInStep draft page h = elim (Option-cases (checked draft)) [
  | inl e ↦ rw e h
  | inr (p, e) ↦ rw e (
      ground (
        arith,
        h.sent,
        h.shows,
        checked-IsProcessing draft p e,
        show_processing (codes "toast.settingsSaving") loading page.toasts h.shows,
      ))
]

pub submit_drafted-IsInStep :
    (draft : Option ProcessingDraft) (page : SettingsPage)
    → IsInStep page
    → IsInStep (submit_drafted draft page)
unfolding submit_draft
submit_drafted-IsInStep none page h = h
submit_drafted-IsInStep (some draft) page h =
    elim (Bool-cases (ltb 0 (length (field_errors (read_fields draft))))) [
      | inl wrong ↦ rw wrong (record { sent = h.sent; shows = h.shows })
      | inr right ↦ rw right (send_processing-IsInStep draft page h)
    ]

pub update_processing-IsInStep :
    (page : SettingsPage) → IsInStep page → IsInStep (update_processing page)
unfolding update_processing
update_processing-IsInStep page h =
    ground (arith, h, submit_drafted-IsInStep page.processing_draft page h)

pub settings_loaded-IsInStep :
    (settings : AppSettings) (page : SettingsPage)
    → IsInStep page
    → IsInStep (settings_loaded settings page)
unfolding settings_loaded
settings_loaded-IsInStep settings page h = record { sent = h.sent; shows = h.shows }

pub edit_field-IsInStep :
    (edit : Edit) (page : SettingsPage) → IsInStep page → IsInStep (edit_field edit page)
unfolding edit_field
edit_field-IsInStep (Edit.current_password t) page h = record { sent = h.sent; shows = h.shows }
edit_field-IsInStep (Edit.new_password t) page h = record { sent = h.sent; shows = h.shows }
edit_field-IsInStep (Edit.compression_enabled t) page h = record { sent = h.sent; shows = h.shows }
edit_field-IsInStep (Edit.conversion_enabled t) page h = record { sent = h.sent; shows = h.shows }
edit_field-IsInStep (Edit.conversion_webp_lossless t) page h = record {
  sent = h.sent;
  shows = h.shows;
}
edit_field-IsInStep (Edit.jpeg_quality t) page h = record { sent = h.sent; shows = h.shows }
edit_field-IsInStep (Edit.webp_quality t) page h = record { sent = h.sent; shows = h.shows }
edit_field-IsInStep (Edit.png_compression_level t) page h = record {
  sent = h.sent;
  shows = h.shows;
}
edit_field-IsInStep (Edit.conversion_webp_quality t) page h = record {
  sent = h.sent;
  shows = h.shows;
}

pub settle_profile-IsInStep :
    (succeeded : Bool) (page : SettingsPage)
    → IsInStep page
    → IsInStep (settle_profile succeeded page)
unfolding settle_profile
settle_profile-IsInStep succeeded page h = ground (
  arith,
  h.sent,
  h.shows,
  show_profile (codes "toast.profileSaved") success page.toasts h.shows,
  show_profile (codes "toast.profileFailed") failure page.toasts h.shows,
)

pub settle_visibility-IsInStep :
    (answer : Option AppSettings) (page : SettingsPage)
    → IsInStep page
    → IsInStep (settle_visibility answer page)
unfolding settle_visibility
settle_visibility-IsInStep answer page h = ground (
  arith,
  h.sent,
  h.shows,
  show_visibility (codes "toast.settingsSaved") success page.toasts h.shows,
  show_visibility (codes "toast.settingsFailed") failure page.toasts h.shows,
)

pub settle_password-IsInStep :
    (succeeded : Bool) (page : SettingsPage)
    → IsInStep page
    → IsInStep (settle_password succeeded page)
unfolding settle_password
settle_password-IsInStep succeeded page h = ground (
  arith,
  h.sent,
  h.shows,
  show_password (codes "toast.passwordChanged") success page.toasts h.shows,
  show_password (codes "settings.passwordFailed") failure page.toasts h.shows,
)

pub settle_processing-IsInStep :
    (answer : Option AppSettings) (page : SettingsPage)
    → IsInStep page
    → IsInStep (settle_processing answer page)
unfolding settle_processing
settle_processing-IsInStep answer page h = ground (
  arith,
  h.sent,
  h.shows,
  show_processing (codes "toast.settingsSaved") success page.toasts h.shows,
  show_processing (codes "settings.processingFailed") failure page.toasts h.shows,
)
