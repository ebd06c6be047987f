-- ===== src/Settings/Sent.antt =====
-- What the settings page sends, whatever is typed and pressed.
use imagesilo.Common.{List, [], ◌∷◌, nat_eq, list_eq}
use imagesilo.Settings.{SettingsPage}
use imagesilo.Settings.Forms.{SettingsEvent, settings_step, run_settings, first_settings}
use imagesilo.Settings.Kept.{
  IsInStep, first_settings-IsInStep, choose_visibility-IsInStep, update_profile-IsInStep,
  change_password-IsInStep, update_processing-IsInStep, settings_loaded-IsInStep,
  edit_field-IsInStep, settle_profile-IsInStep, settle_visibility-IsInStep,
  settle_password-IsInStep, settle_processing-IsInStep,
}

settings_step-IsInStep :
    (e : SettingsEvent) (page : SettingsPage) → IsInStep page → IsInStep (settings_step e page)
unfolding settings_step
settings_step-IsInStep (SettingsEvent.edited edit) = edit_field-IsInStep edit
settings_step-IsInStep (SettingsEvent.loaded settings) = settings_loaded-IsInStep settings
settings_step-IsInStep (SettingsEvent.submit_profile name email) =
    update_profile-IsInStep name email
settings_step-IsInStep SettingsEvent.submit_password = change_password-IsInStep
settings_step-IsInStep SettingsEvent.submit_processing = update_processing-IsInStep
settings_step-IsInStep (SettingsEvent.visibility_chosen visibility) =
    choose_visibility-IsInStep visibility
settings_step-IsInStep (SettingsEvent.profile_settled succeeded) = settle_profile-IsInStep succeeded
settings_step-IsInStep (SettingsEvent.password_settled succeeded) =
    settle_password-IsInStep succeeded
settings_step-IsInStep (SettingsEvent.visibility_settled answer) = settle_visibility-IsInStep answer
settings_step-IsInStep (SettingsEvent.processing_settled answer) = settle_processing-IsInStep answer

run_settings-all :
    (es : List SettingsEvent) (page : SettingsPage)
    → IsInStep page
    → IsInStep (run_settings es page)
unfolding run_settings
run_settings-all [] page h = h
run_settings-all (e ∷ es) page h =
    run_settings-all es (settings_step e page) (settings_step-IsInStep e page h)

-- Whatever is typed, pressed and answered on the settings page, in whatever order: each request that
-- was sent passes the checks of its form (a trimmed name that is not empty and an address; a current
-- password and a new one of at least 12 characters; four numbers in their ranges), and the notice of
-- each of the four mutations says that it is under way exactly while it is.
pub settings-IsInStep : (es : List SettingsEvent) → IsInStep (run_settings es first_settings)
settings-IsInStep es = run_settings-all es first_settings first_settings-IsInStep
