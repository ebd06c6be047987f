-- ===== src/Settings/Examples.antt =====
-- The settings page's theorems at concrete values.
use imagesilo.Common.{◌≡◌, refl, true, false, some, List, [], ◌∷◌, nat_eq, list_eq, arith}
use imagesilo.Common.Text.{codes, trim}
use imagesilo.Numbers.{number, natural}
use imagesilo.Api.{Visibility}
use imagesilo.Settings.{Processing, AppSettings, Request, number_value, is_email}
use imagesilo.Settings.Forms.{
  SettingsEvent, Edit, run_settings, first_settings, update_processing, settings_loaded,
}
use imagesilo.Settings.Roundtrip.{IsProcessing, processing_roundtrip}
use imagesilo.Settings.Kept.{IsInStep}
use imagesilo.Settings.Sent.{settings-IsInStep}

accepted : is_email (codes "me@example.org") ≡ true
unfolding is_email
accepted = refl

refused : is_email (codes "me@example") ≡ false
unfolding is_email
refused = refl

quality : number_value (codes " 8.5e1 ") 1 100 ≡ some 85
unfolding number_value trim natural number
quality = refl

abbrev processing : Processing
processing = record {
  compression_enabled = true;
  jpeg_quality = 85;
  webp_quality = 80;
  png_compression_level = 9;
  conversion_enabled = false;
  conversion_webp_quality = 100;
  conversion_webp_lossless = true;
}

abbrev settings : AppSettings
settings = record { default_visibility = Visibility.private; processing = processing }

processing-IsProcessing : IsProcessing processing
processing-IsProcessing = record {
  jpeg = (omega arith, omega arith);
  webp = (omega arith, omega arith);
  png = omega arith;
  conversion = (omega arith, omega arith);
}

processing_roundtrip_example :
    ((update_processing (settings_loaded settings first_settings)).requests
      ≡ Request.processing processing ∷ [])
    × ((update_processing (settings_loaded settings first_settings)).processing_errors ≡ [])
processing_roundtrip_example =
    processing_roundtrip settings first_settings processing-IsProcessing refl refl

abbrev events : List SettingsEvent
events =
    SettingsEvent.loaded settings
    ∷ SettingsEvent.edited (Edit.current_password (codes "secret"))
    ∷ SettingsEvent.edited (Edit.new_password (codes "a longer secret"))
    ∷ SettingsEvent.submit_password
    ∷ SettingsEvent.submit_profile (codes " Me ") (codes "me@example.org")
    ∷ SettingsEvent.password_settled false
    ∷ []

settings-IsInStep_example : IsInStep (run_settings events first_settings)
settings-IsInStep_example = settings-IsInStep events
