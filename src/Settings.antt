-- ===== src/Settings.antt =====
-- The settings page, web/src/features/settings/settings-page.tsx: its three forms, what they check
-- before they send, and the mutations behind them.
pub mod Forms
pub mod Values
pub mod Roundtrip
pub mod Kept
pub mod Sent
mod Examples
use imagesilo.Common.{
  ℕ, zero, suc, ◌+◌, Bool, true, false, not, ◌&&◌, ◌||◌, Option, none, some, List, [], ◌∷◌, ◌++◌,
  length, all, filter, map, leb, ltb, ◌==◌, nat_eq, list_eq, if◌then◌else◌, is_some,
}
use imagesilo.Common.Text.{Text, codes, trim, decimal, is_space}
use imagesilo.Numbers.{number, natural}
use imagesilo.Api.{Visibility}
use imagesilo.Toasts.{Toasts, no_toasts, show, loading, success, failure}

pub record Processing : Type 0 where
  pub compression_enabled : Bool
  pub jpeg_quality : ℕ
  pub webp_quality : ℕ
  pub png_compression_level : ℕ
  pub conversion_enabled : Bool
  pub conversion_webp_quality : ℕ
  pub conversion_webp_lossless : Bool

pub record AppSettings : Type 0 where
  pub default_visibility : Visibility
  pub processing : Processing

pub record ProcessingDraft : Type 0 where
  pub compression_enabled : Bool
  pub jpeg_quality : Text
  pub webp_quality : Text
  pub png_compression_level : Text
  pub conversion_enabled : Bool
  pub conversion_webp_quality : Text
  pub conversion_webp_lossless : Bool

-- A form's errors: the names of its fields, with the key of a translated text.
abbrev pub FormErrors : Type 0
FormErrors = List (Text × Text)

pub data Request : Type 0 where
  profile : Text → Text → Request
  visibility : Visibility → Request
  password : Text → Text → Request
  processing : Processing → Request

pub record SettingsPage : Type 0 where
  pub current_password : Text
  pub new_password : Text
  pub profile_errors : FormErrors
  pub password_errors : FormErrors
  pub processing_errors : FormErrors
  pub processing_draft : Option ProcessingDraft
  -- `settingsQuery.data`
  pub settings : Option AppSettings
  pub profile_pending : Bool
  pub visibility_pending : Bool
  pub password_pending : Bool
  pub processing_pending : Bool
  pub toasts : Toasts
  -- What was sent, the latest request first.
  pub requests : List Request

abbrev pub in_range : ℕ → ℕ → Option ℕ → Option ℕ
in_range least most none = none
in_range least most (some value) = if leb least value && leb value most then some value else none

-- `numberValue`
unfoldable pub number_value : Text → ℕ → ℕ → Option ℕ
number_value raw least most =
    if trim raw == [] then none else in_range least most (natural (number raw))

unfoldable pub to_processing_draft : Processing → ProcessingDraft
unfolding decimal
to_processing_draft settings = record {
  compression_enabled = settings.compression_enabled;
  jpeg_quality = decimal settings.jpeg_quality;
  webp_quality = decimal settings.webp_quality;
  png_compression_level = decimal settings.png_compression_level;
  conversion_enabled = settings.conversion_enabled;
  conversion_webp_quality = decimal settings.conversion_webp_quality;
  conversion_webp_lossless = settings.conversion_webp_lossless;
}

-- The pattern of an address: one `@` with text before it, and a point with text on both sides after.
abbrev pub is_plain : ℕ → Bool
is_plain c = not (is_space c) && not (c == 64)

unfoldable pub has_inner_dot : Text → Bool
has_inner_dot [] = false
has_inner_dot (c ∷ s) = (c == 46 && not (s == [])) || has_inner_dot s

abbrev pub is_domain : Text → Bool
is_domain [] = false
is_domain (c ∷ s) = all is_plain (c ∷ s) && has_inner_dot s

unfoldable pub after_local : Text → Bool
unfolding has_inner_dot
after_local [] = false
after_local (c ∷ s) =
    let rest = after_local s in if c == 64 then is_domain s else is_plain c && rest

unfoldable pub is_email : Text → Bool
unfolding after_local
is_email [] = false
is_email (c ∷ s) = is_plain c && after_local s

-- `updateProfile`, up to the mutation
unfoldable pub profile_form_errors : Text → Text → FormErrors
unfolding is_email
profile_form_errors name email =
    (if name == [] then (codes "displayName", codes "validation.required") ∷ [] else [])
    ++ (if email == []
        then (codes "email", codes "validation.required") ∷ []
        else if is_email email
        then []
        else (codes "email", codes "validation.email") ∷ [])

unfoldable pub update_profile : Text → Text → SettingsPage → SettingsPage
update_profile raw_name raw_email page =
    let name = trim raw_name in
    let email = trim raw_email in
    let errors = profile_form_errors name email in
    if page.profile_pending
    then page
    else if ltb 0 (length errors)
    then record page { profile_errors = errors }
    else record page {
      profile_errors = [];
      profile_pending = true;
      toasts = show (codes "settings-profile") loading (codes "toast.profileSaving") page.toasts;
      requests = Request.profile name email ∷ page.requests;
    }
