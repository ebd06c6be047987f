-- ===== src/Auth/Setup.antt =====
-- The page that sets the store up, web/src/features/auth/setup-page.tsx: where it sends the browser, and
-- its form.
use imagesilo.Common.{
  ℕ, ◌≡◌, Bool, true, false, not, Option, none, some, List, [], ◌∷◌, ◌==◌, nat_eq, list_eq,
  if◌then◌else◌, is_some, arith,
}
use imagesilo.Common.Text.{Text, codes}
use imagesilo.Common.Collections.{lookup}
use imagesilo.FilterForm.{Parameters, field}
use imagesilo.Api.{Visibility}
use imagesilo.Auth.{AuthState, Shown, content, redirect}

-- `SetupPage`, up to its form.
unfoldable pub setup_page : AuthState → Shown
setup_page auth =
    if is_some auth.session then redirect (codes "/admin/upload") none else elim auth.setup_status [
      | none ↦ content
      | some initialized ↦ if initialized then redirect (codes "/admin/login") none else content
    ]

pub record SetupRequest : Type 0 where
  pub bootstrap_token : Text
  pub display_name : Text
  pub email : Text
  pub password : Text
  pub default_visibility : Visibility
  pub compression_enabled : Bool
  pub jpeg_quality : ℕ
  pub webp_quality : ℕ
  pub png_compression_level : ℕ
  pub conversion_enabled : Bool
  pub conversion_webp_quality : ℕ
  pub conversion_webp_lossless : Bool

pub record SetupState : Type 0 where
  pub pending : Bool
  pub error : Text
  pub visibility : Visibility
  pub compression_enabled : Bool
  pub conversion_enabled : Bool
  pub requests : List SetupRequest
  pub navigations : List Text

-- `form.get(a) === form.get(b)`
abbrev pub same_field : Option Text → Option Text → Bool
same_field none none = true
same_field (some a) (some b) = a == b
same_field _ _ = false

abbrev pub setup_request : Parameters → SetupState → SetupRequest
setup_request form state = record {
  bootstrap_token = field (codes "bootstrapToken") form;
  display_name = field (codes "displayName") form;
  email = field (codes "email") form;
  password = field (codes "password") form;
  default_visibility = state.visibility;
  compression_enabled = state.compression_enabled;
  jpeg_quality = 85;
  webp_quality = 82;
  png_compression_level = 6;
  conversion_enabled = state.conversion_enabled;
  conversion_webp_quality = 82;
  conversion_webp_lossless = false;
}

-- `submit`, up to its request; the button is disabled while one is under way.
unfoldable pub submit_setup : Parameters → SetupState → SetupState
unfolding lookup
submit_setup form state =
    if state.pending
    then state
    else if not
        (same_field (lookup (codes "password") form) (lookup (codes "confirmPassword") form))
    then record state { error = codes "setup.passwordMismatch" }
    else record state {
      pending = true;
      error = [];
      requests = setup_request form state ∷ state.requests;
    }

-- The request and the reload of the session have ended.
unfoldable pub settle_setup : Bool → SetupState → SetupState
settle_setup succeeded state =
    if not state.pending
    then state
    else if succeeded
    then record state { pending = false; navigations = codes "/admin/upload" ∷ state.navigations }
    else record state { pending = false; error = codes "setup.failed" }

-- A request is sent only where the two passwords are the same and none is under way; where they differ,
-- the state keeps its requests and says so.
submit_setup_lem :
    (form : Parameters) (state : SetupState)
    → state.pending ≡ false
    → ((submit_setup form state).requests ≡ (
        if same_field (lookup (codes "password") form) (lookup (codes "confirmPassword") form)
        then setup_request form state ∷ state.requests
        else state.requests))
      × ((submit_setup form state).pending
          ≡ same_field (lookup (codes "password") form) (lookup (codes "confirmPassword") form))
unfolding submit_setup
submit_setup_lem form state free = ground (arith, free)
