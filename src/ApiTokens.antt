-- ===== src/ApiTokens.antt =====
-- The page of API tokens, web/src/features/api-tokens/api-token-page.tsx: the form for a new token,
-- and revoking one.
pub mod Steps
pub mod Bounds
mod Examples
use imagesilo.Common.{
  ℕ, zero, suc, ◌≡◌, ◌↔◌, refl, sym, ap, ◌∙◌, Bool, true, false, not, ◌&&◌, ◌||◌, Option, none,
  some, List, [], ◌∷◌, ◌++◌, length, map, Eq, ◌==◌, nat_eq, eq_iff, list_eq, if◌then◌else◌, is_some,
  or_else,
}
use imagesilo.Common.Text.{Text, codes, trim}
use imagesilo.Common.Collections.{has, delete}
use imagesilo.Numbers.{Number, number}
use imagesilo.Toasts.{Toasts, no_toasts, notify, success, failure}

pub data Scope : Type 0 where
  images_upload images_read_private images_delete aliases_write : Scope

abbrev pub scope_index : Scope → ℕ
scope_index images_upload = 0
scope_index images_read_private = 1
scope_index images_delete = 2
scope_index aliases_write = 3

abbrev scope_at : ℕ → Scope
scope_at zero = images_upload
scope_at (suc zero) = images_read_private
scope_at (suc (suc zero)) = images_delete
scope_at _ = aliases_write

scope_at_index : (scope : Scope) → scope_at (scope_index scope) ≡ scope
scope_at_index images_upload = refl
scope_at_index images_read_private = refl
scope_at_index images_delete = refl
scope_at_index aliases_write = refl

pub same_scope : (a b : Scope) → ((scope_index a == scope_index b) ≡ true) ↔ (a ≡ b)
same_scope a b =
    let same = eq_iff (scope_index a) (scope_index b) in
    (
      λ e. sym (scope_at_index a) ∙ ap scope_at (same.0 e) ∙ scope_at_index b,
      λ e. same.1 (ap scope_index e),
    )

instance abbrev pub scope_eq : Eq Scope
scope_eq = record { same = λ a b. scope_index a == scope_index b; same_iff = same_scope }

abbrev pub available_scopes : List Scope
available_scopes = images_upload ∷ images_read_private ∷ images_delete ∷ aliases_write ∷ []

pub record ApiToken : Type 0 where
  pub id : Text
  pub name : Text
  pub is_active : Bool

pub record CreatedApiToken : Type 0 where
  pub token : Text

pub data TokenRequest : Type 0 where
  create : Text → List Scope → Option Text → TokenRequest
  revoke : Text → TokenRequest

-- A mutation waits for its answer, then for the list to be loaded again.
pub data Mutation : Type 0 where
  idle requested reloading : Mutation

pub record TokenPage : Type 0 where
  pub name : Text
  pub scopes : List Scope
  pub expires_date : Text
  pub expires_hour : Text
  pub expires_minute : Text
  pub created : Option CreatedApiToken
  -- The identifier and the name of the token that the dialog asks about.
  pub revoke_target : Option (Text × Text)
  pub creation : Mutation
  pub revocation : Mutation
  pub toasts : Toasts
  pub requests : List TokenRequest

-- `text.split(separator)`, for a separator of one character.
unfoldable pub split : ℕ → Text → List Text
split separator [] = [] ∷ []
split separator (c ∷ s) =
    let rest = split separator s in if c == separator then [] ∷ rest else prepend c rest
  where
    prepend : ℕ → List Text → List Text
    prepend c [] = (c ∷ []) ∷ []
    prepend c (word ∷ words) = (c ∷ word) ∷ words

-- `toggleScope`
unfoldable pub toggle_scope : Scope → TokenPage → TokenPage
unfolding has delete
toggle_scope scope page = record page {
  scopes = if has scope page.scopes then delete scope page.scopes else page.scopes ++ scope ∷ [];
}

abbrev pub is_requested : Mutation → Bool
is_requested requested = true
is_requested _ = false

abbrev pub is_idle : Mutation → Bool
is_idle idle = true
is_idle _ = false

unfoldable pub submit_is_disabled : TokenPage → Bool
unfolding trim
submit_is_disabled page =
    trim page.name == [] || length page.scopes == 0 || not (is_idle page.creation)

-- `new Date(year, month - 1, day, hour, minute, 0, 0).toISOString()` depends on the time zone: it is a
-- parameter.
module _ (to_iso_string : List Number → Number → Number → Text) where
  abbrev pub expiration_iso : Text → Text → Text → Text
  expiration_iso date hour minute =
      to_iso_string (map number (split 45 date)) (number hour) (number minute)

  abbrev pub expires_at : TokenPage → Option Text
  expires_at page =
      if page.expires_date == []
      then none
      else some (expiration_iso page.expires_date page.expires_hour page.expires_minute)

  -- The form cannot be submitted while its button is disabled.
  unfoldable pub submit : TokenPage → TokenPage
  unfolding split number submit_is_disabled
  submit page = if submit_is_disabled page then page else record page {
    created = none;
    creation = requested;
    requests = create page.name page.scopes (expires_at page) ∷ page.requests;
  }

abbrev pub answered : Option CreatedApiToken → TokenPage → TokenPage
answered (some token) page = record page {
  created = some token;
  name = [];
  scopes = [];
  expires_date = [];
  expires_hour = codes "23";
  expires_minute = codes "59";
  creation = reloading;
}
answered none page = record page {
  creation = idle;
  toasts = notify failure (codes "apiTokens.createFailed") page.toasts;
}

unfoldable pub answer_creation : Option CreatedApiToken → TokenPage → TokenPage
answer_creation answer page = elim page.creation [ requested ↦ answered answer page | _ ↦ page ]

unfoldable pub finish_creation : TokenPage → TokenPage
finish_creation page = elim page.creation [
  | reloading ↦ record page {
    creation = idle;
    toasts = notify success (codes "toast.tokenCreated") page.toasts;
  }
  | _ ↦ page
]

-- The button of an active token.
unfoldable pub ask_revoke : ApiToken → TokenPage → TokenPage
ask_revoke token page =
    if token.is_active && is_idle page.revocation
    then record page { revoke_target = some (token.id, token.name) }
    else page

unfoldable pub dismiss_revoke : TokenPage → TokenPage
dismiss_revoke page = if is_idle page.revocation then record page { revoke_target = none } else page

abbrev pub revoke_now : Option (Text × Text) → TokenPage → TokenPage
revoke_now none page = page
revoke_now (some (id, name)) page = record page {
  revocation = requested;
  requests = revoke id ∷ page.requests;
}

-- The button of the dialog.
unfoldable pub confirm_revoke : TokenPage → TokenPage
confirm_revoke page = if is_idle page.revocation then revoke_now page.revoke_target page else page

unfoldable pub answer_revoke : Bool → TokenPage → TokenPage
answer_revoke succeeded page = elim page.revocation [
  | requested ↦
      if succeeded
      then record page {
        revocation = reloading;
        revoke_target = none;
        toasts = notify success (codes "toast.tokenRevoked") page.toasts;
      }
      else record page {
        revocation = idle;
        toasts = notify failure (codes "toast.operationFailed") page.toasts;
      }
  | _ ↦ page
]

unfoldable pub finish_revoke : TokenPage → TokenPage
finish_revoke page = elim page.revocation [
  | reloading ↦ record page { revocation = idle }
  | _ ↦ page
]
