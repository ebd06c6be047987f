-- ===== src/ApiTokens/Steps.antt =====
-- All that can happen on the page.
use imagesilo.Common.{Bool, Option, none, List, [], ◌∷◌, ◌==◌, nat_eq, list_eq, if◌then◌else◌}
use imagesilo.Common.Text.{Text, codes}
use imagesilo.Numbers.{Number}
use imagesilo.Toasts.{no_toasts}
use imagesilo.ApiTokens.{
  Scope, ApiToken, CreatedApiToken, Mutation, TokenPage, toggle_scope, submit, answer_creation,
  finish_creation, ask_revoke, dismiss_revoke, confirm_revoke, answer_revoke, finish_revoke,
}

pub data TokenEvent : Type 0 where
  named : Text → TokenEvent
  scope_pressed : Scope → TokenEvent
  -- The date picker, and the two selects, which are disabled while no date is chosen.
  dated hour_chosen minute_chosen : Text → TokenEvent
  submitted : TokenEvent
  creation_answered : Option CreatedApiToken → TokenEvent
  creation_finished : TokenEvent
  revoke_asked : ApiToken → TokenEvent
  revoke_dismissed revoke_confirmed : TokenEvent
  revoke_answered : Bool → TokenEvent
  revoke_finished : TokenEvent

module _ (to_iso_string : List Number → Number → Number → Text) where
  unfoldable pub token_step : TokenEvent → TokenPage → TokenPage
  token_step (named name) page = record page { name = name }
  token_step (scope_pressed scope) page = toggle_scope scope page
  token_step (dated date) page = record page { expires_date = date }
  token_step (hour_chosen hour) page =
      if page.expires_date == [] then page else record page { expires_hour = hour }
  token_step (minute_chosen minute) page =
      if page.expires_date == [] then page else record page { expires_minute = minute }
  token_step submitted page = submit to_iso_string page
  token_step (creation_answered answer) page = answer_creation answer page
  token_step creation_finished page = finish_creation page
  token_step (revoke_asked token) page = ask_revoke token page
  token_step revoke_dismissed page = dismiss_revoke page
  token_step revoke_confirmed page = confirm_revoke page
  token_step (revoke_answered succeeded) page = answer_revoke succeeded page
  token_step revoke_finished page = finish_revoke page

  unfoldable pub run_tokens : List TokenEvent → TokenPage → TokenPage
  run_tokens [] page = page
  run_tokens (e ∷ es) page = run_tokens es (token_step e page)

abbrev pub first_tokens : TokenPage
first_tokens = record {
  name = [];
  scopes = [];
  expires_date = [];
  expires_hour = codes "23";
  expires_minute = codes "59";
  created = none;
  revoke_target = none;
  creation = Mutation.idle;
  revocation = Mutation.idle;
  toasts = no_toasts;
  requests = [];
}
