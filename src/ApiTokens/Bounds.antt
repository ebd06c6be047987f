-- ===== src/ApiTokens/Bounds.antt =====
-- What the page asks the service for.
use imagesilo.Common.{
  ◌≤◌, ◌≡◌, refl, ap, Bool, true, false, Option, none, some, List, [], ◌∷◌, length, All, ◌==◌,
  nat_eq, list_eq, is_some, arith,
}
use imagesilo.Common.Text.{Text, trim}
use imagesilo.Common.Collections.{add, IsDistinct, add-IsDistinct, delete-IsDistinct}
use imagesilo.Numbers.{Number}
use imagesilo.ApiTokens.{
  Scope, scope_eq, ApiToken, CreatedApiToken, TokenRequest, TokenPage, toggle_scope,
  submit_is_disabled, submit, answered, answer_creation, finish_creation, ask_revoke,
  dismiss_revoke, revoke_now, confirm_revoke, answer_revoke, is_requested, finish_revoke,
}
use imagesilo.ApiTokens.Steps.{TokenEvent, token_step, run_tokens, first_tokens}

-- A token is created with a name that is not blank and with at least one scope, none twice.
abbrev pub IsAllowed : TokenRequest → Type 0
IsAllowed (TokenRequest.create name scopes expires) =
    ((trim name == []) ≡ false) × (1 ≤ length scopes) × IsDistinct scopes
IsAllowed (TokenRequest.revoke id) = Unit

-- The token of the last revocation that the service was asked for.
abbrev last_revoked : List TokenRequest → Option Text
last_revoked [] = none
last_revoked (TokenRequest.create name scopes expires ∷ requests) = last_revoked requests
last_revoked (TokenRequest.revoke id ∷ requests) = some id

-- The token that the dialog names.
abbrev named_token : Option (Text × Text) → Option Text
named_token none = none
named_token (some (id, name)) = some id

pub record IsBounded (page : TokenPage) : Type 0 where
  pub distinct : IsDistinct page.scopes
  pub sent : All IsAllowed page.requests
  pub asked : is_requested page.revocation ≡ true → is_some page.revoke_target ≡ true
  pub same_token :
      is_requested page.revocation ≡ true
      → named_token page.revoke_target ≡ last_revoked page.requests

toggle_scope-IsBounded :
    (scope : Scope) (page : TokenPage) → IsBounded page → IsBounded (toggle_scope scope page)
toggle_scope-IsBounded scope page h = record {
  distinct =
      unfold toggle_scope add in
      ground (
        arith,
        h.distinct,
        add-IsDistinct scope page.scopes h.distinct,
        delete-IsDistinct scope page.scopes h.distinct,
      );
  sent = unfold toggle_scope in h.sent;
  asked = unfold toggle_scope in h.asked;
  same_token = unfold toggle_scope in h.same_token;
}

module _ (to_iso_string : List Number → Number → Number → Text) where
  submit-IsBounded : (page : TokenPage) → IsBounded page → IsBounded (submit to_iso_string page)
  unfolding submit submit_is_disabled
  submit-IsBounded page h = ground (arith, h.distinct, h.sent, h.asked, h.same_token)

answered-IsBounded :
    (answer : Option CreatedApiToken) (page : TokenPage)
    → IsBounded page
    → IsBounded (answered answer page)
answered-IsBounded none page h = record {
  distinct = h.distinct;
  sent = h.sent;
  asked = h.asked;
  same_token = h.same_token;
}
answered-IsBounded (some token) page h = record {
  distinct = tt;
  sent = h.sent;
  asked = h.asked;
  same_token = h.same_token;
}

answer_creation-IsBounded :
    (answer : Option CreatedApiToken) (page : TokenPage)
    → IsBounded page
    → IsBounded (answer_creation answer page)
unfolding answer_creation
answer_creation-IsBounded answer page h = ground (arith, h, answered-IsBounded answer page h)

finish_creation-IsBounded : (page : TokenPage) → IsBounded page → IsBounded (finish_creation page)
unfolding finish_creation
finish_creation-IsBounded page h = ground (arith, h.distinct, h.sent, h.asked, h.same_token)

ask_revoke-IsBounded :
    (token : ApiToken) (page : TokenPage) → IsBounded page → IsBounded (ask_revoke token page)
unfolding ask_revoke
ask_revoke-IsBounded token page h = ground (arith, h.distinct, h.sent, h.asked, h.same_token)

dismiss_revoke-IsBounded : (page : TokenPage) → IsBounded page → IsBounded (dismiss_revoke page)
unfolding dismiss_revoke
dismiss_revoke-IsBounded page h = ground (arith, h.distinct, h.sent, h.asked, h.same_token)

revoke_now-IsBounded :
    (target : Option (Text × Text)) (page : TokenPage)
    → page.revoke_target ≡ target
    → IsBounded page
    → IsBounded (revoke_now target page)
revoke_now-IsBounded none page e h = h
revoke_now-IsBounded (some (id, name)) page e h = record {
  distinct = h.distinct;
  sent = (tt, h.sent);
  asked = λ pending. ap is_some e;
  same_token = λ pending. ap named_token e;
}

confirm_revoke-IsBounded : (page : TokenPage) → IsBounded page → IsBounded (confirm_revoke page)
unfolding confirm_revoke
confirm_revoke-IsBounded page h =
    ground (arith, h, revoke_now-IsBounded page.revoke_target page refl h)

answer_revoke-IsBounded :
    (succeeded : Bool) (page : TokenPage)
    → IsBounded page
    → IsBounded (answer_revoke succeeded page)
unfolding answer_revoke
answer_revoke-IsBounded succeeded page h = ground (arith, h.distinct, h.sent, h.asked, h.same_token)

finish_revoke-IsBounded : (page : TokenPage) → IsBounded page → IsBounded (finish_revoke page)
unfolding finish_revoke
finish_revoke-IsBounded page h = ground (arith, h.distinct, h.sent, h.asked, h.same_token)

module _ (to_iso_string : List Number → Number → Number → Text) where
  token_step-IsBounded :
      (e : TokenEvent) (page : TokenPage)
      → IsBounded page
      → IsBounded (token_step to_iso_string e page)
  unfolding token_step
  token_step-IsBounded (TokenEvent.named name) page = λ h. record {
    distinct = h.distinct;
    sent = h.sent;
    asked = h.asked;
    same_token = h.same_token;
  }
  token_step-IsBounded (TokenEvent.scope_pressed scope) page = toggle_scope-IsBounded scope page
  token_step-IsBounded (TokenEvent.dated date) page = λ h. record {
    distinct = h.distinct;
    sent = h.sent;
    asked = h.asked;
    same_token = h.same_token;
  }
  token_step-IsBounded (TokenEvent.hour_chosen hour) page =
      λ h. ground (arith, h.distinct, h.sent, h.asked, h.same_token)
  token_step-IsBounded (TokenEvent.minute_chosen minute) page =
      λ h. ground (arith, h.distinct, h.sent, h.asked, h.same_token)
  token_step-IsBounded TokenEvent.submitted page = submit-IsBounded to_iso_string page
  token_step-IsBounded (TokenEvent.creation_answered answer) page =
      answer_creation-IsBounded answer page
  token_step-IsBounded TokenEvent.creation_finished page = finish_creation-IsBounded page
  token_step-IsBounded (TokenEvent.revoke_asked token) page = ask_revoke-IsBounded token page
  token_step-IsBounded TokenEvent.revoke_dismissed page = dismiss_revoke-IsBounded page
  token_step-IsBounded TokenEvent.revoke_confirmed page = confirm_revoke-IsBounded page
  token_step-IsBounded (TokenEvent.revoke_answered succeeded) page =
      answer_revoke-IsBounded succeeded page
  token_step-IsBounded TokenEvent.revoke_finished page = finish_revoke-IsBounded page

  run_tokens-all :
      (es : List TokenEvent) (page : TokenPage)
      → IsBounded page
      → IsBounded (run_tokens to_iso_string es page)
  unfolding run_tokens
  run_tokens-all [] page h = h
  run_tokens-all (e ∷ es) page h =
      run_tokens-all es (token_step to_iso_string e page) (token_step-IsBounded e page h)

  -- Whatever happens on the page, in whatever order: each token that the service was asked for has a
  -- name that is not blank and at least one scope, none of them twice, and until a revocation is
  -- answered the dialog still names a token, the one that the service was last asked to revoke.
  pub run_tokens-IsBounded :
      (es : List TokenEvent) → IsBounded (run_tokens to_iso_string es first_tokens)
  run_tokens-IsBounded es =
      run_tokens-all es first_tokens
        (record { distinct = tt; sent = tt; asked = λ e. cc; same_token = λ e. cc })
