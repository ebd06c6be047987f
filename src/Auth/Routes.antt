-- ===== src/Auth/Routes.antt =====
-- What the router, web/src/app/router.tsx, shows at a path below /admin, and following its redirects.
pub mod Ends
use imagesilo.Common.{
  ℕ, zero, suc, ◌≡◌, ◌⊎◌, refl, ap, ◌∙◌, Bool, true, false, not, ◌&&◌, ◌||◌, Option, none, some,
  List, [], ◌∷◌, ◌==◌, nat_eq, list_eq, eq_iff, if◌then◌else◌, is_some, arith, Bool-cases,
  Option-cases, inl, inr,
}
use imagesilo.Common.Text.{Text, codes, starts_with}
use imagesilo.Common.Collections.{has}
use imagesilo.Auth.{
  AuthState, AdminSession, Location, print_location, Shown, loading, content, redirect, auth_guard,
  Url, login_destination, login_page,
}
use imagesilo.Auth.Setup.{setup_page}

abbrev pub path_of_setup : Text
path_of_setup = codes "/admin/setup"

abbrev pub path_of_login : Text
path_of_login = codes "/admin/login"

abbrev pub path_of_upload : Text
path_of_upload = codes "/admin/upload"

-- The route `/admin` itself.
abbrev pub path_of_index : Text
path_of_index = codes "/admin"

abbrev pub guarded : Bool → Shown → Shown
guarded true content = redirect path_of_upload none
guarded _ shown = shown

-- `matches route pathname` says whether the router takes the pathname for the route.
module _ (parse_url : Text → Url) (own_origin : Text) (matches : Text → Text → Bool) where
  abbrev pub pathname_of : Text → Text
  pathname_of path = (parse_url path).location.pathname

  -- What is shown at a path below /admin, whose state has `from`.
  unfoldable pub shown_at : AuthState → Text → Option Text → Shown
  unfolding setup_page login_page auth_guard
  shown_at auth path from =
      if matches path_of_setup (pathname_of path)
      then setup_page auth
      else if matches path_of_login (pathname_of path)
      then login_page parse_url own_origin auth from
      else guarded (matches path_of_index (pathname_of path))
          (auth_guard auth (parse_url path).location)

  -- What is shown after at most so many pages, without their redirects.
  unfoldable pub follow : ℕ → AuthState → Text → Option Text → Option Shown
  follow zero auth path from = none
  follow (suc n) auth path from = elim (shown_at auth path from) [
    | loading ↦ some loading
    | content ↦ some content
    | redirect to next ↦ follow n auth to next
  ]

  pub follow_content :
      (n : ℕ) (auth : AuthState) (path : Text) (from : Option Text)
      → shown_at auth path from ≡ content
      → is_some (follow (suc n) auth path from) ≡ true
  unfolding follow
  follow_content n auth path from e = rw (follow, e) refl

  pub follow_loading :
      (n : ℕ) (auth : AuthState) (path : Text) (from : Option Text)
      → shown_at auth path from ≡ loading
      → is_some (follow (suc n) auth path from) ≡ true
  unfolding follow
  follow_loading n auth path from e = rw (follow, e) refl

  pub follow_redirect :
      (n : ℕ) (auth : AuthState) (path to : Text) (from next : Option Text)
      → shown_at auth path from ≡ redirect to next
      → is_some (follow n auth to next) ≡ true
      → is_some (follow (suc n) auth path from) ≡ true
  unfolding follow
  follow_redirect n auth path to from next e h = rw (follow, e) h
