-- ===== src/Auth.antt =====
-- Who is signed in, and where the browser is sent: web/src/features/auth/auth-provider.tsx,
-- auth-guard.tsx and login-page.tsx. The cached queries are a list of the first parts of their keys
-- with their data; the session and the setup status stand beside it.
pub mod Redirects
pub mod Setup
pub mod Routes
pub mod Logout
mod Examples
use imagesilo.Common.{
  ℕ, Bool, true, false, not, ◌&&◌, ◌||◌, Option, none, some, List, [], ◌∷◌, ◌++◌, filter, ◌==◌,
  nat_eq, list_eq, if◌then◌else◌, is_some,
}
use imagesilo.Common.Text.{Text, codes, starts_with}
use imagesilo.Common.Collections.{has}
use imagesilo.ApiClient.{ApiError}

pub record AdminSession : Type 0 where
  pub admin_id : Text
  pub email : Text

-- How a request ends: with a value, with an `ApiError`, or with another error.
pub data Reply {ℓ} (A : Type ℓ) : Type ℓ where
  ok : A → Reply A
  refused : ApiError → Reply A
  broken : Reply A

abbrev pub is_unauthorized {ℓ} : {A : Type ℓ} → Reply A → Bool
is_unauthorized (refused error) = error.status == 401
is_unauthorized _ = false

-- `loadSession`: 401 means that nobody is signed in.
unfoldable pub load_session : Reply AdminSession → Reply (Option AdminSession)
load_session (ok session) = ok (some session)
load_session (refused error) = if error.status == 401 then ok none else refused error
load_session broken = broken

pub record AuthState : Type 0 where
  pub session : Option AdminSession
  -- `setupStatus.initialized`, once it is known.
  pub setup_status : Option Bool
  pub is_loading : Bool
  pub cache : List (Text × ℕ)

abbrev pub is_kept : Text × ℕ → Bool
is_kept entry = has entry.0 (codes "auth" ∷ codes "setup" ∷ [])

-- `clearAuthenticatedCache`
unfoldable pub clear_authenticated_cache : AuthState → AuthState
unfolding has
clear_authenticated_cache auth = record auth { cache = filter is_kept auth.cache; session = none }

-- `logout`: the flag says whether its promise is fulfilled.
unfoldable pub logout : Reply {0} Unit → AuthState → AuthState × Bool
unfolding clear_authenticated_cache
logout (ok _) auth = (clear_authenticated_cache auth, true)
logout (refused error) auth = (clear_authenticated_cache auth, error.status == 401)
logout broken auth = (clear_authenticated_cache auth, false)

pub record Location : Type 0 where
  pub pathname : Text
  pub search : Text
  pub hash : Text

abbrev pub print_location : Location → Text
print_location location = location.pathname ++ (location.search ++ location.hash)

-- What a page of the router shows; a redirect has its state `from`.
pub data Shown : Type 0 where
  loading : Shown
  content : Shown
  redirect : Text → Option Text → Shown

-- `AuthGuard`
unfoldable pub auth_guard : AuthState → Location → Shown
auth_guard auth location = if auth.is_loading then loading else elim auth.session [
  | some session ↦ content
  | none ↦ elim auth.setup_status [
    | some initialized ↦
        if initialized
        then redirect (codes "/admin/login") (some (print_location location))
        else redirect (codes "/admin/setup") none
    | none ↦ redirect (codes "/admin/login") (some (print_location location))
  ]
]

-- A URL, as `new URL` reads a text relative to the origin of the page.
pub record Url : Type 0 where
  pub origin : Text
  pub location : Location

module _ (parse_url : Text → Url) (own_origin : Text) where
  -- `loginDestination`; `none` stands for a value that is not a string.
  unfoldable pub login_destination : Option Text → Text
  unfolding starts_with has
  login_destination none = codes "/admin/upload"
  login_destination (some from) =
      let candidate = parse_url from in
      if not (starts_with from (codes "/admin/"))
      then codes "/admin/upload"
      else if not (candidate.origin == own_origin)
          || not (starts_with candidate.location.pathname (codes "/admin/"))
          || has candidate.location.pathname (codes "/admin/login" ∷ codes "/admin/setup" ∷ [])
      then codes "/admin/upload"
      else print_location candidate.location

  -- `LoginPage`, up to its form.
  unfoldable pub login_page : AuthState → Option Text → Shown
  unfolding login_destination
  login_page auth from =
      if is_some auth.session
      then redirect (login_destination from) none
      else elim auth.setup_status [
        | some initialized ↦ if initialized then content else redirect (codes "/admin/setup") none
        | none ↦ content
      ]
