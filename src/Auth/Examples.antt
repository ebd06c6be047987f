-- ===== src/Auth/Examples.antt =====
-- The redirects and the logout at concrete values. URLs are read by a parser for one place.
use imagesilo.Common.{
  map, Bool, sym, arith, eq_iff, inl, inr, ◌≡◌, ◌↔◌, ◌⊎◌, refl, true, false, Option, none, some, [],
  ◌∷◌, All, ◌==◌, nat_eq, list_eq, is_some, if◌then◌else◌,
}
use imagesilo.Common.Text.{Text, codes, lower, starts_with}
use imagesilo.Common.Collections.{has}
use imagesilo.Auth.{
  Reply, ok, is_unauthorized, AuthState, AdminSession, Location, print_location, content, redirect,
  auth_guard, Url, login_destination, login_page, logout,
}
use imagesilo.Auth.Redirects.{login_destination_lem, login_returns}
use imagesilo.Auth.Routes.{path_of_index, path_of_setup, path_of_login, path_of_upload, follow}
use imagesilo.Auth.Routes.Ends.{known_paths, follow-ends}
use imagesilo.Auth.Logout.{IsKept, logout_lem}

abbrev images : Location
images = record { pathname = codes "/admin/images"; search = codes "?q=a"; hash = [] }

abbrev origin : Text
origin = codes "https://silo"

abbrev parse : Text → Url
parse from =
    if from == print_location images
    then record { origin = origin; location = images }
    else record { origin = []; location = record { pathname = []; search = []; hash = [] } }

abbrev nobody : AuthState
nobody = record {
  session = none;
  setup_status = some true;
  is_loading = false;
  cache = (codes "auth", 1) ∷ (codes "images", 2) ∷ [];
}

abbrev admin : AdminSession
admin = record { admin_id = codes "1"; email = codes "a@b" }

login_destination_lem_example :
    (login_destination parse origin (some (print_location images)) ≡ codes "/admin/upload")
    ⊎ ((text : Text) × (some (print_location images) ≡ some text)
        × (login_destination parse origin (some (print_location images))
            ≡ print_location (parse text).location)
        × ((parse text).origin ≡ origin)
        × (starts_with (parse text).location.pathname (codes "/admin/") ≡ true)
        × (has (parse text).location.pathname (codes "/admin/login" ∷ codes "/admin/setup" ∷ [])
            ≡ false))
login_destination_lem_example = login_destination_lem parse origin (some (print_location images))

login_returns_example :
    (from : Option Text) × (auth_guard nobody images ≡ redirect (codes "/admin/login") from)
    × (login_page parse origin (record nobody { session = some admin }) from
        ≡ redirect (codes "/admin/images?q=a") none)
    × (auth_guard (record nobody { session = some admin }) images ≡ content)
unfolding has starts_with
login_returns_example = login_returns parse origin nobody admin images refl refl refl refl refl refl

logout_lem_example :
    ((logout (ok tt) nobody).0.session ≡ none)
    × All IsKept (logout (ok tt) nobody).0.cache
    × (((logout (ok tt) nobody).1 ≡ true) ↔ (
        (Path (Reply {0} Unit) (ok tt) (ok tt)) ⊎ (is_unauthorized {A = Unit {0}} (ok tt) ≡ true)))
logout_lem_example = logout_lem (ok tt) nobody

logout_run : (logout (ok tt) nobody).0.cache ≡ (codes "auth", 1) ∷ []
unfolding logout has
logout_run = refl

-- A parser that takes the whole text for a path.
abbrev parse_path : Text → Url
parse_path path = record {
  origin = origin;
  location = record { pathname = path; search = []; hash = [] };
}

-- A router that compares paths without regard to case and to slashes at the end.
abbrev without_slashes : Text → Text
without_slashes [] = []
without_slashes (c ∷ s) =
    let rest = without_slashes s in
    elim rest [ [] ↦ if c == 47 then [] else c ∷ [] | d ∷ kept ↦ c ∷ d ∷ kept ]

abbrev matches : Text → Text → Bool
matches route pathname = route == without_slashes (map lower pathname)

known_cases :
    (path : Text)
    → has path known_paths ≡ true
    → (path_of_index ≡ path)
      ⊎ ((path_of_setup ≡ path) ⊎ ((path_of_login ≡ path) ⊎ (path_of_upload ≡ path)))
unfolding has
known_cases path h = ground (
  arith,
  h,
  eq_iff path_of_index path,
  eq_iff path_of_setup path,
  eq_iff path_of_login path,
  eq_iff path_of_upload path,
)

tells_apart :
    (route path : Text)
    → has route known_paths ≡ true
    → has path known_paths ≡ true
    → matches route path ≡ (route == path)
unfolding lower
tells_apart route path h k = elim (known_cases path k) [
  | inl e ↦ rw (sym e) refl
  | inr (inl e) ↦ rw (sym e) refl
  | inr (inr (inl e)) ↦ rw (sym e) refl
  | inr (inr (inr e)) ↦ rw (sym e) refl
]

follow-ends_example :
    is_some (follow parse_path origin matches 3 nobody (codes "/Admin/images/") none) ≡ true
follow-ends_example =
    follow-ends parse_path origin matches tells_apart (λ path known. refl) nobody
      (codes "/Admin/images/") none
