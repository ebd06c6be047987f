-- ===== src/Auth/Redirects.antt =====
-- The way to the login page and back.
use imagesilo.Common.{
  ◌≡◌, ◌⊎◌, inl, inr, refl, true, false, not, ◌||◌, Option, none, some, [], ◌∷◌, ◌++◌, ◌==◌, nat_eq,
  list_eq, eq_iff, eq_refl, arith, Bool-cases,
}
use imagesilo.Common.Text.{Text, codes, starts_with}
use imagesilo.Common.Collections.{has}
use imagesilo.Auth.{
  AuthState, AdminSession, Location, print_location, content, redirect, auth_guard, Url,
  login_destination, login_page,
}

starts_with-append : (s t p : Text) → starts_with s p ≡ true → starts_with (s ++ t) p ≡ true
unfolding starts_with
starts_with-append s t [] h = refl
starts_with-append [] t (p ∷ ps) h = cc
starts_with-append (c ∷ s) t (p ∷ ps) h = ground (arith, h, starts_with-append s t ps)

module _ (parse_url : Text → Url) (own_origin : Text) where
  -- The destination after a login is the upload page, or the place that the URL parser reads from the
  -- text the login page was given; then the parser finds the own origin in that text, and the place is
  -- below /admin/ and neither the login nor the setup.
  pub login_destination_lem :
      (from : Option Text)
      → (login_destination parse_url own_origin from ≡ codes "/admin/upload")
        ⊎ ((text : Text) × (from ≡ some text)
            × (login_destination parse_url own_origin from
                ≡ print_location (parse_url text).location)
            × ((parse_url text).origin ≡ own_origin)
            × (starts_with (parse_url text).location.pathname (codes "/admin/") ≡ true)
            × (has
                  (parse_url text).location.pathname
                  (codes "/admin/login" ∷ codes "/admin/setup" ∷ [])
                ≡ false))
  unfolding login_destination
  login_destination_lem none = inl refl
  login_destination_lem (some from) = elim (Bool-cases (starts_with from (codes "/admin/"))) [
    | inr outside ↦ inl (rw outside refl)
    | inl below ↦
        elim (Bool-cases (
          not ((parse_url from).origin == own_origin)
          || not (starts_with (parse_url from).location.pathname (codes "/admin/"))
          || has (parse_url from).location.pathname
              (codes "/admin/login" ∷ codes "/admin/setup" ∷ []))) [
                | inl unsafe ↦ inl (rw (below, unsafe) refl)
                | inr safe ↦ inr (
                  from,
                  refl,
                  rw (below, safe) refl,
                  ground (arith, safe, eq_iff (parse_url from).origin own_origin),
                  ground (arith, safe),
                  ground (arith, safe),
                )
              ]
  ]

  -- Once the setup is done and the session is known to be none, who opens a place below /admin/ other
  -- than the login and the setup is sent to the login, and after signing in is sent back to the very
  -- place, which is then shown. (The URL parser reads the place as itself.)
  pub login_returns :
      (auth : AuthState) (session : AdminSession) (location : Location)
      → auth.is_loading ≡ false
      → auth.session ≡ none
      → auth.setup_status ≡ some true
      → starts_with location.pathname (codes "/admin/") ≡ true
      → has location.pathname (codes "/admin/login" ∷ codes "/admin/setup" ∷ []) ≡ false
      → parse_url (print_location location) ≡ record { origin = own_origin; location = location }
      → (from : Option Text) × (auth_guard auth location ≡ redirect (codes "/admin/login") from)
        × (login_page parse_url own_origin (record auth { session = some session }) from
            ≡ redirect (print_location location) none)
        × (auth_guard (record auth { session = some session }) location ≡ content)
  unfolding auth_guard login_page
  login_returns auth session location loaded nobody initialized below inside parsed = (
    some (print_location location),
    rw (loaded, nobody, initialized) refl,
    unfold login_destination in
        rw
          (
            starts_with-append location.pathname (location.search ++ location.hash)
                (codes "/admin/") below,
            parsed,
            below,
            inside,
            eq_refl own_origin,
          )
          refl,
    rw loaded refl,
  )
