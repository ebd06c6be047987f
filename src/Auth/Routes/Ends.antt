-- ===== src/Auth/Routes/Ends.antt =====
-- The redirects of the router come to an end.
use imagesilo.Common.{
  List, ℕ, suc, ◌≡◌, ◌⊎◌, refl, ap, ◌∙◌, Bool, true, false, Option, none, some, [], ◌∷◌, ◌==◌,
  nat_eq, list_eq, is_some, arith, Bool-cases, Option-cases, inl, inr,
}
use imagesilo.Common.Text.{Text}
use imagesilo.Common.Collections.{has}
use imagesilo.Auth.{
  AuthState, AdminSession, print_location, loading, content, redirect, auth_guard, Url,
  login_destination, login_page,
}
use imagesilo.Auth.Setup.{setup_page}
use imagesilo.Auth.Routes.{
  path_of_setup, path_of_login, path_of_upload, path_of_index, pathname_of, shown_at, follow,
  follow_content, follow_loading, follow_redirect,
}

abbrev pub known_paths : List Text
known_paths = path_of_index ∷ path_of_setup ∷ path_of_login ∷ path_of_upload ∷ []

-- The URL parser reads the paths of the pages as they are, and the router tells them apart.
module _ (parse_url : Text → Url) (own_origin : Text) (matches : Text → Text → Bool)
    (own_matches : (route path : Text)
      → has route known_paths ≡ true
      → has path known_paths ≡ true
      → matches route path ≡ (route == path))
    (own_paths : (path : Text)
      → has path (path_of_setup ∷ path_of_login ∷ path_of_upload ∷ []) ≡ true
      → (parse_url path).location.pathname ≡ path) where
  told :
      (route path : Text)
      → has route known_paths ≡ true
      → has path known_paths ≡ true
      → has path (path_of_setup ∷ path_of_login ∷ path_of_upload ∷ []) ≡ true
      → matches route (pathname_of parse_url own_origin matches path) ≡ (route == path)
  told route path h k l = ap (matches route) (own_paths path l) ∙ own_matches route path h k

  -- A page inside the frame, and the pages beside it.
  abbrev IsInner : Text → Type 0
  IsInner path =
      ((matches path_of_setup (pathname_of parse_url own_origin matches path)) ≡ false)
      × ((matches path_of_login (pathname_of parse_url own_origin matches path)) ≡ false)

  module _ (auth : AuthState) (path : Text) (from : Option Text) (h : IsInner path) where
    inner_loading :
        auth.is_loading ≡ true → shown_at parse_url own_origin matches auth path from ≡ loading
    unfolding shown_at auth_guard
    inner_loading busy = ground (arith, h, busy)

    inner_index :
        (session : AdminSession)
        → auth.is_loading ≡ false
        → auth.session ≡ some session
        → matches path_of_index (pathname_of parse_url own_origin matches path) ≡ true
        → shown_at parse_url own_origin matches auth path from ≡ redirect path_of_upload none
    unfolding shown_at auth_guard
    inner_index session free signed_in index = ground (arith, h, free, signed_in, index)

    inner_content :
        (session : AdminSession)
        → auth.is_loading ≡ false
        → auth.session ≡ some session
        → matches path_of_index (pathname_of parse_url own_origin matches path) ≡ false
        → shown_at parse_url own_origin matches auth path from ≡ content
    unfolding shown_at auth_guard
    inner_content session free signed_in index = ground (arith, h, free, signed_in, index)

  upload-IsInner : IsInner path_of_upload
  unfolding has
  upload-IsInner = (
    told path_of_setup path_of_upload refl refl refl,
    told path_of_login path_of_upload refl refl refl,
  )

  -- Signed in: the upload page, any page inside the frame, and the pages beside it.
  upload_ends :
      (n : ℕ) (auth : AuthState) (session : AdminSession) (from : Option Text)
      → auth.session ≡ some session
      → is_some (follow parse_url own_origin matches (suc n) auth path_of_upload from) ≡ true
  upload_ends n auth session from signed_in = elim (Bool-cases auth.is_loading) [
    | inl busy ↦
        follow_loading parse_url own_origin matches n auth path_of_upload from
          (inner_loading auth path_of_upload from upload-IsInner busy)
    | inr free ↦ follow_content parse_url own_origin matches n auth path_of_upload from (
        inner_content auth path_of_upload from upload-IsInner session free signed_in
          (unfold has in told path_of_index path_of_upload refl refl refl))
  ]

  inner_ends :
      (n : ℕ) (auth : AuthState) (session : AdminSession) (path : Text) (from : Option Text)
      → IsInner path
      → auth.session ≡ some session
      → is_some (follow parse_url own_origin matches (suc (suc n)) auth path from) ≡ true
  inner_ends n auth session path from h signed_in = elim (Bool-cases auth.is_loading) [
    | inl busy ↦
        follow_loading parse_url own_origin matches (suc n) auth path from
          (inner_loading auth path from h busy)
    | inr free ↦
        elim (Bool-cases (matches path_of_index (pathname_of parse_url own_origin matches path))) [
          | inl index ↦
              follow_redirect parse_url own_origin matches (suc n) auth path path_of_upload from
                none (inner_index auth path from h session free signed_in index)
                (upload_ends n auth session none signed_in)
          | inr other ↦
              follow_content parse_url own_origin matches (suc n) auth path from
                (inner_content auth path from h session free signed_in other)
        ]
  ]

  module _ (auth : AuthState) (path : Text) (from : Option Text) where
    login_redirect :
        (session : AdminSession)
        → (matches path_of_setup (pathname_of parse_url own_origin matches path)) ≡ false
        → (matches path_of_login (pathname_of parse_url own_origin matches path)) ≡ true
        → auth.session ≡ some session
        → shown_at parse_url own_origin matches auth path from
          ≡ redirect (login_destination parse_url own_origin from) none
    unfolding shown_at login_page
    login_redirect session other same signed_in = rw (other, same) (ground (arith, signed_in))

    setup_redirect :
        (session : AdminSession)
        → (matches path_of_setup (pathname_of parse_url own_origin matches path)) ≡ true
        → auth.session ≡ some session
        → shown_at parse_url own_origin matches auth path from ≡ redirect path_of_upload none
    unfolding shown_at setup_page
    setup_redirect session same signed_in = rw same (ground (arith, signed_in))

  setup_ends :
      (n : ℕ) (auth : AuthState) (session : AdminSession) (path : Text) (from : Option Text)
      → (matches path_of_setup (pathname_of parse_url own_origin matches path)) ≡ true
      → auth.session ≡ some session
      → is_some (follow parse_url own_origin matches (suc (suc n)) auth path from) ≡ true
  setup_ends n auth session path from setup signed_in =
      follow_redirect parse_url own_origin matches (suc n) auth path path_of_upload from none
        (setup_redirect auth path from session setup signed_in)
        (upload_ends n auth session none signed_in)

  -- Where the login page leads to: the login page itself at most once more.
  destination_ends :
      (auth : AuthState) (session : AdminSession) (path : Text)
      → auth.session ≡ some session
      → is_some (follow parse_url own_origin matches 2 auth path none) ≡ true
  destination_ends auth session path signed_in =
      elim (Bool-cases (matches path_of_setup (pathname_of parse_url own_origin matches path))) [
        | inl setup ↦ setup_ends 0 auth session path none setup signed_in
        | inr other ↦
            elim (Bool-cases
              (matches path_of_login (pathname_of parse_url own_origin matches path))) [
                | inl login ↦
                    follow_redirect parse_url own_origin matches 1 auth path path_of_upload none
                      none
                      (login_redirect auth path none session other login signed_in
                        ∙ (unfold login_destination in refl))
                      (upload_ends 0 auth session none signed_in)
                | inr inner ↦ inner_ends 0 auth session path none (other, inner) signed_in
              ]
      ]

  signed_in_ends :
      (auth : AuthState) (session : AdminSession) (path : Text) (from : Option Text)
      → auth.session ≡ some session
      → is_some (follow parse_url own_origin matches 3 auth path from) ≡ true
  signed_in_ends auth session path from signed_in =
      elim (Bool-cases (matches path_of_setup (pathname_of parse_url own_origin matches path))) [
        | inl setup ↦ setup_ends 1 auth session path from setup signed_in
        | inr other ↦
            elim (Bool-cases
              (matches path_of_login (pathname_of parse_url own_origin matches path))) [
                | inl login ↦
                    follow_redirect parse_url own_origin matches 2 auth path
                      (login_destination parse_url own_origin from) from none
                      (login_redirect auth path from session other login signed_in)
                      (destination_ends auth session (login_destination parse_url own_origin from)
                        signed_in)
                | inr inner ↦ inner_ends 1 auth session path from (other, inner) signed_in
              ]
      ]

  -- Signed out: the setup while the store is not set up, else the login.
  setup_shown :
      (auth : AuthState) (from : Option Text)
      → auth.session ≡ none
      → auth.setup_status ≡ some false
      → shown_at parse_url own_origin matches auth path_of_setup from ≡ content
  unfolding shown_at setup_page
  setup_shown auth from signed_out fresh =
      rw
        (told path_of_setup path_of_setup (unfold has in refl) (unfold has in refl)
          (unfold has in refl))
        (ground (arith, signed_out, fresh))

  login_shown :
      (auth : AuthState) (from : Option Text)
      → auth.session ≡ none
      → (auth.setup_status ≡ none) ⊎ (auth.setup_status ≡ some true)
      → shown_at parse_url own_origin matches auth path_of_login from ≡ content
  unfolding shown_at login_page
  login_shown auth from signed_out ready =
      rw
        (
          told path_of_setup path_of_login (unfold has in refl) (unfold has in refl)
              (unfold has in refl),
          told path_of_login path_of_login (unfold has in refl) (unfold has in refl)
              (unfold has in refl),
        )
        (ground (arith, signed_out, ready))

  via_login :
      (auth : AuthState) (path : Text) (from next : Option Text)
      → auth.session ≡ none
      → (auth.setup_status ≡ none) ⊎ (auth.setup_status ≡ some true)
      → shown_at parse_url own_origin matches auth path from ≡ redirect path_of_login next
      → is_some (follow parse_url own_origin matches 3 auth path from) ≡ true
  via_login auth path from next signed_out ready e =
      follow_redirect parse_url own_origin matches 2 auth path path_of_login from next e (
        follow_content parse_url own_origin matches 1 auth path_of_login next
          (login_shown auth next signed_out ready))

  via_setup :
      (auth : AuthState) (path : Text) (from next : Option Text)
      → auth.session ≡ none
      → auth.setup_status ≡ some false
      → shown_at parse_url own_origin matches auth path from ≡ redirect path_of_setup next
      → is_some (follow parse_url own_origin matches 3 auth path from) ≡ true
  via_setup auth path from next signed_out fresh e =
      follow_redirect parse_url own_origin matches 2 auth path path_of_setup from next e (
        follow_content parse_url own_origin matches 1 auth path_of_setup next
          (setup_shown auth next signed_out fresh))

  module _ (auth : AuthState) (path : Text) (from : Option Text)
      (signed_out : auth.session ≡ none) where
    out_fresh :
        auth.setup_status ≡ some false
        → is_some (follow parse_url own_origin matches 3 auth path from) ≡ true
    out_fresh fresh =
        elim (Bool-cases (matches path_of_setup (pathname_of parse_url own_origin matches path))) [
          | inl setup ↦
              follow_content parse_url own_origin matches 2 auth path from
                (unfold shown_at setup_page in rw setup (ground (arith, signed_out, fresh)))
          | inr other ↦
              elim (Bool-cases
                (matches path_of_login (pathname_of parse_url own_origin matches path))) [
                  | inl login ↦ via_setup auth path from none signed_out fresh (
                      unfold shown_at login_page in
                      rw (other, login) (ground (arith, signed_out, fresh)))
                  | inr inner ↦ elim (Bool-cases auth.is_loading) [
                    | inl busy ↦
                        follow_loading parse_url own_origin matches 2 auth path from
                          (inner_loading auth path from (other, inner) busy)
                    | inr free ↦ via_setup auth path from none signed_out fresh (
                        unfold shown_at auth_guard in
                        ground (arith, other, inner, free, signed_out, fresh))
                  ]
                ]
        ]

    out_ready :
        (auth.setup_status ≡ none) ⊎ (auth.setup_status ≡ some true)
        → is_some (follow parse_url own_origin matches 3 auth path from) ≡ true
    out_ready ready =
        elim (Bool-cases (matches path_of_setup (pathname_of parse_url own_origin matches path))) [
          | inl setup ↦ elim ready [
            | inl unknown ↦
                follow_content parse_url own_origin matches 2 auth path from
                  (unfold shown_at setup_page in rw setup (ground (arith, signed_out, unknown)))
            | inr done ↦
                via_login auth path from none signed_out (inr done)
                  (unfold shown_at setup_page in rw setup (ground (arith, signed_out, done)))
          ]
          | inr other ↦
              elim (Bool-cases
                (matches path_of_login (pathname_of parse_url own_origin matches path))) [
                  | inl login ↦ follow_content parse_url own_origin matches 2 auth path from (
                      unfold shown_at login_page in
                      rw (other, login) (ground (arith, signed_out, ready)))
                  | inr inner ↦ elim (Bool-cases auth.is_loading) [
                    | inl busy ↦
                        follow_loading parse_url own_origin matches 2 auth path from
                          (inner_loading auth path from (other, inner) busy)
                    | inr free ↦
                        via_login auth path from (some (print_location (parse_url path).location))
                          signed_out ready
                          (unfold shown_at auth_guard in
                            ground (arith, other, inner, free, signed_out, ready))
                  ]
                ]
        ]

  -- Where the browser's URL parser reads the paths of the pages as they are, and the router tells these
  -- paths apart, however it compares others: from any path below /admin and
  -- with any state of the session and of the setup, at most two redirects follow each other before something
  -- is shown; so the pages for the login and the setup and the frame never send the browser round in circles.
  pub follow-ends :
      (auth : AuthState) (path : Text) (from : Option Text)
      → is_some (follow parse_url own_origin matches 3 auth path from) ≡ true
  follow-ends auth path from = elim (Option-cases auth.session) [
    | inr (session, signed_in) ↦ signed_in_ends auth session path from signed_in
    | inl signed_out ↦ elim (Option-cases auth.setup_status) [
      | inl unknown ↦ out_ready auth path from signed_out (inl unknown)
      | inr (status, known) ↦ elim (Bool-cases status) [
        | inl done ↦ out_ready auth path from signed_out (inr (known ∙ ap some done))
        | inr fresh ↦ out_fresh auth path from signed_out (known ∙ ap some fresh)
      ]
    ]
  ]
