-- ===== src/Auth/Logout.antt =====
-- What is left after a logout.
use imagesilo.Common.{
  ℕ, ◌≡◌, ◌↔◌, ◌⊎◌, inl, inr, refl, true, none, List, [], ◌∷◌, filter, All, nat_eq, list_eq,
  Bool-cases,
}
use imagesilo.Common.Text.{Text}
use imagesilo.Auth.{
  Reply, ok, refused, broken, is_unauthorized, AuthState, is_kept, clear_authenticated_cache,
  logout,
}

abbrev pub IsKept : Text × ℕ → Type 0
IsKept entry = is_kept entry ≡ true

filter-IsKept : (cache : List (Text × ℕ)) → All IsKept (filter is_kept cache)
filter-IsKept [] = tt
filter-IsKept (entry ∷ cache) = elim (Bool-cases (is_kept entry)) [
  | inl kept ↦ rw kept (kept, filter-IsKept cache)
  | inr dropped ↦ rw dropped (filter-IsKept cache)
]

-- However the request to log out ends, nobody is signed in afterwards and only queries of the
-- authentication and the setup stay cached; it counts as done exactly if the service has accepted it
-- or says that the session was over.
pub logout_lem :
    (reply : Reply {0} Unit) (auth : AuthState)
    → ((logout reply auth).0.session ≡ none)
      × All IsKept (logout reply auth).0.cache
      × (((logout reply auth).1 ≡ true) ↔ ((reply ≡ ok tt) ⊎ (is_unauthorized reply ≡ true)))
unfolding logout clear_authenticated_cache
logout_lem (ok tt) auth = (refl, filter-IsKept auth.cache, (λ e. inl refl, λ e. refl))
logout_lem (refused error) auth =
    (refl, filter-IsKept auth.cache, (λ e. inr e, λ e. elim e [ inl p ↦ cc | inr q ↦ q ]))
logout_lem broken auth =
    (refl, filter-IsKept auth.cache, (λ e. cc, λ e. elim e [ inl p ↦ cc | inr q ↦ cc ]))
