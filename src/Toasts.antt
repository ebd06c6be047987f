-- ===== src/Toasts.antt =====
-- The notices that the pages show with the `toast` functions of the library sonner: one with an
-- identifier takes the place of the one before, others are added. A text is its translation key, with
-- the numbers that stand in it.
use imagesilo.Common.{
  ℕ, ◌≡◌, refl, Bool, true, false, none, some, List, [], ◌∷◌, ◌==◌, nat_eq, list_eq, if◌then◌else◌,
  arith,
}
use imagesilo.Common.Text.{Text}
use imagesilo.Common.Collections.{lookup, insert, lookup-insert}

pub data Level : Type 0 where
  loading success warning failure : Level

pub record Toast : Type 0 where
  pub level : Level
  pub key : Text
  pub counts : List ℕ

pub record Toasts : Type 0 where
  pub named : List (Text × Toast)
  pub others : List Toast

abbrev pub no_toasts : Toasts
no_toasts = record { named = []; others = [] }

-- With an identifier, and the numbers of its text.
unfoldable pub show_counts : Text → Level → Text → List ℕ → Toasts → Toasts
unfolding insert
show_counts id level key counts toasts = record toasts {
  named = insert id (record { level = level; key = key; counts = counts }) toasts.named;
}

abbrev pub show : Text → Level → Text → Toasts → Toasts
show id level key toasts = show_counts id level key [] toasts

-- Without an identifier.
abbrev pub notify : Level → Text → Toasts → Toasts
notify level key toasts = record toasts {
  others = record { level = level; key = key; counts = [] } ∷ toasts.others;
}

abbrev pub is_loading_level : Level → Bool
is_loading_level loading = true
is_loading_level _ = false

-- Whether the notice with this identifier still says that something is under way.
unfoldable pub is_loading : Text → Toasts → Bool
unfolding lookup
is_loading id toasts = elim (lookup id toasts.named) [
  | none ↦ false
  | some toast ↦ is_loading_level toast.level
]

pub is_loading-show :
    (id j key : Text) (level : Level) (counts : List ℕ) (toasts : Toasts)
    → is_loading j (show_counts id level key counts toasts)
      ≡ (if id == j then is_loading_level level else is_loading j toasts)
unfolding is_loading show_counts
is_loading-show id j key level counts toasts =
    ground (
      arith,
      lookup-insert id j (record { level = level; key = key; counts = counts }) toasts.named,
    )

pub is_loading-notify :
    (j key : Text) (level : Level) (toasts : Toasts)
    → is_loading j (notify level key toasts) ≡ is_loading j toasts
unfolding is_loading
is_loading-notify j key level toasts = refl
