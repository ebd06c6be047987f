-- ===== src/Layout/Dock.antt =====
-- The navigation shows where the user is, and what is open fits the window.
use imagesilo.Common.{
  ℕ, zero, suc, ◌<◌, ◌≡◌, refl, Bool, true, false, Option, none, some, List, [], ◌∷◌, length, All,
  nat_eq, list_eq, arith, is_some,
}
use imagesilo.Common.Text.{Text}
use imagesilo.Common.Collections.{lookup}
use imagesilo.Layout.{
  navigation_items, find_index, current_index, shown_index, dock_index, dock_count, Layout,
  toggle_theme, change_language, update_mobile, open_search, open_mobile, change_path,
  search_images, LayoutEvent, layout_step, run_layout, preload_admin_page,
}

find_index-lt-length :
    (path : Text) (items : List Text) (i : ℕ) → find_index path items ≡ some i → i < length items
unfolding find_index
find_index-lt-length path [] i e = cc
find_index-lt-length path (item ∷ items) zero e = omega arith
find_index-lt-length path (item ∷ items) (suc i) e =
    ground (arith, e, find_index-lt-length path items i)

shown_index-lt : (path : Text) → shown_index (current_index path) < 7
shown_index-lt path =
    bound (current_index path) (λ i e. find_index-lt-length path navigation_items i e)
  where
    bound : (found : Option ℕ) → ((i : ℕ) → found ≡ some i → i < 7) → shown_index found < 7
    bound none h = omega arith
    bound (some i) h = h i refl

abbrev pub IsLoaded : Text → Type 0
IsLoaded item = is_some (preload_admin_page item) ≡ true

items-IsLoaded : All IsLoaded navigation_items
unfolding preload_admin_page lookup
items-IsLoaded = (refl, (refl, (refl, (refl, (refl, (refl, (refl, tt)))))))

-- Wherever the user is, on a narrow window or a wide one, the mark of the dock stands on one of its places.
-- The page of each item is loaded ahead when the item is pointed at.
pub dock_lem :
    (mobile : Bool) (path : Text)
    → (dock_index mobile path < dock_count mobile) × All IsLoaded navigation_items
unfolding dock_index dock_count
dock_lem true path = (omega arith, items-IsLoaded)
dock_lem false path = (shown_index-lt path, items-IsLoaded)

record IsFitting (layout : Layout) : Type 0 where
  narrow : layout.mobile_open ≡ true → layout.mobile ≡ true
  themed : layout.document_theme ≡ layout.theme

toggle_theme-IsFitting : (layout : Layout) → IsFitting layout → IsFitting (toggle_theme layout)
unfolding toggle_theme
toggle_theme-IsFitting layout h = ground (arith, h.narrow, h.themed)

change_language-IsFitting :
    (next : Text) (layout : Layout) → IsFitting layout → IsFitting (change_language next layout)
unfolding change_language
change_language-IsFitting next layout h = ground (arith, h.narrow, h.themed)

update_mobile-IsFitting :
    (matches : Bool) (layout : Layout) → IsFitting layout → IsFitting (update_mobile matches layout)
unfolding update_mobile
update_mobile-IsFitting matches layout h = ground (arith, h.narrow, h.themed)

open_search-IsFitting : (layout : Layout) → IsFitting layout → IsFitting (open_search layout)
unfolding open_search
open_search-IsFitting layout h = ground (arith, h.narrow, h.themed)

open_mobile-IsFitting : (layout : Layout) → IsFitting layout → IsFitting (open_mobile layout)
unfolding open_mobile
open_mobile-IsFitting layout h = ground (arith, h.narrow, h.themed)

change_path-IsFitting :
    (path : Text) (layout : Layout) → IsFitting layout → IsFitting (change_path path layout)
unfolding change_path
change_path-IsFitting path layout h = ground (arith, h.narrow, h.themed)

module _ (encode_uri_component : Text → Text) where
  layout_step-IsFitting :
      (e : LayoutEvent encode_uri_component) (layout : Layout)
      → IsFitting layout
      → IsFitting (layout_step encode_uri_component e layout)
  unfolding layout_step search_images
  layout_step-IsFitting LayoutEvent.theme_pressed layout = toggle_theme-IsFitting layout
  layout_step-IsFitting LayoutEvent.search_pressed layout = open_search-IsFitting layout
  layout_step-IsFitting LayoutEvent.mobile_pressed layout = open_mobile-IsFitting layout
  layout_step-IsFitting LayoutEvent.mobile_closed layout =
      λ h. record { narrow = λ e. cc; themed = h.themed }
  layout_step-IsFitting LayoutEvent.search_closed layout =
      λ h. record { narrow = h.narrow; themed = h.themed }
  layout_step-IsFitting LayoutEvent.search_submitted layout =
      λ h. record { narrow = h.narrow; themed = h.themed }
  layout_step-IsFitting (LayoutEvent.language_chosen next) layout =
      change_language-IsFitting next layout
  layout_step-IsFitting (LayoutEvent.moved path) layout = change_path-IsFitting path layout
  layout_step-IsFitting (LayoutEvent.typed term) layout =
      λ h. record { narrow = h.narrow; themed = h.themed }
  layout_step-IsFitting (LayoutEvent.media_changed matches) layout =
      update_mobile-IsFitting matches layout

  -- Whatever is pressed and however the window changes, from a frame whose sheet of all pages is not open
  -- on a wide window and whose theme is the document's: the sheet is open on a narrow window only, and the theme stays the
  -- document's.
  pub run_layout_lem :
      (es : List (LayoutEvent encode_uri_component)) (layout : Layout)
      → (layout.mobile_open ≡ true → layout.mobile ≡ true)
      → layout.document_theme ≡ layout.theme
      → ((run_layout encode_uri_component es layout).mobile_open ≡ true
          → (run_layout encode_uri_component es layout).mobile ≡ true)
        × ((run_layout encode_uri_component es layout).document_theme
            ≡ (run_layout encode_uri_component es layout).theme)
  unfolding run_layout
  run_layout_lem [] layout narrow themed = (narrow, themed)
  run_layout_lem (e ∷ es) layout narrow themed =
      let next = layout_step-IsFitting e layout (record { narrow = narrow; themed = themed }) in
      run_layout_lem es (layout_step encode_uri_component e layout) next.narrow next.themed
