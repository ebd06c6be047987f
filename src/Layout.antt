-- ===== src/Layout.antt =====
-- The frame around the pages, web/src/components/layout/admin-layout.tsx: its navigation, its search,
-- and the choices of theme and language.
pub mod Dock
mod Examples
use imagesilo.Common.{
  ℕ, zero, suc, ◌-◌, min, max, Bool, true, false, not, ◌&&◌, ◌||◌, Option, none, some, List, [],
  ◌∷◌, ◌++◌, length, ◌==◌, nat_eq, list_eq, if◌then◌else◌, or_else,
}
use imagesilo.Common.Text.{Text, codes, trim, starts_with}
use imagesilo.Common.Collections.{lookup}
use imagesilo.Storage.{Storage, write_local_storage}

abbrev pub workspace_navigation : List Text
workspace_navigation =
    codes "/admin/upload"
    ∷ codes "/admin/images"
    ∷ codes "/admin/migrations"
    ∷ codes "/admin/aliases"
    ∷ []

abbrev pub system_navigation : List Text
system_navigation = codes "/admin/api-tokens" ∷ codes "/admin/settings" ∷ codes "/admin/system" ∷ []

abbrev pub navigation_items : List Text
navigation_items = workspace_navigation ++ system_navigation

-- `findIndex`; `none` stands for -1.
unfoldable pub find_index : Text → List Text → Option ℕ
unfolding starts_with
find_index path [] = none
find_index path (item ∷ items) =
    let later = find_index path items in
    if starts_with path item then some 0 else elim later [ none ↦ none | some i ↦ some (suc i) ]

abbrev pub current_index : Text → Option ℕ
current_index path = find_index path navigation_items

-- `Math.max(currentIndex, 0)`
abbrev pub shown_index : Option ℕ → ℕ
shown_index none = 0
shown_index (some i) = i

unfoldable pub dock_index : Bool → Text → ℕ
unfolding find_index
dock_index mobile path =
    if mobile then min (shown_index (current_index path)) 2 else shown_index (current_index path)

unfoldable pub dock_count : Bool → ℕ
dock_count mobile = if mobile then 3 else length navigation_items

pub data Theme : Type 0 where
  light dark : Theme

pub record Layout : Type 0 where
  pub path : Text
  -- The theme of the document and the component's own.
  pub document_theme : Theme
  pub theme : Theme
  pub language : Text
  pub mobile : Bool
  pub mobile_open : Bool
  pub search_open : Bool
  pub search_term : Text
  pub language_open : Bool
  pub profile_open : Bool
  pub storage : Storage
  pub navigations : List Text

abbrev pub print_theme : Theme → Text
print_theme light = codes "light"
print_theme dark = codes "dark"

abbrev pub opposite : Theme → Theme
opposite light = dark
opposite dark = light

unfoldable pub toggle_theme : Layout → Layout
unfolding write_local_storage
toggle_theme layout =
    let next = opposite layout.theme in
    record layout {
      document_theme = next;
      theme = next;
      storage = (write_local_storage (codes "imagesilo_theme") (print_theme next) layout.storage).1;
    }

unfoldable pub change_language : Text → Layout → Layout
unfolding write_local_storage
change_language next layout = record layout {
  language = next;
  language_open = false;
  storage = (write_local_storage (codes "imagesilo_language") next layout.storage).1;
}

-- The media query has changed.
unfoldable pub update_mobile : Bool → Layout → Layout
update_mobile matches layout =
    if matches
    then record layout { mobile = true }
    else record layout { mobile = false; mobile_open = false }

-- The keys that open the search.
unfoldable pub open_search : Layout → Layout
open_search layout = record layout { mobile_open = false; search_open = true }

-- The button of the dock, which is shown on a narrow window only.
unfoldable pub open_mobile : Layout → Layout
open_mobile layout = if layout.mobile then record layout { mobile_open = true } else layout

unfoldable pub change_path : Text → Layout → Layout
change_path path layout = record layout {
  path = path;
  mobile_open = false;
  profile_open = false;
  language_open = false;
}

-- `encodeURIComponent` is the language's.
module _ (encode_uri_component : Text → Text) where
  -- `navigateToSearch`
  unfoldable pub search_path : Text → Text
  search_path query =
      if query == []
      then codes "/admin/images"
      else codes "/admin/images?q=" ++ encode_uri_component query

  unfoldable pub search_images : Layout → Layout
  unfolding trim
  search_images layout = record layout {
    navigations = search_path (trim layout.search_term) ∷ layout.navigations;
    search_open = false;
    search_term = [];
  }

  pub data LayoutEvent : Type 0 where
    theme_pressed search_pressed mobile_pressed mobile_closed search_closed search_submitted :
        LayoutEvent
    language_chosen moved typed : Text → LayoutEvent
    media_changed : Bool → LayoutEvent

  unfoldable pub layout_step : LayoutEvent → Layout → Layout
  layout_step theme_pressed layout = toggle_theme layout
  layout_step search_pressed layout = open_search layout
  layout_step mobile_pressed layout = open_mobile layout
  layout_step mobile_closed layout = record layout { mobile_open = false }
  layout_step search_closed layout = record layout { search_open = false }
  layout_step search_submitted layout = search_images layout
  layout_step (language_chosen next) layout = change_language next layout
  layout_step (moved path) layout = change_path path layout
  layout_step (typed term) layout = record layout { search_term = term }
  layout_step (media_changed matches) layout = update_mobile matches layout

  unfoldable pub run_layout : List LayoutEvent → Layout → Layout
  run_layout [] layout = layout
  run_layout (e ∷ es) layout = run_layout es (layout_step e layout)

-- The pages behind the paths, web/src/app/page-loaders.ts.
pub data PageModule : Type 0 where
  upload_page image_list_page image_detail_page migration_page alias_page api_token_page
        settings_page system_page :
      PageModule

abbrev pub page_loaders : List (Text × PageModule)
page_loaders =
    (codes "/admin/upload", upload_page)
    ∷ (codes "/admin/images", image_list_page)
    ∷ (codes "/admin/migrations", migration_page)
    ∷ (codes "/admin/aliases", alias_page)
    ∷ (codes "/admin/api-tokens", api_token_page)
    ∷ (codes "/admin/settings", settings_page)
    ∷ (codes "/admin/system", system_page)
    ∷ []

-- `preloadAdminPage`: the module that is loaded, where one is.
unfoldable pub preload_admin_page : Text → Option PageModule
unfolding lookup starts_with
preload_admin_page path =
    if starts_with path (codes "/admin/images/")
    then some image_detail_page
    else lookup path page_loaders
