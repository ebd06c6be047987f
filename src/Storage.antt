-- ===== src/Storage.antt =====
-- The browser's local storage, web/src/lib/browser-storage.ts, and the choices that pages keep in it.
pub mod Reload
use imagesilo.Common.{
  Bool, true, false, Option, none, some, List, [], ◌∷◌, ◌==◌, nat_eq, list_eq, if◌then◌else◌,
}
use imagesilo.Common.Text.{Text, codes}
use imagesilo.Common.Collections.{lookup, insert}
use imagesilo.ImageLinks.{LinkFormat, direct, markdown, html, bbcode}

-- What is stored, and whether an access throws or there is no window.
pub record Storage : Type 0 where
  pub readable : Bool
  pub writable : Bool
  pub entries : List (Text × Text)

unfoldable pub read_local_storage : Text → Storage → Option Text
unfolding lookup
read_local_storage key storage = if storage.readable then lookup key storage.entries else none

unfoldable pub write_local_storage : Text → Text → Storage → Bool × Storage
unfolding insert
write_local_storage key value storage =
    if storage.writable
    then (true, record storage { entries = insert key value storage.entries })
    else (false, storage)

abbrev pub is_text : Text → Option Text → Bool
is_text text none = false
is_text text (some value) = value == text

abbrev pub print_boolean : Bool → Text
print_boolean true = codes "true"
print_boolean false = codes "false"

unfoldable pub stored_boolean : Text → Storage → Bool
unfolding read_local_storage
stored_boolean key storage = is_text (codes "true") (read_local_storage key storage)

pub data ViewMode : Type 0 where
  grid list : ViewMode

abbrev pub print_view_mode : ViewMode → Text
print_view_mode grid = codes "grid"
print_view_mode list = codes "list"

unfoldable pub stored_view_mode : Text → Storage → ViewMode
unfolding read_local_storage
stored_view_mode key storage =
    if is_text (codes "list") (read_local_storage key storage) then list else grid

abbrev pub print_format : LinkFormat → Text
print_format direct = codes "direct"
print_format markdown = codes "markdown"
print_format html = codes "html"
print_format bbcode = codes "bbcode"

abbrev pub link_format_key : Text
link_format_key = codes "imagesilo_link_format"

-- `formats.includes(value)`
abbrev pub read_format : Option Text → LinkFormat
read_format none = direct
read_format (some value) =
    if value == codes "markdown"
    then markdown
    else if value == codes "bbcode"
    then bbcode
    else if value == codes "html"
    then html
    else direct

unfoldable pub initial_format : Storage → LinkFormat
unfolding read_local_storage
initial_format storage = read_format (read_local_storage link_format_key storage)

-- `initialLanguage`: the texts are in English if it was chosen, else in Chinese.
unfoldable pub initial_language : Storage → Text
unfolding read_local_storage
initial_language storage =
    if is_text (codes "en-US") (read_local_storage (codes "imagesilo_language") storage)
    then codes "en-US"
    else codes "zh-CN"
