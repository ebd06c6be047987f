-- ===== src/Storage/Reload.antt =====
-- A choice that was stored is made again when its page is loaded again.
use imagesilo.Common.{
  ◌≡◌, refl, ap, ◌∙◌, Bool, true, false, ◌&&◌, Option, some, ◌==◌, nat_eq, list_eq, eq_iff,
  if◌then◌else◌, arith,
}
use imagesilo.Common.Text.{Text, codes}
use imagesilo.Common.Collections.{lookup-insert}
use imagesilo.ImageLinks.{LinkFormat, direct, markdown, html, bbcode}
use imagesilo.Storage.{
  Storage, read_local_storage, write_local_storage, is_text, print_boolean, stored_boolean,
  ViewMode, grid, list, print_view_mode, stored_view_mode, print_format, link_format_key,
  read_format, initial_format,
}

-- What is read after a write, under any name.
pub read-write :
    (j key value : Text) (storage : Storage)
    → read_local_storage j (write_local_storage key value storage).1 ≡ (
        if storage.readable && storage.writable && key == j
        then some value
        else read_local_storage j storage)
unfolding read_local_storage write_local_storage
read-write j key value storage = ground (arith, lookup-insert key j value storage.entries)

-- Writing does not change whether the storage can be used.
pub write_kept :
    (key value : Text) (storage : Storage)
    → ((write_local_storage key value storage).1.readable ≡ storage.readable)
      × ((write_local_storage key value storage).1.writable ≡ storage.writable)
unfolding write_local_storage
write_kept key value storage = ground arith

read_back :
    (key value : Text) (storage : Storage)
    → storage.readable ≡ true
    → storage.writable ≡ true
    → read_local_storage key (write_local_storage key value storage).1 ≡ some value
read_back key value storage readable writable =
    read-write key key value storage ∙ ground (arith, readable, writable, eq_iff key key)

pub is_text-print_boolean : (b : Bool) → is_text (codes "true") (some (print_boolean b)) ≡ b
is_text-print_boolean true = refl
is_text-print_boolean false = refl

pub read_view_mode :
    (mode : ViewMode)
    → (if is_text (codes "list") (some (print_view_mode mode)) then list else grid) ≡ mode
read_view_mode grid = refl
read_view_mode list = refl

read_format-print : (format : LinkFormat) → read_format (some (print_format format)) ≡ format
read_format-print direct = refl
read_format-print markdown = refl
read_format-print html = refl
read_format-print bbcode = refl

-- In a storage that can be read and written: a Boolean choice, a view mode and a link format that are
-- written are the ones that are read back.
pub stored_choices :
    (key : Text) (storage : Storage) (b : Bool) (mode : ViewMode) (format : LinkFormat)
    → storage.readable ≡ true
    → storage.writable ≡ true
    → (stored_boolean key (write_local_storage key (print_boolean b) storage).1 ≡ b)
      × (stored_view_mode key (write_local_storage key (print_view_mode mode) storage).1 ≡ mode)
      × (initial_format (write_local_storage link_format_key (print_format format) storage).1
          ≡ format)
unfolding stored_boolean stored_view_mode initial_format
stored_choices key storage b mode format readable writable = (
  ap (is_text (codes "true")) (read_back key (print_boolean b) storage readable writable)
      ∙ is_text-print_boolean b,
  ap (λ (value : Option Text). if is_text (codes "list") value then list else grid)
        (read_back key (print_view_mode mode) storage readable writable)
      ∙ read_view_mode mode,
  ap read_format (read_back link_format_key (print_format format) storage readable writable)
      ∙ read_format-print format,
)
