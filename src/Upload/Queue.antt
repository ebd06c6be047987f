-- ===== src/Upload/Queue.antt =====
-- The edits of the queue: files are added, items are updated, the queue is cleared, uploads are
-- canceled, and the page is left.
use imagesilo.Common.{
  ℕ, ◌+◌, Bool, false, not, Option, none, some, List, [], ◌∷◌, ◌++◌, map, filter, length, count,
  ltb, ◌==◌, nat_eq, list_eq, if◌then◌else◌, or_else,
}
use imagesilo.Common.Text.{Text}
use imagesilo.Common.Collections.{has, add}
use imagesilo.Upload.Defs.{
  UploadItem, File, Page, UploadStatus, no_message, too_many, unsupported, is_unfinished,
  is_supported_image_file,
}

-- A chosen file, with the identifier and the object URL that it would get.
pub record Pick : Type 0 where
  pub file : File
  pub uuid : ℕ
  pub url : Option Text

abbrev pub new_item : Pick → UploadItem
new_item pick = record {
  id = pick.uuid;
  file = pick.file;
  preview_url = or_else pick.url [];
  status = UploadStatus.queued;
  progress = 0;
  result = none;
  controller = none;
  error = none;
}

-- `makePreviewUrl` keeps each URL that it makes.
pub keep_urls : List Pick → List Text → List Text
keep_urls [] urls = urls
keep_urls (pick ∷ picks) urls =
    keep_urls picks (elim pick.url [ none ↦ urls | some u ↦ add u urls ])

-- `systemQuery.data?.maxBatchCount ?? 20`
abbrev pub batch_limit : Option ℕ → ℕ
batch_limit setting = or_else setting 20

unfoldable pub add_files : Option ℕ → List Pick → Page → Page
unfolding keep_urls
add_files setting picks page =
    let supported = filter (λ (pick : Pick). is_supported_image_file pick.file) picks in
    if ltb (batch_limit setting) (count is_unfinished page.items + length supported)
    then record page { message = too_many (batch_limit setting) }
    else record page {
      message = if length supported == length picks then no_message else unsupported;
      items = page.items ++ map new_item supported;
      preview_urls = keep_urls supported page.preview_urls;
    }

-- Dropped files end the drag; an empty paste is ignored.
unfoldable pub drop_files : Option ℕ → List Pick → Page → Page
unfolding add_files
drop_files setting picks page = add_files setting picks (record page { drag_active = false })

unfoldable pub paste_files : Option ℕ → List Pick → Page → Page
unfolding add_files
paste_files setting [] page = page
paste_files setting (pick ∷ picks) page = add_files setting (pick ∷ picks) page

abbrev pub patch_items : ℕ → (UploadItem → UploadItem) → List UploadItem → List UploadItem
patch_items id patch items =
    map (λ (item : UploadItem). if item.id == id then patch item else item) items

-- `updateItem`
unfoldable pub update_item : ℕ → (UploadItem → UploadItem) → Page → Page
update_item id patch page =
    if page.is_active then record page { items = patch_items id patch page.items } else page

-- Every controller of the list is told to abort.
abbrev pub abort_all : Page → Page
abort_all page = record page { aborted = page.controllers ++ page.aborted }

unfoldable pub clear_queue : Page → Page
clear_queue page = record page {
  revoked = page.preview_urls ++ page.revoked;
  preview_urls = [];
  items = [];
}

-- `onCancel` of a row: `item.controller?.abort()`.
unfoldable pub cancel : UploadItem → Page → Page
cancel item page = elim item.controller [
  | none ↦ page
  | some c ↦ record page { aborted = c ∷ page.aborted }
]

-- The flag says whether the blocked navigation proceeds.
unfoldable pub leave_upload : Bool → Page → Page × Bool
leave_upload is_blocked page =
    (record (abort_all page) { is_active = false; controllers = [] }, is_blocked)

-- The clean-up of the page.
unfoldable pub unmount : Page → Page
unmount page = record (abort_all page) {
  is_active = false;
  controllers = [];
  revoked = page.preview_urls ++ page.revoked;
  preview_urls = [];
}

-- After each change of the items: URLs that no item shows any more are revoked.
unfoldable pub retain_urls : Page → Page
retain_urls page =
    let retained = map (λ (item : UploadItem). item.preview_url) page.items in
    record page {
      revoked = filter (λ url. not (has url retained)) page.preview_urls ++ page.revoked;
      preview_urls = filter (λ url. has url retained) page.preview_urls;
    }
