-- ===== src/Upload/Defs.antt =====
-- The state of the upload page. Identifiers from `crypto.randomUUID` and abort controllers are
-- numbers, object URLs are texts; what the browser would give comes in as an argument.
use imagesilo.Common.{
  ℕ, Bool, true, false, not, ◌&&◌, ◌||◌, Option, none, some, List, [], ◌∷◌, map, any, filter_map,
  ◌==◌, nat_eq, list_eq, if◌then◌else◌,
}
use imagesilo.Common.Text.{Text, codes, lower, starts_with}
use imagesilo.Common.Collections.{has}
use imagesilo.Api.{Visibility, public, private, Image}
use mathlib.Core.List.{reverse}

pub data UploadStatus : Type 0 where
  queued uploading complete failed canceled : UploadStatus

pub record File : Type 0 where
  pub name : Text
  pub mime : Text
  pub size : ℕ

pub record UploadItem : Type 0 where
  pub id : ℕ
  pub file : File
  pub preview_url : Text
  pub status : UploadStatus
  pub progress : ℕ
  pub result : Option Image
  pub controller : Option ℕ
  pub error : Option Text

-- The message over the queue: '' or one of two translated texts.
pub data Message : Type 0 where
  no_message : Message
  too_many : ℕ → Message
  unsupported : Message

pub data Toast : Type 0 where
  upload_complete : ℕ → Toast
  upload_partial : ℕ → ℕ → Toast
  upload_failed : Toast

-- A worker of `submit` waits for one upload, or has left its loop.
pub data Worker : Type 0 where
  busy : UploadItem → ℕ → Worker
  stopped : Worker

-- The variables that the workers of one `submit` share.
pub record Run : Type 0 where
  pub queue : List UploadItem
  pub next_index : ℕ
  pub completed : ℕ
  pub workers : List Worker

-- What is under way: nothing, a submitted queue, or one retry with its result once it is there.
pub data Task : Type 0 where
  idle : Task
  batch : Run → Task
  single : UploadItem → ℕ → Task
  retried : Bool → Task

pub record Page : Type 0 where
  pub items : List UploadItem
  pub choice : Option Visibility
  pub message : Message
  pub is_uploading : Bool
  pub drag_active : Bool
  pub is_active : Bool
  pub controllers : List ℕ
  pub preview_urls : List Text
  pub task : Task
  -- How many controllers were made, which were aborted, which URLs were revoked, what was shown.
  pub made : ℕ
  pub aborted : List ℕ
  pub revoked : List Text
  pub toasts : List Toast

-- How an upload ends: the promise's value, or what it is rejected with.
pub data Outcome : Type 0 where
  done : Image → Outcome
  unauthorized : Outcome
  aborted : Text → Outcome
  api_error : Text → Outcome
  other_error : Option Text → Outcome

abbrev pub is_complete : UploadItem → Bool
is_complete item = elim item.status [ complete ↦ true | _ ↦ false ]

abbrev pub is_unfinished : UploadItem → Bool
is_unfinished item = not (is_complete item)

unfoldable pub has_unfinished : List UploadItem → Bool
has_unfinished items = any is_unfinished items

unfoldable pub completed_images : List UploadItem → List Image
completed_images items = filter_map (λ (item : UploadItem). item.result) items

-- `isSupportedImageFile`; the flag `i` ignores the case of letters.
abbrev pub ends_with : Text → Text → Bool
ends_with s suffix = starts_with (reverse s) (reverse suffix)

abbrev pub supported_types : List Text
supported_types =
    codes "image/jpeg" ∷ codes "image/png" ∷ codes "image/webp" ∷ codes "image/gif" ∷ []

abbrev pub supported_endings : List Text
supported_endings = codes ".jpg" ∷ codes ".jpeg" ∷ codes ".png" ∷ codes ".webp" ∷ codes ".gif" ∷ []

unfoldable pub is_supported_image_file : File → Bool
unfolding starts_with lower
is_supported_image_file file =
    has file.mime supported_types
    || (file.mime == [] && any (ends_with (map lower file.name)) supported_endings)

-- `storedVisibility`, of the value in local storage.
unfoldable pub stored_visibility : Option Text → Option Visibility
stored_visibility none = none
stored_visibility (some value) =
    if value == codes "public"
    then some public
    else if value == codes "private"
    then some private
    else none
