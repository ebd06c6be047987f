-- ===== src/Api.antt =====
-- The records of the service's interface, web/src/lib/api-types.ts, with the fields that the client
-- reads. Their generated declarations are in web/src/generated.
use imagesilo.Common.{ℕ, Bool, List, Option}
use imagesilo.Common.Text.{Text}

pub data Visibility : Type 0 where
  public private : Visibility

pub record Image : Type 0 where
  pub id : Text
  pub original_name : Text
  pub standard_url : Text
  pub thumbnail_url : Text
  pub extension : Text
  pub mime_type : Text
  pub width : ℕ
  pub height : ℕ
  pub source_size : ℕ
  pub stored_size : ℕ
  pub visibility : Visibility
  pub created_at : Text

-- A page of a listing, with the cursor of the next one.
pub record ImageList : Type 0 where
  pub items : List Image
  pub next_cursor : Option Text

-- The status of one image in the answer to a batch operation.
pub data BatchStatus : Type 0 where
  updated deleted cleanup_pending not_found error : BatchStatus

pub record BatchItem : Type 0 where
  pub image_id : Text
  pub status : BatchStatus

abbrev pub BatchOperationResult : Type 0
BatchOperationResult = List BatchItem

pub record MigrationImage : Type 0 where
  pub path : Text
  pub original_name : Text
  pub standard_url : Text
  pub extension : Text
  pub stored_size : ℕ
  pub modified_at : Text

pub record MigrationImageList : Type 0 where
  pub items : List MigrationImage
  pub next_cursor : Option Text
  pub mutations_enabled : Bool
  pub skipped_files : ℕ

-- The answer to the deletion of migration images: whether each path was deleted.
pub record MigrationOperationItem : Type 0 where
  pub path : Text
  pub status : BatchStatus

abbrev pub MigrationImageBatchResult : Type 0
MigrationImageBatchResult = List MigrationOperationItem
