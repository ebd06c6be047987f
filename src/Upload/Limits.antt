-- ===== src/Upload/Limits.antt =====
-- Adding files: the limit of a batch.
use imagesilo.Common.{
  ℕ, ◌≤◌, ◌≡◌, refl, Option, List, [], ◌∷◌, ◌++◌, map, filter, length, count, count-append, arith,
  ◌⊎◌,
}
use imagesilo.Upload.Defs.{Page, is_unfinished, is_supported_image_file, too_many}
use imagesilo.Upload.Queue.{Pick, new_item, batch_limit, add_files}

abbrev supported_of : List Pick → List Pick
supported_of picks = filter (λ (pick : Pick). is_supported_image_file pick.file) picks

count-new_item : (picks : List Pick) → count is_unfinished (map new_item picks) ≡ length picks
count-new_item [] = refl
count-new_item (pick ∷ picks) = omega (arith, count-new_item picks)

-- Files are added all or none. If the unfinished items and the supported files together exceed the
-- limit (20 where the service's setting is not known yet), nothing is added and the message says so;
-- otherwise the supported files are appended in order, and the unfinished items stay within it.
pub add_files_lem :
    (setting : Option ℕ) (picks : List Pick) (page : Page)
    → (((add_files setting picks page).items ≡ page.items)
        × ((add_files setting picks page).message ≡ too_many (batch_limit setting)))
      ⊎ (((add_files setting picks page).items
            ≡ page.items
              ++ map new_item (filter (λ (pick : Pick). is_supported_image_file pick.file) picks))
          × (count is_unfinished (add_files setting picks page).items ≤ batch_limit setting))
unfolding add_files
add_files_lem setting picks page = ground (
  arith,
  count-append is_unfinished page.items (map new_item (supported_of picks)),
  count-new_item (supported_of picks),
)
