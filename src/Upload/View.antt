-- ===== src/Upload/View.antt =====
-- What the page shows: which buttons there are, and which of them are disabled.
use imagesilo.Common.{
  ℕ, ◌≡◌, ◌⊎◌, inl, inr, refl, Bool, true, false, not, ◌&&◌, ◌||◌, Option, List, [], ◌∷◌, all,
  filter, length, count, ltb, ◌==◌, nat_eq, arith, Bool-cases, min, max,
}
use imagesilo.Upload.Defs.{
  UploadItem, UploadStatus, Page, is_complete, is_unfinished, completed_images,
}
use imagesilo.Upload.Workers.{submit}
use imagesilo.Upload.Steady.{submitted_run}

-- The upload button, and the number that it shows.
unfoldable pub submit_is_disabled : Page → Bool
submit_is_disabled page = length page.items == 0 || page.is_uploading || all is_complete page.items

abbrev pub upload_count : Page → ℕ
upload_count page = count is_unfinished page.items

unfoldable pub clear_is_disabled : Page → Bool
clear_is_disabled page = page.is_uploading || length page.items == 0

-- The links of all completed uploads are offered once nothing is uploaded.
unfoldable pub copy_is_shown : Page → Bool
copy_is_shown page =
    not page.is_uploading
    && ltb 1 (length page.items)
    && ltb 0 (length (completed_images page.items))

-- The buttons of a row.
unfoldable pub cancel_is_shown : UploadItem → Bool
cancel_is_shown item = elim item.status [ UploadStatus.uploading ↦ true | _ ↦ false ]

unfoldable pub retry_is_shown : UploadItem → Bool
retry_is_shown item = elim item.status [
  | UploadStatus.failed ↦ true
  | UploadStatus.canceled ↦ true
  | _ ↦ false
]

-- The width of the progress bar, in hundredths.
unfoldable pub bar_width : UploadItem → ℕ
bar_width item = max 0 (min 100 item.progress)

all_complete :
    (items : List UploadItem) → (length (filter is_unfinished items) == 0) ≡ all is_complete items
all_complete [] = refl
all_complete (item ∷ items) = ground (arith, all_complete items)

none_left : (items : List UploadItem) → length items ≡ 0 → all is_complete items ≡ true
none_left [] e = refl
none_left (item ∷ items) e = absurd (omega (arith, e))

-- On an active page, the upload button is disabled exactly where submitting would do nothing; where
-- it is enabled, submitting marks the page as uploading.
pub submit_is_disabled_lem :
    (batch_setting concurrency_setting : Option ℕ) (fallback : List ℕ) (page : Page)
    → page.is_active ≡ true
    → ((submit_is_disabled page ≡ true) × (submit concurrency_setting page ≡ page))
      ⊎ ((submit_is_disabled page ≡ false)
          × ((submit concurrency_setting page).is_uploading ≡ true))
unfolding submit_is_disabled
submit_is_disabled_lem batch_setting concurrency_setting fallback page on =
    elim (Bool-cases
      (length (filter is_unfinished page.items) == 0 || page.is_uploading || not page.is_active)) [
        | inl blocked ↦ inl (
          ground (arith, all_complete page.items, none_left page.items, blocked, on),
          unfold submit in simp blocked refl,
        )
        | inr free ↦
            let started = submitted_run batch_setting concurrency_setting fallback page in
            inr (
              ground (arith, all_complete page.items, none_left page.items, free, on),
              unfold submit in simp free (started.same_uploading),
            )
      ]
