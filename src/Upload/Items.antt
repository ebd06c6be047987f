-- ===== src/Upload/Items.antt =====
-- What holds of every item of the queue, whatever has happened to the page.
use imagesilo.Common.{
  ℕ, ◌≡◌, refl, Bool, true, false, not, ◌||◌, Option, some, List, [], ◌∷◌, ◌++◌, map, filter, All,
  All-append, get_elem?, arith, if◌then◌else◌, inl, inr, Bool-cases, Option-cases, is_some, ◌⊎◌,
  ◌==◌, nat_eq, nat_beq, zero, suc, length, ltb, ◌&&◌,
}
use imagesilo.Common.Text.{Text}
use imagesilo.Api.{Visibility}
use imagesilo.Upload.Defs.{
  UploadItem, UploadStatus, Page, Run, busy, stopped, Task, batch, single, retried, Outcome, done,
  unauthorized, aborted, is_complete, is_unfinished, is_supported_image_file, no_message,
}
use imagesilo.Upload.Queue.{
  Pick, new_item, update_item, patch_items, add_files, drop_files, paste_files, cancel, clear_queue,
  leave_upload, unmount, retain_urls,
}
use imagesilo.Upload.Workers.{
  start_upload, settle_upload, settle_worker, take_next, start_workers, concurrency, submit, retry,
  report_progress,
}
use imagesilo.Upload.Steady.{retry_active}
use imagesilo.Upload.Limits.{add_files_lem}
use imagesilo.Upload.Stops.{credited, settle_worker-busy, settle_worker_unchanged}
use imagesilo.Upload.Steps.{
  Event, on_worker_progress, on_worker_settled, on_retry_progress, on_retry_settled, on_invalidated,
  step, run_events, initial,
}

abbrev is_in_flight : UploadItem → Bool
is_in_flight item = elim item.status [ UploadStatus.uploading ↦ true | _ ↦ false ]

-- A file of a supported kind; a controller exactly while the item is uploaded, so that the row's
-- cancel button has something to abort; and a result if the upload is complete.
pub record IsProper (item : UploadItem) : Type 0 where
  pub supported : is_supported_image_file item.file ≡ true
  pub cancelable : is_some item.controller ≡ is_in_flight item
  pub shown : (not (is_complete item) || is_some item.result) ≡ true

abbrev pub AllProper : Page → Type 0
AllProper page = All IsProper page.items

All-patch_items :
    (id : ℕ) (patch : UploadItem → UploadItem) (items : List UploadItem)
    → ((item : UploadItem) → IsProper item → IsProper (patch item))
    → All IsProper items
    → All IsProper (patch_items id patch items)
All-patch_items id patch [] keep h = tt
All-patch_items id patch (item ∷ items) keep (p, h) =
    (one (Bool-cases (item.id == id)), All-patch_items id patch items keep h)
  where
    one :
        (item.id == id ≡ true) ⊎ (item.id == id ≡ false)
        → IsProper (if item.id == id then patch item else item)
    one (inl e) = simp e (keep item p)
    one (inr e) = simp e p

update_item-AllProper :
    (id : ℕ) (patch : UploadItem → UploadItem) (page : Page)
    → ((item : UploadItem) → IsProper item → IsProper (patch item))
    → AllProper page
    → AllProper (update_item id patch page)
update_item-AllProper id patch page keep h = elim (Bool-cases page.is_active) [
  | inl on ↦ unfold update_item in simp on (All-patch_items id patch page.items keep h)
  | inr off ↦ unfold update_item in simp off h
]

start_upload-AllProper :
    (source : UploadItem) (page : Page) → AllProper page → AllProper (start_upload source page)
unfolding start_upload
start_upload-AllProper source page h =
    update_item-AllProper source.id _
      (record page { made = suc page.made; controllers = page.controllers ++ page.made ∷ [] })
      (λ item p. record { supported = p.supported; cancelable = refl; shown = refl }) h

settle_upload-AllProper :
    (fallback : Text) (source : UploadItem) (c : ℕ) (outcome : Outcome) (page : Page)
    → AllProper page
    → AllProper (settle_upload fallback source c outcome page).0
unfolding settle_upload
settle_upload-AllProper fallback source c (done image) page h =
    update_item-AllProper source.id _ page
      (λ item p. record { supported = p.supported; cancelable = refl; shown = refl }) h
settle_upload-AllProper fallback source c unauthorized page h = h
settle_upload-AllProper fallback source c (aborted message) page h =
    update_item-AllProper source.id _ page
      (λ item p. record { supported = p.supported; cancelable = refl; shown = refl }) h
settle_upload-AllProper fallback source c _ page h =
    update_item-AllProper source.id _ page
      (λ item p. record { supported = p.supported; cancelable = refl; shown = refl }) h

take_next-AllProper : (run : Run) (page : Page) → AllProper page → AllProper (take_next run page).2
take_next-AllProper run page h =
    elim (Bool-cases (page.is_active && ltb run.next_index (length run.queue))) [
      | inl on ↦ elim (Option-cases (get_elem? run.queue run.next_index)) [
        | inl none_left ↦ unfold take_next in simp (on, none_left) h
        | inr (item, found) ↦ taking item on found
      ]
      | inr off ↦ unfold take_next in simp off h
    ]
  where
    next_is :
        (item : UploadItem)
        → (page.is_active && ltb run.next_index (length run.queue)) ≡ true
        → get_elem? run.queue run.next_index ≡ some item
        → (take_next run page).2 ≡ start_upload item page
    next_is item on found = unfold take_next in rw (on, found, take_next) refl

    taking :
        (item : UploadItem)
        → (page.is_active && ltb run.next_index (length run.queue)) ≡ true
        → get_elem? run.queue run.next_index ≡ some item
        → AllProper (take_next run page).2
    taking item on found = rw (next_is item on found) (start_upload-AllProper item page h)

start_workers-AllProper :
    (n : ℕ) (run : Run) (page : Page) → AllProper page → AllProper (start_workers n run page).1
unfolding start_workers
start_workers-AllProper zero run page h = h
start_workers-AllProper (suc n) run page h =
    let next = take_next run page in
    start_workers-AllProper n (record next.1 { workers = next.1.workers ++ next.0 ∷ [] }) next.2
      (take_next-AllProper run page h)

settle_worker-AllProper :
    (fallback : Text) (i : ℕ) (outcome : Outcome) (run : Run) (page : Page)
    → AllProper page
    → AllProper (settle_worker fallback i outcome run page).1
settle_worker-AllProper fallback i outcome run page h =
    elim (Option-cases (get_elem? run.workers i)) [
      | inl missing ↦ rw (settle_worker_unchanged fallback i outcome run page (inl missing)) h
      | inr (stopped, found) ↦
          rw (settle_worker_unchanged fallback i outcome run page (inr found)) h
      | inr (busy source c, found) ↦
          let ended = settle_upload fallback source c outcome page in
          rw (settle_worker-busy fallback i outcome run page source c found) (
            take_next-AllProper (credited ended.1 run) ended.0
              (settle_upload-AllProper fallback source c outcome page h))
    ]

new_items-All :
    (picks : List Pick)
    → All IsProper
        (map new_item (filter (λ (pick : Pick). is_supported_image_file pick.file) picks))
new_items-All [] = tt
new_items-All (pick ∷ picks) =
    one (Bool-cases (is_supported_image_file pick.file)) (new_items-All picks)
  where
    rest : List Pick
    rest = filter (λ (p : Pick). is_supported_image_file p.file) picks

    one :
        (is_supported_image_file pick.file ≡ true) ⊎ (is_supported_image_file pick.file ≡ false)
        → All IsProper (map new_item rest)
        → All IsProper
            (map new_item (if is_supported_image_file pick.file then pick ∷ rest else rest))
    one (inl e) later = simp e ((record { supported = e; cancelable = refl; shown = refl }), later)
    one (inr e) later = simp e later

add_files-AllProper :
    (setting : Option ℕ) (picks : List Pick) (page : Page)
    → AllProper page
    → AllProper (add_files setting picks page)
add_files-AllProper setting picks page h = elim (add_files_lem setting picks page) [
  | inl (same, message) ↦ rw same h
  | inr (added, few) ↦ rw added (All-append IsProper page.items _ h (new_items-All picks))
]

module _ (batch_setting concurrency_setting : Option ℕ) (fallback : Text) where
  progress-AllProper :
      (source : UploadItem) (percent : ℕ) (page : Page)
      → AllProper page
      → AllProper (report_progress source percent page)
  unfolding report_progress
  progress-AllProper source percent page h =
      update_item-AllProper source.id _ page
        (λ item p. record { supported = p.supported; cancelable = p.cancelable; shown = p.shown }) h

  worker_progress-AllProper :
      (task : Task) (i percent : ℕ) (page : Page)
      → AllProper page
      → AllProper
          (on_worker_progress batch_setting concurrency_setting fallback task i percent page)
  worker_progress-AllProper (batch run) i percent page h =
      elim (Option-cases (get_elem? run.workers i)) [
        | inl missing ↦ unfold on_worker_progress in rw (missing, on_worker_progress) h
        | inr (stopped, found) ↦ unfold on_worker_progress in rw (found, on_worker_progress) h
        | inr (busy source c, found) ↦
            unfold on_worker_progress in
            rw (found, on_worker_progress) (progress-AllProper source percent page h)
      ]
  worker_progress-AllProper _ i percent page h = unfold on_worker_progress in h

  retry_progress-AllProper :
      (task : Task) (percent : ℕ) (page : Page)
      → AllProper page
      → AllProper (on_retry_progress batch_setting concurrency_setting fallback task percent page)
  retry_progress-AllProper (single source c) percent page h =
      unfold on_retry_progress in progress-AllProper source percent page h
  retry_progress-AllProper _ percent page h = unfold on_retry_progress in h

  worker_settled-AllProper :
      (task : Task) (i : ℕ) (outcome : Outcome) (page : Page)
      → AllProper page
      → AllProper (on_worker_settled batch_setting concurrency_setting fallback task i outcome page)
  worker_settled-AllProper (batch run) i outcome page h =
      unfold on_worker_settled in settle_worker-AllProper fallback i outcome run page h
  worker_settled-AllProper _ i outcome page h = unfold on_worker_settled in h

  retry_settled-AllProper :
      (task : Task) (outcome : Outcome) (page : Page)
      → AllProper page
      → AllProper (on_retry_settled batch_setting concurrency_setting fallback task outcome page)
  retry_settled-AllProper (single source c) outcome page h =
      unfold on_retry_settled in settle_upload-AllProper fallback source c outcome page h
  retry_settled-AllProper _ outcome page h = unfold on_retry_settled in h

  invalidated_items :
      (task : Task) (page : Page)
      → (on_invalidated batch_setting concurrency_setting fallback task page).items ≡ page.items
  unfolding on_invalidated
  invalidated_items (batch run) page = ground arith
  invalidated_items (retried succeeded) page = ground arith
  invalidated_items _ page = refl

  submit-AllProper : (page : Page) → AllProper page → AllProper (submit concurrency_setting page)
  submit-AllProper page h =
      let queue = filter is_unfinished page.items in
      elim (Bool-cases (nat_beq (length queue) 0 || page.is_uploading || not page.is_active)) [
        | inl blocked ↦ unfold submit in simp blocked h
        | inr free ↦
            unfold submit in
            simp free (
              start_workers-AllProper (concurrency concurrency_setting (length queue))
                (record { queue = queue; next_index = 0; completed = 0; workers = [] })
                (record page { is_uploading = true; message = no_message }) h)
      ]

  retry-AllProper : (item : UploadItem) (page : Page) → AllProper page → AllProper (retry item page)
  retry-AllProper item page h = elim (Bool-cases page.is_uploading) [
    | inl uploading ↦ unfold retry in simp uploading h
    | inr free ↦ elim (Bool-cases page.is_active) [
      | inl on ↦
          rw (retry_active batch_setting concurrency_setting fallback item page free on)
            (start_upload-AllProper item (record page { is_uploading = true }) h)
      | inr off ↦ unfold retry in simp (free, off) h
    ]
  ]

  step-AllProper :
      (e : Event) (page : Page)
      → AllProper page
      → AllProper (step batch_setting concurrency_setting fallback e page)
  step-AllProper (Event.choose picks) page h =
      unfold step in add_files-AllProper batch_setting picks page h
  step-AllProper (Event.drop picks) page h =
      unfold step drop_files in
      add_files-AllProper batch_setting picks (record page { drag_active = false }) h
  step-AllProper (Event.paste []) page h = unfold step paste_files in h
  step-AllProper (Event.paste (pick ∷ picks)) page h =
      unfold step paste_files in add_files-AllProper batch_setting (pick ∷ picks) page h
  step-AllProper (Event.set_dragging on) page h = unfold step in h
  step-AllProper (Event.choose_visibility choice) page h = unfold step in h
  step-AllProper Event.press_submit page h = unfold step in submit-AllProper page h
  step-AllProper (Event.press_retry item) page h = unfold step in retry-AllProper item page h
  step-AllProper Event.press_clear page h = unfold step clear_queue in tt
  step-AllProper (Event.press_cancel item) page h = elim (Option-cases item.controller) [
    | inl nothing ↦ unfold step cancel in rw (nothing, cancel) h
    | inr (c, found) ↦ unfold step cancel in rw (found, cancel) h
  ]
  step-AllProper (Event.confirm_leave is_blocked) page h = unfold step leave_upload in h
  step-AllProper Event.unmounted page h = unfold step unmount in h
  step-AllProper Event.items_changed page h = unfold step retain_urls in h
  step-AllProper (Event.worker_progress i percent) page h =
      unfold step in worker_progress-AllProper page.task i percent page h
  step-AllProper (Event.worker_settled i outcome) page h =
      unfold step in worker_settled-AllProper page.task i outcome page h
  step-AllProper (Event.retry_progress percent) page h =
      unfold step in retry_progress-AllProper page.task percent page h
  step-AllProper (Event.retry_settled outcome) page h =
      unfold step in retry_settled-AllProper page.task outcome page h
  step-AllProper Event.invalidated page h = unfold step in rw (invalidated_items page.task page) h

  run_events-AllProper :
      (es : List Event) (page : Page)
      → AllProper page
      → AllProper (run_events batch_setting concurrency_setting fallback es page)
  unfolding run_events
  run_events-AllProper [] page h = h
  run_events-AllProper (e ∷ es) page h =
      run_events-AllProper es (step batch_setting concurrency_setting fallback e page)
        (step-AllProper e page h)

  -- Whatever has happened to a page since it was mounted, in whatever order, every item of its queue
  -- holds a file of a supported kind, has an abort controller exactly while it is being uploaded,
  -- and has its image if it is complete.
  pub items-IsProper :
      (stored : Option Visibility) (es : List Event)
      → All IsProper
          (run_events batch_setting concurrency_setting fallback es (initial stored)).items
  items-IsProper stored es = run_events-AllProper es (initial stored) tt
