-- ===== src/Upload/Workers.antt =====
-- The uploads: one upload from its start to its end, the workers of `submit`, and `retry`.
-- A step runs to the next `await`, as the browser's event loop runs it.
use imagesilo.Common.{
  ℕ, zero, suc, ◌-◌, Bool, true, false, not, ◌&&◌, ◌||◌, Option, none, some, List, [], ◌∷◌, ◌++◌,
  filter, length, get_elem?, set, ltb, ◌==◌, nat_eq, if◌then◌else◌, or_else, min, max,
}
use imagesilo.Common.Collections.{delete}
use imagesilo.Upload.Defs.{
  UploadItem, UploadStatus, Page, Run, Worker, busy, stopped, idle, batch, single, retried, Outcome,
  done, unauthorized, aborted, api_error, other_error, no_message, upload_complete, upload_partial,
  upload_failed, is_unfinished,
}
use imagesilo.Upload.Queue.{update_item, abort_all}
use imagesilo.Api.{Image}

-- `uploadOne` up to its request, while the page is active. The new controller is `page.made`.
unfoldable pub start_upload : UploadItem → Page → Page
unfolding update_item
start_upload source page =
    update_item source.id
      (λ item. record item {
        status = UploadStatus.uploading;
        progress = 0;
        result = none;
        controller = some page.made;
        error = none;
      })
      (record page { made = suc page.made; controllers = page.controllers ++ page.made ∷ [] })

abbrev pub failure_status : Outcome → UploadStatus
failure_status (aborted _) = UploadStatus.canceled
failure_status _ = UploadStatus.failed

-- The message of the error; `fallback` is the translated text for a value that is no error.
abbrev pub failure_text : List ℕ → Outcome → List ℕ
failure_text fallback (aborted message) = message
failure_text fallback (api_error message) = message
failure_text fallback (other_error message) = or_else message fallback
failure_text fallback _ = fallback

abbrev pub completed_item : Image → UploadItem → UploadItem
completed_item image item = record item {
  status = UploadStatus.complete;
  progress = 100;
  result = some image;
  preview_url = image.thumbnail_url;
  controller = none;
  error = none;
}

abbrev pub failed_item : List ℕ → Outcome → UploadItem → UploadItem
failed_item fallback outcome item = record item {
  status = failure_status outcome;
  controller = none;
  error = some (failure_text fallback outcome);
}

-- The `try`, `catch` and `finally` of `uploadOne` after the request, and its result.
unfoldable pub settle_upload : List ℕ → UploadItem → ℕ → Outcome → Page → Page × Bool
unfolding update_item
settle_upload fallback source c (done image) page =
    let page' = update_item source.id (completed_item image) page in
    (record page' { controllers = delete c page.controllers }, true)
settle_upload fallback source c unauthorized page =
    (record (abort_all page) { is_active = false; controllers = delete c page.controllers }, false)
settle_upload fallback source c outcome page =
    let page' = update_item source.id (failed_item fallback outcome) page in
    (record page' { controllers = delete c page.controllers }, false)

-- One round of a worker's loop up to the next `await`: it takes the next item, or stops.
unfoldable pub take_next : Run → Page → Worker × Run × Page
unfolding start_upload
take_next run page =
    if page.is_active && ltb run.next_index (length run.queue)
    then elim (get_elem? run.queue run.next_index) [
      | none ↦ (stopped, run, page)
      | some item ↦ (
        busy item page.made,
        record run { next_index = suc run.next_index },
        start_upload item page,
      )
    ]
    else (stopped, run, page)

-- `Array.from({ length: concurrency }, () => worker())`
unfoldable pub start_workers : ℕ → Run → Page → Run × Page
unfolding take_next
start_workers zero run page = (run, page)
start_workers (suc n) run page =
    let (worker, run', page') = take_next run page in
    start_workers n (record run' { workers = run'.workers ++ worker ∷ [] }) page'

-- `Math.max(1, Math.min(systemQuery.data?.processingConcurrency ?? 1, queue.length))`
abbrev pub concurrency : Option ℕ → ℕ → ℕ
concurrency setting waiting = max 1 (min (or_else setting 1) waiting)

unfoldable pub submit : Option ℕ → Page → Page
unfolding start_workers
submit setting page =
    let queue = filter is_unfinished page.items in
    if length queue == 0 || page.is_uploading || not page.is_active
    then page
    else let started =
        start_workers (concurrency setting (length queue))
          (record { queue = queue; next_index = 0; completed = 0; workers = [] })
          (record page { is_uploading = true; message = no_message }) in
      record (started.1) { task = batch started.0 }

-- Worker `i` learns how its upload ended, and goes on with its loop.
unfoldable pub settle_worker : List ℕ → ℕ → Outcome → Run → Page → Run × Page
unfolding settle_upload take_next
settle_worker fallback i outcome run page = elim (get_elem? run.workers i) [
  | none ↦ (run, page)
  | some worker ↦ elim worker [
    | stopped ↦ (run, page)
    | busy source c ↦
        let (page', succeeded) = settle_upload fallback source c outcome page in
        let run' = record run {
          completed = if succeeded then suc run.completed else run.completed;
        } in
        let (worker', run'', page'') = take_next run' page' in
        (record run'' { workers = set run''.workers i worker' }, page'')
  ]
]

abbrev pub is_stopped : Worker → Bool
is_stopped stopped = true
is_stopped (busy _ _) = false

-- The end of `submit`, once every worker has stopped and the lists are invalidated.
unfoldable pub finish_batch : Run → Page → Page
finish_batch run page =
    if page.is_active
    then record page {
      task = idle;
      is_uploading = false;
      toasts =
          (if run.completed == length run.queue
            then upload_complete run.completed
            else upload_partial run.completed (length run.queue - run.completed))
          ∷ page.toasts;
    }
    else record page { task = idle }

-- `retry` up to its `await`. Without an active page `uploadOne` returns at once.
unfoldable pub retry : UploadItem → Page → Page
unfolding start_upload
retry item page =
    if page.is_uploading
    then page
    else if page.is_active
    then record (start_upload item (record page { is_uploading = true })) {
      task = single item page.made;
    }
    else record page { is_uploading = true; task = retried false }

unfoldable pub finish_retry : Bool → Page → Page
finish_retry succeeded page =
    if page.is_active
    then record page {
      task = idle;
      is_uploading = false;
      toasts = (if succeeded then upload_complete 1 else upload_failed) ∷ page.toasts;
    }
    else record page { task = idle }

-- A progress event of the request of a worker or of a retry.
unfoldable pub report_progress : UploadItem → ℕ → Page → Page
unfolding update_item
report_progress source percent page =
    update_item source.id (λ item. record item { progress = percent }) page
