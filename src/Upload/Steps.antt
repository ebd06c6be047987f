-- ===== src/Upload/Steps.antt =====
-- The page as a state machine: one step for each event that the page reacts to.
use imagesilo.Common.{
  ℕ, Bool, true, false, Option, none, some, List, [], ◌∷◌, all, get_elem?, if◌then◌else◌,
}
use imagesilo.Api.{Visibility}
use imagesilo.Common.Text.{Text}
use imagesilo.Upload.Defs.{
  UploadItem, Page, busy, stopped, Task, idle, batch, single, retried, Outcome, no_message,
}
use imagesilo.Upload.Queue.{
  Pick, add_files, drop_files, paste_files, clear_queue, cancel, leave_upload, unmount, retain_urls,
}
use imagesilo.Upload.Workers.{
  settle_upload, submit, settle_worker, is_stopped, finish_batch, retry, finish_retry,
  report_progress,
}

pub data Event : Type 0 where
  choose : List Pick → Event
  drop : List Pick → Event
  paste : List Pick → Event
  set_dragging : Bool → Event
  choose_visibility : Option Visibility → Event
  press_submit : Event
  press_retry : UploadItem → Event
  press_clear : Event
  press_cancel : UploadItem → Event
  confirm_leave : Bool → Event
  unmounted : Event
  items_changed : Event
  worker_progress : ℕ → ℕ → Event
  worker_settled : ℕ → Outcome → Event
  retry_progress : ℕ → Event
  retry_settled : Outcome → Event
  invalidated : Event

-- The settings of the service as the page knows them, and the text for an unknown failure.
module _ (batch_setting concurrency_setting : Option ℕ) (fallback : Text) where
  unfoldable pub on_worker_progress : Task → ℕ → ℕ → Page → Page
  unfolding report_progress
  on_worker_progress (batch run) i percent page = elim (get_elem? run.workers i) [
    | none ↦ page
    | some worker ↦ elim worker [
      | busy source c ↦ report_progress source percent page
      | stopped ↦ page
    ]
  ]
  on_worker_progress _ i percent page = page

  unfoldable pub on_worker_settled : Task → ℕ → Outcome → Page → Page
  unfolding settle_worker
  on_worker_settled (batch run) i outcome page =
      let (run', page') = settle_worker fallback i outcome run page in
      record page' { task = batch run' }
  on_worker_settled _ i outcome page = page

  unfoldable pub on_retry_progress : Task → ℕ → Page → Page
  unfolding report_progress
  on_retry_progress (single source c) percent page = report_progress source percent page
  on_retry_progress _ percent page = page

  unfoldable pub on_retry_settled : Task → Outcome → Page → Page
  unfolding settle_upload
  on_retry_settled (single source c) outcome page =
      let (page', succeeded) = settle_upload fallback source c outcome page in
      record page' { task = retried succeeded }
  on_retry_settled _ outcome page = page

  -- The code after `Promise.all` and the two invalidations.
  unfoldable pub on_invalidated : Task → Page → Page
  unfolding finish_batch finish_retry
  on_invalidated (batch run) page =
      if all is_stopped run.workers then finish_batch run page else page
  on_invalidated (retried succeeded) page = finish_retry succeeded page
  on_invalidated _ page = page

  unfoldable pub step : Event → Page → Page
  step (Event.choose picks) page = add_files batch_setting picks page
  step (Event.drop picks) page = drop_files batch_setting picks page
  step (Event.paste picks) page = paste_files batch_setting picks page
  step (Event.set_dragging on) page = record page { drag_active = on }
  step (Event.choose_visibility choice) page = record page { choice = choice }
  step Event.press_submit page = submit concurrency_setting page
  step (Event.press_retry item) page = retry item page
  step Event.press_clear page = clear_queue page
  step (Event.press_cancel item) page = cancel item page
  step (Event.confirm_leave is_blocked) page = (leave_upload is_blocked page).0
  step Event.unmounted page = unmount page
  step Event.items_changed page = retain_urls page
  step (Event.worker_progress i percent) page = on_worker_progress page.task i percent page
  step (Event.worker_settled i outcome) page = on_worker_settled page.task i outcome page
  step (Event.retry_progress percent) page = on_retry_progress page.task percent page
  step (Event.retry_settled outcome) page = on_retry_settled page.task outcome page
  step Event.invalidated page = on_invalidated page.task page

  unfoldable pub run_events : List Event → Page → Page
  run_events [] page = page
  run_events (e ∷ es) page = run_events es (step e page)

-- The page as it is mounted, with what local storage holds.
abbrev pub initial : Option Visibility → Page
initial stored = record {
  items = [];
  choice = stored;
  message = no_message;
  is_uploading = false;
  drag_active = false;
  is_active = true;
  controllers = [];
  preview_urls = [];
  task = idle;
  made = 0;
  aborted = [];
  revoked = [];
  toasts = [];
}
