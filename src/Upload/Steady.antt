-- ===== src/Upload/Steady.antt =====
-- An invariant of the page over every sequence of events.
use imagesilo.Common.{
  ℕ, ◌≤◌, ◌≡◌, refl, sym, ap, ◌∙◌, Bool, true, false, not, ◌||◌, Option, List, [], ◌∷◌, length, all,
  filter, get_elem?, arith, inl, inr, Bool-cases, Option-cases, max, or_else, nat_beq,
}
use imagesilo.Common.Text.{Text}
use imagesilo.Upload.Defs.{
  UploadItem, Page, Run, busy, stopped, Task, idle, batch, single, retried, Outcome, is_unfinished,
  no_message,
}
use imagesilo.Api.{Visibility}
use imagesilo.Upload.Queue.{
  Pick, update_item, add_files, drop_files, paste_files, cancel, clear_queue, leave_upload, unmount,
  retain_urls,
}
use imagesilo.Upload.Workers.{
  start_upload, settle_worker, start_workers, submit, concurrency, is_stopped, finish_batch, retry,
  finish_retry, report_progress,
}
use imagesilo.Upload.Steps.{
  Event, on_worker_progress, on_worker_settled, on_retry_progress, on_retry_settled, on_invalidated,
  step, run_events, initial,
}
use imagesilo.Upload.Runs.{IsFair, Started, start_workers-Started, start_upload-is_uploading}
use imagesilo.Upload.Runs.Settling.{settle_worker-Settled, settle_upload-is_uploading}

abbrev pub is_idle : Task → Bool
is_idle idle = true
is_idle _ = false

-- A run under way is fair and has at least one and at most `bound` workers.
abbrev pub TaskOk : ℕ → Bool → Task → Type 0
TaskOk bound is_active (batch run) =
    IsFair is_active run × (1 ≤ length run.workers) × (length run.workers ≤ bound)
TaskOk bound is_active _ = Unit

pub record IsSteady (bound : ℕ) (page : Page) : Type 0 where
  pub guarded : is_idle page.task ≡ false → page.is_uploading ≡ true
  pub task_ok : TaskOk bound page.is_active page.task

-- A change that leaves the uploads alone, but may end the page's activity.
pub record Keeps (page page' : Page) : Type 0 where
  pub same_task : page'.task ≡ page.task
  pub same_uploading : page'.is_uploading ≡ page.is_uploading
  pub no_revival : page'.is_active ≡ true → page.is_active ≡ true

pub IsFair-weaken : (a b : Bool) (run : Run) → (b ≡ true → a ≡ true) → IsFair a run → IsFair b run
IsFair-weaken a b run h f = record {
  taken = f.taken;
  counted = f.counted;
  drained = λ on. f.drained (h on);
}

TaskOk-weaken :
    (bound : ℕ) (a b : Bool) (task : Task)
    → (b ≡ true → a ≡ true)
    → TaskOk bound a task
    → TaskOk bound b task
TaskOk-weaken bound a b (batch run) h (f, some_worker, few) =
    (IsFair-weaken a b run h f, some_worker, few)
TaskOk-weaken bound a b _ h ok = tt

Keeps-IsSteady :
    (bound : ℕ) (page page' : Page) → Keeps page page' → IsSteady bound page → IsSteady bound page'
Keeps-IsSteady bound page page' k s = record {
  guarded = λ h. k.same_uploading ∙ s.guarded (sym (ap is_idle k.same_task) ∙ h);
  task_ok =
      rw k.same_task
        (TaskOk-weaken bound page.is_active page'.is_active page.task k.no_revival s.task_ok);
}

update_item-Keeps :
    (id : ℕ) (patch : UploadItem → UploadItem) (page : Page)
    → Keeps page (update_item id patch page)
unfolding update_item
update_item-Keeps id patch page = ground arith

-- The steps that only edit the page.
module _ (batch_setting concurrency_setting : Option ℕ) (fallback : Text) where
  abbrev workers_at_most : ℕ
  workers_at_most = max 1 (or_else concurrency_setting 1)

  on_worker_progress-Keeps :
      (task : Task) (i percent : ℕ) (page : Page)
      → Keeps page
          (on_worker_progress batch_setting concurrency_setting fallback task i percent page)
  unfolding on_worker_progress
  on_worker_progress-Keeps (batch run) i percent page =
      elim (Option-cases (get_elem? run.workers i)) [
        | inl missing ↦ rw (missing, on_worker_progress) (ground arith)
        | inr (busy source c, found) ↦
            rw (found, on_worker_progress)
              (unfold report_progress in update_item-Keeps source.id _ page)
        | inr (stopped, found) ↦ rw (found, on_worker_progress) (ground arith)
      ]
  on_worker_progress-Keeps _ i percent page = ground arith

  on_retry_progress-Keeps :
      (task : Task) (percent : ℕ) (page : Page)
      → Keeps page (on_retry_progress batch_setting concurrency_setting fallback task percent page)
  unfolding on_retry_progress
  on_retry_progress-Keeps (single source c) percent page =
      unfold report_progress in update_item-Keeps source.id _ page
  on_retry_progress-Keeps _ percent page = ground arith

  on_worker_settled-IsSteady :
      (task : Task) (i : ℕ) (outcome : Outcome) (page : Page)
      → page.task ≡ task
      → IsSteady workers_at_most page
      → IsSteady workers_at_most
          (on_worker_settled batch_setting concurrency_setting fallback task i outcome page)
  unfolding on_worker_settled
  on_worker_settled-IsSteady (batch run) i outcome page e s =
      elim (Option-cases (get_elem? run.workers i)) [
        | inl missing ↦ rw (missing, settle_worker) unchanged
        | inr (stopped, found) ↦ rw (found, settle_worker) unchanged
        | inr (busy source c, found) ↦
            let r = (settle_worker-Settled fallback i outcome run page source c found ok.0).0 in
            record {
              guarded = λ h. r.same_uploading ∙ s.guarded (ap is_idle e);
              task_ok =
                  (r.fair, omega (arith, r.same_length, ok.1), omega (arith, r.same_length, ok.2));
            }
      ]
    where
      ok : TaskOk workers_at_most page.is_active (batch run)
      ok = rw e at s.task_ok

      unchanged : IsSteady workers_at_most (record page { task = batch run })
      unchanged = record { guarded = λ h. s.guarded (ap is_idle e); task_ok = ok }
  on_worker_settled-IsSteady _ i outcome page e s = s

  -- The run of a submitted queue starts fair, with all the workers that the setting allows for.
  pub submitted_run :
      (page : Page)
      → let queue = filter is_unfinished page.items in
        Started
          (concurrency concurrency_setting (length queue))
          (record { queue = queue; next_index = 0; completed = 0; workers = [] })
          (record page { is_uploading = true; message = no_message })
          (start_workers
            (concurrency concurrency_setting (length queue))
            (record { queue = queue; next_index = 0; completed = 0; workers = [] })
            (record page { is_uploading = true; message = no_message })).0
          (start_workers
            (concurrency concurrency_setting (length queue))
            (record { queue = queue; next_index = 0; completed = 0; workers = [] })
            (record page { is_uploading = true; message = no_message })).1
  submitted_run page =
      let queue = filter is_unfinished page.items in
      start_workers-Started (concurrency concurrency_setting (length queue))
        (record { queue = queue; next_index = 0; completed = 0; workers = [] })
        (record page { is_uploading = true; message = no_message })
        (record { taken = omega arith; counted = omega arith; drained = λ on h. cc })

  submit-IsSteady :
      (page : Page)
      → IsSteady workers_at_most page
      → IsSteady workers_at_most (submit concurrency_setting page)
  submit-IsSteady page s =
      let queue = filter is_unfinished page.items in
      elim (Bool-cases (nat_beq (length queue) 0 || page.is_uploading || not page.is_active)) [
        | inl blocked ↦ unfold submit in rw blocked s
        | inr free ↦
            let started = submitted_run page in
            unfold submit in
            rw free (record {
              guarded = λ h. started.same_uploading;
              task_ok = (started.fair, omega (arith, started.grown), omega (arith, started.grown));
            })
      ]

  pub retry_active :
      (item : UploadItem) (page : Page)
      → page.is_uploading ≡ false
      → page.is_active ≡ true
      → retry item page ≡ record (start_upload item (record page { is_uploading = true })) {
        task = single item page.made;
      }
  retry_active item page free on = unfold retry in simp (free, on)

  single-IsSteady :
      (item : UploadItem) (page : Page)
      → IsSteady workers_at_most (record (start_upload item (record page { is_uploading = true })) {
        task = single item page.made;
      })
  single-IsSteady item page = record {
    guarded = λ h. start_upload-is_uploading item (record page { is_uploading = true });
    task_ok = tt;
  }

  retry-IsSteady :
      (item : UploadItem) (page : Page)
      → IsSteady workers_at_most page
      → IsSteady workers_at_most (retry item page)
  retry-IsSteady item page s = elim (Bool-cases page.is_uploading) [
    | inl uploading ↦ unfold retry in simp uploading s
    | inr free ↦ elim (Bool-cases page.is_active) [
      | inl on ↦ rw (retry_active item page free on) (single-IsSteady item page)
      | inr off ↦ unfold retry in rw (free, off) (record { guarded = λ h. refl; task_ok = tt })
    ]
  ]

  finish_batch-IsSteady :
      (run : Run) (page : Page) → IsSteady workers_at_most (finish_batch run page)
  finish_batch-IsSteady run page = elim (Bool-cases page.is_active) [
    | inl on ↦ unfold finish_batch in rw on (record { guarded = λ h. cc; task_ok = tt })
    | inr off ↦ unfold finish_batch in rw off (record { guarded = λ h. cc; task_ok = tt })
  ]

  finish_retry-IsSteady :
      (succeeded : Bool) (page : Page) → IsSteady workers_at_most (finish_retry succeeded page)
  finish_retry-IsSteady succeeded page = elim (Bool-cases page.is_active) [
    | inl on ↦ unfold finish_retry in rw on (record { guarded = λ h. cc; task_ok = tt })
    | inr off ↦ unfold finish_retry in rw off (record { guarded = λ h. cc; task_ok = tt })
  ]

  on_invalidated-IsSteady :
      (task : Task) (page : Page)
      → page.task ≡ task
      → IsSteady workers_at_most page
      → IsSteady workers_at_most
          (on_invalidated batch_setting concurrency_setting fallback task page)
  on_invalidated-IsSteady (batch run) page e s = elim (Bool-cases (all is_stopped run.workers)) [
    | inl ended ↦ unfold on_invalidated in rw ended (finish_batch-IsSteady run page)
    | inr waiting ↦ unfold on_invalidated in rw waiting s
  ]
  on_invalidated-IsSteady (retried succeeded) page e s =
      unfold on_invalidated in finish_retry-IsSteady succeeded page
  on_invalidated-IsSteady _ page e s = unfold on_invalidated in s

  on_retry_settled-IsSteady :
      (task : Task) (outcome : Outcome) (page : Page)
      → page.task ≡ task
      → IsSteady workers_at_most page
      → IsSteady workers_at_most
          (on_retry_settled batch_setting concurrency_setting fallback task outcome page)
  unfolding on_retry_settled
  on_retry_settled-IsSteady (single source c) outcome page e s = record {
    guarded =
        λ h. settle_upload-is_uploading fallback source c outcome page ∙ s.guarded (ap is_idle e);
    task_ok = tt;
  }
  on_retry_settled-IsSteady _ outcome page e s = s

  add_files-Keeps :
      (picks : List Pick) (page : Page) → Keeps page (add_files batch_setting picks page)
  unfolding add_files
  add_files-Keeps picks page = ground arith

  step-IsSteady :
      (e : Event) (page : Page)
      → IsSteady workers_at_most page
      → IsSteady workers_at_most (step batch_setting concurrency_setting fallback e page)
  step-IsSteady (Event.choose picks) page s =
      unfold step in Keeps-IsSteady _ page _ (add_files-Keeps picks page) s
  step-IsSteady (Event.drop picks) page s =
      unfold step drop_files in
      Keeps-IsSteady _ (record page { drag_active = false }) _
        (add_files-Keeps picks (record page { drag_active = false }))
        (Keeps-IsSteady _ page (record page { drag_active = false }) (ground arith) s)
  step-IsSteady (Event.paste []) page s = unfold step paste_files in s
  step-IsSteady (Event.paste (pick ∷ picks)) page s =
      unfold step paste_files in Keeps-IsSteady _ page _ (add_files-Keeps (pick ∷ picks) page) s
  step-IsSteady (Event.set_dragging on) page s =
      unfold step in Keeps-IsSteady _ page (record page { drag_active = on }) (ground arith) s
  step-IsSteady (Event.choose_visibility choice) page s =
      unfold step in Keeps-IsSteady _ page (record page { choice = choice }) (ground arith) s
  step-IsSteady Event.press_submit page s = unfold step in submit-IsSteady page s
  step-IsSteady (Event.press_retry item) page s = unfold step in retry-IsSteady item page s
  step-IsSteady Event.press_clear page s =
      unfold step clear_queue in Keeps-IsSteady _ page (clear_queue page) (ground arith) s
  step-IsSteady (Event.press_cancel item) page s =
      unfold step cancel in Keeps-IsSteady _ page (cancel item page) (ground arith) s
  step-IsSteady (Event.confirm_leave is_blocked) page s =
      unfold step leave_upload in
      Keeps-IsSteady _ page ((leave_upload is_blocked page).0) (ground arith) s
  step-IsSteady Event.unmounted page s =
      unfold step unmount in Keeps-IsSteady _ page (unmount page) (ground arith) s
  step-IsSteady Event.items_changed page s =
      unfold step retain_urls in Keeps-IsSteady _ page (retain_urls page) (ground arith) s
  step-IsSteady (Event.worker_progress i percent) page s =
      unfold step in Keeps-IsSteady _ page _ (on_worker_progress-Keeps page.task i percent page) s
  step-IsSteady (Event.worker_settled i outcome) page s =
      unfold step in on_worker_settled-IsSteady page.task i outcome page refl s
  step-IsSteady (Event.retry_progress percent) page s =
      unfold step in Keeps-IsSteady _ page _ (on_retry_progress-Keeps page.task percent page) s
  step-IsSteady (Event.retry_settled outcome) page s =
      unfold step in on_retry_settled-IsSteady page.task outcome page refl s
  step-IsSteady Event.invalidated page s =
      unfold step in on_invalidated-IsSteady page.task page refl s

  pub run_events-IsSteady :
      (es : List Event) (page : Page)
      → IsSteady workers_at_most page
      → IsSteady workers_at_most (run_events batch_setting concurrency_setting fallback es page)
  unfolding run_events
  run_events-IsSteady [] page s = s
  run_events-IsSteady (e ∷ es) page s =
      run_events-IsSteady es (step batch_setting concurrency_setting fallback e page)
        (step-IsSteady e page s)

pub initial-IsSteady : (bound : ℕ) (stored : Option Visibility) → IsSteady bound (initial stored)
initial-IsSteady bound stored = record { guarded = λ h. cc; task_ok = tt }
