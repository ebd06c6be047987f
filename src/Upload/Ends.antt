-- ===== src/Upload/Ends.antt =====
-- What the invariant says of a submitted queue: its concurrency, and its end.
use imagesilo.Common.{
  ℕ, suc, ◌+◌, ◌≤◌, ◌≡◌, refl, ap, ◌∙◌, Bool, true, Option, some, List, [], ◌∷◌, length, count, any,
  all, filter, get_elem?, count-le-length, arith, max, or_else, ◌-◌, ◌⊎◌, inl, inr, sym, false,
  none, nat_beq, nat_eq, Bool-cases, if◌then◌else◌,
}
use imagesilo.Common.Text.{Text}
use imagesilo.Api.{Visibility}
use imagesilo.Upload.Defs.{
  UploadItem, Page, Run, Worker, busy, batch, Task, Outcome, is_unfinished, no_message,
  upload_complete, upload_partial,
}
use imagesilo.Upload.Workers.{
  settle_worker, start_workers, concurrency, submit, is_stopped, finish_batch,
}
use imagesilo.Upload.Steps.{Event, run_events, initial}
use imagesilo.Upload.Runs.{is_busy, IsFair}
use imagesilo.Upload.Runs.Sources.{
  remaining, waiting, start_workers-remaining, settle_worker-remaining, stopped-remaining,
}
use imagesilo.Upload.Runs.Settling.{
  settle_worker-Settled, settle_worker-completed, is_done, measure,
}
use imagesilo.Upload.Steady.{
  TaskOk, run_events-IsSteady, initial-IsSteady, submitted_run, IsFair-weaken,
}

all_stopped :
    (ws : List Worker)
    → all is_stopped ws ≡ true
    → 1 ≤ length ws
    → (any is_stopped ws ≡ true) × (count is_busy ws ≡ 0)
all_stopped [] h k = absurd (omega arith)
all_stopped (w ∷ []) h k = ground arith
all_stopped (w ∷ v ∷ ws) h k = ground (arith, all_stopped (v ∷ ws))

module _ (batch_setting concurrency_setting : Option ℕ) (fallback : Text) where
  abbrev reached : Option Visibility → List Event → Page
  reached stored es = run_events batch_setting concurrency_setting fallback es (initial stored)

  task_ok :
      (stored : Option Visibility) (es : List Event) (run : Run)
      → (reached stored es).task ≡ batch run
      → TaskOk (max 1 (or_else concurrency_setting 1)) (reached stored es).is_active (batch run)
  task_ok stored es run e = rw e at (
      (run_events-IsSteady batch_setting concurrency_setting fallback es (initial stored)
        (initial-IsSteady _ stored)).task_ok)

  -- At every time, whatever events have happened in whatever order, a submitted queue has at most
  -- as many uploads under way as the service's setting for concurrency says (one without a
  -- setting, and one where it is zero), and the page is marked as uploading.
  pub workers_bounded :
      (stored : Option Visibility) (es : List Event) (run : Run)
      → (reached stored es).task ≡ batch run
      → (count is_busy run.workers ≤ max 1 (or_else concurrency_setting 1))
        × ((reached stored es).is_uploading ≡ true)
  workers_bounded stored es run e =
      let steady =
        run_events-IsSteady batch_setting concurrency_setting fallback es (initial stored)
          (initial-IsSteady (max 1 (or_else concurrency_setting 1)) stored) in
      let ok = task_ok stored es run e in
      (omega (arith, count-le-length is_busy run.workers, ok.2), steady.guarded (rw e refl))

-- A run and its page, and what they have become after the uploads of the items `es` have ended,
-- `s` of them with a success. In between the page may change in any way that does not make it active again.
pub data Ended (fallback : Text) (run : Run) (page : Page)
    : List UploadItem → ℕ → Run → Page → Type 0 where
  here : Ended fallback run page [] 0 run page
  next :
      {es : List UploadItem} {s : ℕ} {run' : Run} {page' : Page} (i : ℕ) (outcome : Outcome)
      (source : UploadItem) (c : ℕ)
      → Ended fallback run page es s run' page'
      → get_elem? run'.workers i ≡ some (busy source c)
      → Ended fallback run page
          (source ∷ es)
          (if is_done outcome then suc s else s)
          (settle_worker fallback i outcome run' page').0
          (settle_worker fallback i outcome run' page').1
  changed :
      {es : List UploadItem} {s : ℕ} {run' : Run} {page' : Page} (page'' : Page)
      → Ended fallback run page es s run' page'
      → (page''.is_active ≡ true → page'.is_active ≡ true)
      → Ended fallback run page es s run' page''

record After (run : Run) (es : List UploadItem) (s : ℕ) (run' : Run) (page' : Page) : Type 0 where
  fair : IsFair page'.is_active run'
  left : length es + measure run' ≡ measure run
  same_queue : run'.queue ≡ run.queue
  same_length : length run'.workers ≡ length run.workers
  succeeded : run'.completed ≡ s + run.completed
  same_items : (p : UploadItem → Bool) → count p es + remaining p run' ≡ remaining p run

Ended-After :
    {fallback : Text} {run : Run} {page : Page} {es : List UploadItem} {s : ℕ} {run' : Run}
    {page' : Page}
    → Ended fallback run page es s run' page'
    → IsFair page.is_active run
    → After run es s run' page'
Ended-After here f = record {
  fair = f;
  left = omega arith;
  same_queue = refl;
  same_length = refl;
  succeeded = omega arith;
  same_items = λ p. omega arith;
}
Ended-After {fallback} (next {es} {s} {run'} {page'} i outcome source c before found) f =
    let a = Ended-After before f in
    let r = settle_worker-Settled fallback i outcome run' page' source c found a.fair in
    let results = settle_worker-completed fallback i outcome run' page' source c found a.fair in
    record {
      fair = r.0.fair;
      left = omega (arith, a.left, r.1);
      same_queue = r.0.same_queue ∙ a.same_queue;
      same_length = r.0.same_length ∙ a.same_length;
      succeeded = ground (arith, results, a.succeeded);
      same_items = λ p. omega (
        arith,
        a.same_items p,
        settle_worker-remaining p fallback i outcome run' page' source c found a.fair,
      );
    }
Ended-After (changed {es} {s} {run'} {page'} page'' before quiet) f =
    let a = Ended-After before f in
    record {
      fair = IsFair-weaken page'.is_active page''.is_active run' quiet a.fair;
      left = a.left;
      same_queue = a.same_queue;
      same_length = a.same_length;
      succeeded = a.succeeded;
      same_items = a.same_items;
    }

stopped_measure :
    (is_active : Bool) (run : Run)
    → IsFair is_active run
    → 1 ≤ length run.workers
    → is_active ≡ true
    → all is_stopped run.workers ≡ true
    → measure run ≡ 0
unfolding measure
stopped_measure is_active run f some_worker on ended =
    let r = all_stopped run.workers ended some_worker in omega (arith, r.1, f.drained on r.0)

-- The notice at the end of a batch: of `s` results, or of `s` results and of the uploads that failed.
batch_notice :
    (s total : ℕ) (run : Run) (page : Page)
    → page.is_active ≡ true
    → run.completed ≡ s
    → length run.queue ≡ total
    → s ≤ total
    → ((s ≡ total) × ((finish_batch run page).toasts ≡ upload_complete s ∷ page.toasts))
      ⊎ ((failed : ℕ) × (1 ≤ failed)
          × (s + failed ≡ total)
          × ((finish_batch run page).toasts ≡ upload_partial s failed ∷ page.toasts))
unfolding finish_batch
batch_notice s total run page on e k h = elim (Bool-cases (nat_beq s total)) [
  | inl same ↦ inl (ground (arith, same), rw (on, e, k, same) refl)
  | inr other ↦
      inr (total - s, ground (arith, other, h), omega (arith, h), rw (on, e, k, other) refl)
]

-- A page with items that are left to upload, that is active and does not upload yet; and the run that
-- `submit` makes of them.
module _ (concurrency_setting : Option ℕ) (fallback : Text) (page : Page) (run : Run)
    (some_queue : nat_beq (length (filter is_unfinished page.items)) 0 ≡ false)
    (free : page.is_uploading ≡ false) (active : page.is_active ≡ true)
    (made : (submit concurrency_setting page).task ≡ batch run) where
  abbrev first_workers : Run × Page
  first_workers =
      let queue = filter is_unfinished page.items in
      start_workers (concurrency concurrency_setting (length queue))
        (record { queue = queue; next_index = 0; completed = 0; workers = [] })
        (record page { is_uploading = true; message = no_message })

  submit_free :
      submit concurrency_setting page ≡ record (first_workers.1) { task = batch (first_workers.0) }
  submit_free = unfold submit in rw (some_queue, free, active) refl

  same_run : first_workers.0 ≡ run
  same_run = batch_injective (sym (ap (λ p. p.task) submit_free) ∙ made)
    where
      batch_injective : {a b : Run} → Path Task (batch a) (batch b) → a ≡ b
      batch_injective e = cc

  same_activity : first_workers.1.is_active ≡ (submit concurrency_setting page).is_active
  same_activity = sym (ap (λ p. p.is_active) submit_free)

  submitted-IsFair : IsFair (submit concurrency_setting page).is_active run
  submitted-IsFair =
      let s = submitted_run none concurrency_setting fallback page in
      rw (sym same_run, sym same_activity) s.fair

  submitted_facts :
      (measure run ≡ length (filter is_unfinished page.items))
      × (run.queue ≡ filter is_unfinished page.items)
      × (run.completed ≡ 0)
      × (1 ≤ length run.workers)
  submitted_facts =
      let s = submitted_run none concurrency_setting fallback page in
      rw (sym same_run) (
        unfold measure in omega (arith, s.fair.taken, s.in_step, ap length s.same_queue),
        s.same_queue,
        s.same_completed,
        omega (arith, s.grown),
      )

  finished :
      (es : List UploadItem) (s : ℕ) (run' : Run) (page' : Page)
      → Ended fallback run (submit concurrency_setting page) es s run' page'
      → page'.is_active ≡ true
      → all is_stopped run'.workers ≡ true
      → length es ≡ length (filter is_unfinished page.items)
  finished es s run' page' ended on stopped_all =
      let a = Ended-After ended submitted-IsFair in
      let some_worker : 1 ≤ length run'.workers = omega (arith, a.same_length, submitted_facts.3) in
      omega (
        arith,
        a.left,
        submitted_facts.0,
        stopped_measure page'.is_active run' a.fair some_worker on stopped_all,
      )

  submitted_remaining :
      (p : UploadItem → Bool) → remaining p run ≡ count p (filter is_unfinished page.items)
  submitted_remaining p = rw (sym same_run) (
      start_workers-remaining p
        (concurrency concurrency_setting (length (filter is_unfinished page.items)))
        (record {
          queue = filter is_unfinished page.items;
          next_index = 0;
          completed = 0;
          workers = [];
        })
        (record page { is_uploading = true; message = no_message })
        (record { taken = omega arith; counted = omega arith; drained = λ on h. cc })
      ∙ (unfold remaining waiting in omega arith))

  same_as_queue :
      (p : UploadItem → Bool) (es : List UploadItem) (s : ℕ) (run' : Run) (page' : Page)
      → Ended fallback run (submit concurrency_setting page) es s run' page'
      → page'.is_active ≡ true
      → all is_stopped run'.workers ≡ true
      → count p es ≡ count p (filter is_unfinished page.items)
  same_as_queue p es s run' page' ended on stopped_all =
      let a = Ended-After ended submitted-IsFair in
      let some_worker : 1 ≤ length run'.workers = omega (arith, a.same_length, submitted_facts.3) in
      omega (
        arith,
        a.same_items p,
        submitted_remaining p,
        stopped-remaining p run' stopped_all
            (a.fair.drained on (all_stopped run'.workers stopped_all some_worker).0),
      )

  -- After a press that submits a queue, with items to upload on an active page that does not upload yet:
  -- once every worker has stopped and the page is still active, the uploads that have ended are those of
  -- the items to upload, each once, whichever ended in whichever order: there are as many of them, as many
  -- of them pass any test, and the queue is those items.
  pub each_item_once :
      (p : UploadItem → Bool) (es : List UploadItem) (s : ℕ) (run' : Run) (page' : Page)
      → Ended fallback run (submit concurrency_setting page) es s run' page'
      → page'.is_active ≡ true
      → all is_stopped run'.workers ≡ true
      → (length es ≡ length (filter is_unfinished page.items))
        × (count p es ≡ count p (filter is_unfinished page.items))
        × (run'.queue ≡ filter is_unfinished page.items)
  each_item_once p es s run' page' ended on stopped_all = (
    finished es s run' page' ended on stopped_all,
    same_as_queue p es s run' page' ended on stopped_all,
    (Ended-After ended submitted-IsFair).same_queue ∙ submitted_facts.1,
  )

  -- After a press that submits a queue, with items to upload on an active page that does not upload yet,
  -- once every worker has stopped and the page is still active, the end of the batch leaves the page ready
  -- for the next one, and its notice counts what happened: if all uploads succeeded, it is the notice of
  -- success with their number, and else the one of a part, with the number of those that succeeded and
  -- the number, at least one, of the others.
  pub queue_drained :
      (es : List UploadItem) (s : ℕ) (run' : Run) (page' : Page)
      → Ended fallback run (submit concurrency_setting page) es s run' page'
      → page'.is_active ≡ true
      → all is_stopped run'.workers ≡ true
      → ((finish_batch run' page').is_uploading ≡ false)
        × (((s ≡ length (filter is_unfinished page.items))
              × ((finish_batch run' page').toasts ≡ upload_complete s ∷ page'.toasts))
            ⊎ ((failed : ℕ) × (1 ≤ failed)
                × (s + failed ≡ length (filter is_unfinished page.items))
                × ((finish_batch run' page').toasts ≡ upload_partial s failed ∷ page'.toasts)))
  queue_drained es s run' page' ended on stopped_all =
      let a = Ended-After ended submitted-IsFair in
      let total : length run'.queue ≡ length (filter is_unfinished page.items) =
        ap length (a.same_queue ∙ submitted_facts.1) in
      let results : run'.completed ≡ s = omega (arith, a.succeeded, submitted_facts.2) in
      (
        unfold finish_batch in rw on refl,
        batch_notice s (length (filter is_unfinished page.items)) run' page' on results total
            (omega (arith, results, total, a.fair.counted, a.fair.taken)),
      )
