-- ===== src/Upload/Runs.antt =====
-- What holds of the workers of a submitted queue, whatever happens in whatever order: no item is
-- taken twice or left out, the concurrency is bounded, and the run ends.
pub mod Settling
pub mod Sources
use imagesilo.Common.{
  ℕ, zero, suc, ◌+◌, ◌-◌, ◌*◌, ◌≤◌, ◌<◌, ◌≡◌, ◌≢◌, refl, sym, ap, ◌∙◌, Bool, true, false, not, ◌&&◌,
  ◌||◌, Option, none, some, List, [], ◌∷◌, ◌++◌, length, count, any, all, get_elem?, set,
  length-set, length-append, count-append, arith, ltb, if◌then◌else◌, inl, inr, Bool-cases,
  Option-cases, min, max, or_else,
}
use imagesilo.Common.Lists.{get_elem?-some}
use imagesilo.Common.Text.{Text}
use imagesilo.Upload.Defs.{
  UploadItem, Page, Run, Worker, busy, stopped, Task, idle, batch, single, retried, Outcome, done,
  unauthorized,
}
use imagesilo.Upload.Queue.{update_item}
use imagesilo.Upload.Workers.{
  start_upload, settle_upload, take_next, start_workers, settle_worker, is_stopped, submit,
  concurrency,
}

abbrev pub is_busy : Worker → Bool
is_busy worker = not (is_stopped worker)

-- Between two events: no more results than items taken, and no worker has left its loop while the
-- page is active and items are left.
pub record IsFair (is_active : Bool) (run : Run) : Type 0 where
  pub taken : run.next_index ≤ length run.queue
  pub counted : run.completed + count is_busy run.workers ≤ run.next_index
  pub drained :
      is_active ≡ true → any is_stopped run.workers ≡ true → run.next_index ≡ length run.queue

-- What one round of the loop does.
pub record Taken (run : Run) (page : Page) (worker : Worker) (run' : Run) (page' : Page)
    : Type 0 where
  pub same_queue : run'.queue ≡ run.queue
  pub same_completed : run'.completed ≡ run.completed
  pub same_workers : run'.workers ≡ run.workers
  pub same_active : page'.is_active ≡ page.is_active
  pub same_uploading : page'.is_uploading ≡ page.is_uploading
  pub advanced : run'.next_index ≡ (if is_busy worker then 1 else 0) + run.next_index
  pub within : run'.next_index ≤ length run.queue
  pub stops_late :
      page.is_active ≡ true → is_stopped worker ≡ true → run'.next_index ≡ length run.queue

start_upload-is_active :
    (source : UploadItem) (page : Page) → (start_upload source page).is_active ≡ page.is_active
unfolding start_upload
start_upload-is_active source page = ground arith

pub start_upload-is_uploading :
    (source : UploadItem) (page : Page)
    → (start_upload source page).is_uploading ≡ page.is_uploading
unfolding start_upload
start_upload-is_uploading source page = ground arith

pub take_next-Taken :
    (run : Run) (page : Page)
    → run.next_index ≤ length run.queue
    → Taken run page (take_next run page).0 (take_next run page).1 (take_next run page).2
unfolding take_next
take_next-Taken run page h =
    elim (Bool-cases (page.is_active && ltb run.next_index (length run.queue))) [
      | inl on ↦
          let (item, found) = get_elem?-some run.queue run.next_index (ground arith) in
          taking item found on
      | inr off ↦ stopping off
    ]
  where
    taking :
        (item : UploadItem)
        → get_elem? run.queue run.next_index ≡ some item
        → (page.is_active && ltb run.next_index (length run.queue)) ≡ true
        → Taken run page (take_next run page).0 (take_next run page).1 (take_next run page).2
    taking item found on =
        rw (on, found, take_next)
          (ground (arith, start_upload-is_active item page, start_upload-is_uploading item page))

    stopping :
        (page.is_active && ltb run.next_index (length run.queue)) ≡ false
        → Taken run page (take_next run page).0 (take_next run page).1 (take_next run page).2
    stopping off = rw (off, take_next) (ground arith)

any-append {ℓ} :
    {A : Type ℓ} (p : A → Bool) (xs ys : List A) → any p (xs ++ ys) ≡ (any p xs || any p ys)
any-append p [] ys = refl
any-append p (x ∷ xs) ys = ground (arith, any-append p xs ys)

-- A worker that has just run its first round joins the others.
pub push-IsFair :
    (run : Run) (page : Page) (worker : Worker) (run' : Run) (page' : Page)
    → IsFair page.is_active run
    → Taken run page worker run' page'
    → IsFair page'.is_active (record run' { workers = run'.workers ++ worker ∷ [] })
push-IsFair run page worker run' page' f t = record {
  taken = omega (arith, t.within, ap length t.same_queue);
  counted = ground (
    arith,
    count-append is_busy run'.workers (worker ∷ []),
    ap (count is_busy) t.same_workers,
    f.counted,
    t.advanced,
    t.same_completed,
  );
  drained = λ on some_stopped. ground (
    arith,
    any-append is_stopped run'.workers (worker ∷ []),
    ap (any is_stopped) t.same_workers,
    ap length t.same_queue,
    f.drained,
    t.stops_late,
    t.advanced,
    t.within,
    t.same_active,
  );
}

pub record Started (n : ℕ) (run : Run) (page : Page) (run' : Run) (page' : Page) : Type 0 where
  pub fair : IsFair page'.is_active run'
  pub same_active : page'.is_active ≡ page.is_active
  pub same_uploading : page'.is_uploading ≡ page.is_uploading
  pub same_queue : run'.queue ≡ run.queue
  pub same_completed : run'.completed ≡ run.completed
  pub grown : length run'.workers ≡ length run.workers + n
  pub in_step :
      run'.next_index + count is_busy run.workers ≡ run.next_index + count is_busy run'.workers

pub start_workers-Started :
    (n : ℕ) (run : Run) (page : Page)
    → IsFair page.is_active run
    → Started n run page (start_workers n run page).0 (start_workers n run page).1
unfolding start_workers
start_workers-Started zero run page f = record {
  fair = f;
  same_active = refl;
  same_uploading = refl;
  same_queue = refl;
  same_completed = refl;
  grown = omega arith;
  in_step = refl;
}
start_workers-Started (suc n) run page f =
    let t = take_next-Taken run page f.taken in
    let worker = (take_next run page).0 in
    let run' = (take_next run page).1 in
    let page' = (take_next run page).2 in
    let later =
      start_workers-Started n (record run' { workers = run'.workers ++ worker ∷ [] }) page'
        (push-IsFair run page worker run' page' f t) in
    record {
      fair = later.fair;
      same_active = later.same_active ∙ t.same_active;
      same_uploading = later.same_uploading ∙ t.same_uploading;
      same_queue = later.same_queue ∙ t.same_queue;
      same_completed = later.same_completed ∙ t.same_completed;
      grown =
          omega (
            arith,
            later.grown,
            length-append run'.workers (worker ∷ []),
            ap length t.same_workers,
          );
      in_step = ground (
        arith,
        later.in_step,
        count-append is_busy run'.workers (worker ∷ []),
        ap (count is_busy) t.same_workers,
        t.advanced,
      );
    }
