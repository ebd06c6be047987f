-- ===== src/Upload/Runs/Settling.antt =====
-- One upload of a run ends, and its worker goes on.
use imagesilo.Common.{
  ℕ, zero, suc, ◌+◌, ◌-◌, ◌≤◌, ◌≡◌, refl, sym, ap, ◌∙◌, Bool, true, false, ◌||◌, some, List, [],
  ◌∷◌, length, count, any, get_elem?, set, length-set, arith, if◌then◌else◌,
}
use imagesilo.Common.Text.{Text}
use imagesilo.Upload.Defs.{
  UploadItem, Page, Run, Worker, busy, Outcome, done, unauthorized, aborted, api_error, other_error,
}
use imagesilo.Upload.Queue.{update_item}
use imagesilo.Upload.Workers.{settle_upload, take_next, settle_worker, is_stopped}
use imagesilo.Upload.Runs.{is_busy, IsFair, Taken, take_next-Taken}

module _ {ℓ} {A : Type ℓ} (p : A → Bool) where
  pub count-set :
      (xs : List A) (i : ℕ) (x v : A)
      → get_elem? xs i ≡ some x
      → count p (set xs i v) + (if p x then 1 else 0) ≡ count p xs + (if p v then 1 else 0)
  count-set [] i x v h = cc
  count-set (y ∷ xs) zero x v h = ground arith
  count-set (y ∷ xs) (suc i) x v h = omega (arith, count-set xs i x v h)

  any-set : (xs : List A) (i : ℕ) (v : A) → any p (set xs i v) ≡ true → (p v || any p xs) ≡ true
  any-set [] i v h = cc
  any-set (y ∷ xs) zero v h = ground arith
  any-set (y ∷ xs) (suc i) v h = ground (arith, any-set xs i v)

update_item-is_active :
    (id : ℕ) (patch : UploadItem → UploadItem) (page : Page)
    → (update_item id patch page).is_active ≡ page.is_active
unfolding update_item
update_item-is_active id patch page = ground arith

-- The end of an upload never makes the page active again.
pub settle_upload-is_active :
    (fallback : Text) (source : UploadItem) (c : ℕ) (outcome : Outcome) (page : Page)
    → (settle_upload fallback source c outcome page).0.is_active ≡ true
    → page.is_active ≡ true
unfolding settle_upload
settle_upload-is_active fallback source c (done image) page h = ground arith
settle_upload-is_active fallback source c unauthorized page h = cc
settle_upload-is_active fallback source c _ page h = ground arith

update_item-is_uploading :
    (id : ℕ) (patch : UploadItem → UploadItem) (page : Page)
    → (update_item id patch page).is_uploading ≡ page.is_uploading
unfolding update_item
update_item-is_uploading id patch page = ground arith

pub settle_upload-is_uploading :
    (fallback : Text) (source : UploadItem) (c : ℕ) (outcome : Outcome) (page : Page)
    → (settle_upload fallback source c outcome page).0.is_uploading ≡ page.is_uploading
unfolding settle_upload
settle_upload-is_uploading fallback source c unauthorized page = refl
settle_upload-is_uploading fallback source c _ page = ground arith

abbrev pub is_done : Outcome → Bool
is_done (done image) = true
is_done _ = false

settle_upload-is_done :
    (fallback : Text) (source : UploadItem) (c : ℕ) (outcome : Outcome) (page : Page)
    → (settle_upload fallback source c outcome page).1 ≡ is_done outcome
unfolding settle_upload
settle_upload-is_done fallback source c (done image) page = refl
settle_upload-is_done fallback source c unauthorized page = refl
settle_upload-is_done fallback source c (aborted message) page = refl
settle_upload-is_done fallback source c (api_error message) page = refl
settle_upload-is_done fallback source c (other_error message) page = refl

-- The uploads that are still to end: the items left, and one for each upload under way.
unfoldable pub measure : Run → ℕ
measure run = (length run.queue - run.next_index) + count is_busy run.workers

pub record Settled (run : Run) (page : Page) (i : ℕ) (run' : Run) (page' : Page) : Type 0 where
  pub fair : IsFair page'.is_active run'
  pub same_queue : run'.queue ≡ run.queue
  pub same_length : length run'.workers ≡ length run.workers
  pub still_active : page'.is_active ≡ true → page.is_active ≡ true
  pub same_uploading : page'.is_uploading ≡ page.is_uploading

module _ (run : Run) (page page₁ : Page) (i : ℕ) (source : UploadItem) (c results : ℕ) where
  abbrev run₁ : Run
  run₁ = record run { completed = results }

  -- After an upload has ended, with one more result or none.
  advance :
      get_elem? run.workers i ≡ some (busy source c)
      → results ≤ suc run.completed
      → IsFair page.is_active run
      → (page₁.is_active ≡ true → page.is_active ≡ true)
      → page₁.is_uploading ≡ page.is_uploading
      → (worker : Worker) (run' : Run) (page' : Page) → Taken run₁ page₁ worker run' page'
      → Settled run page i (record run' { workers = set run'.workers i worker }) page'
        × (suc (measure (record run' { workers = set run'.workers i worker })) ≡ measure run)
  unfolding measure
  advance found small f active uploads worker run' page' t =
      let busy_now = count-set is_busy run.workers i (busy source c) worker found in
      let queues : length run'.queue ≡ length run.queue = ap length t.same_queue in
      let sets : count is_busy (set run'.workers i worker)
          ≡ count is_busy (set run.workers i worker) =
        ap (λ ws. count is_busy (set ws i worker)) t.same_workers in
      (
        record {
          fair = record {
            taken = omega (arith, t.within, queues);
            counted =
                ground (arith, busy_now, sets, f.counted, t.advanced, t.same_completed, small);
            drained = λ on some_stopped. ground (
              arith,
              any-set is_stopped run'.workers i worker some_stopped,
              ap (any is_stopped) t.same_workers,
              queues,
              f.drained (active (sym t.same_active ∙ on)),
              t.stops_late (sym t.same_active ∙ on),
              t.advanced,
              t.within,
            );
          };
          same_queue = t.same_queue;
          same_length =
              ap length (ap (λ ws. set ws i worker) t.same_workers)
              ∙ length-set run.workers i worker;
          same_uploading = t.same_uploading ∙ uploads;
          still_active = λ on. active (sym t.same_active ∙ on);
        },
        ground (arith, busy_now, sets, queues, t.advanced, t.within, f.taken),
      )

-- When an upload ends, the run stays fair, its queue and its number of workers stay the same, and it
-- is closer to its end by one.
pub settle_worker-Settled :
    (fallback : Text) (i : ℕ) (outcome : Outcome) (run : Run) (page : Page) (source : UploadItem)
    (c : ℕ)
    → get_elem? run.workers i ≡ some (busy source c)
    → IsFair page.is_active run
    → Settled run page i
        (settle_worker fallback i outcome run page).0
        (settle_worker fallback i outcome run page).1
      × (suc (measure (settle_worker fallback i outcome run page).0) ≡ measure run)
unfolding settle_worker
settle_worker-Settled fallback i outcome run page source c found f =
    rw (found, settle_worker) (go (settle_upload fallback source c outcome page).1)
  where
    page₁ : Page
    page₁ = (settle_upload fallback source c outcome page).0

    go :
        (succeeded : Bool)
        → let run₁ = record run {
          completed = if succeeded then suc run.completed else run.completed;
        } in
          let next = take_next run₁ page₁ in
          Settled run page i (record next.1 { workers = set next.1.workers i next.0 }) next.2
          × (suc (measure (record next.1 { workers = set next.1.workers i next.0 })) ≡ measure run)
    go succeeded =
        let run₁ = record run {
          completed = if succeeded then suc run.completed else run.completed;
        } in
        let next = take_next run₁ page₁ in
        advance run page page₁ i source c run₁.completed found (ground arith) f
          (settle_upload-is_active fallback source c outcome page)
          (settle_upload-is_uploading fallback source c outcome page) next.0 next.1 next.2
          (take_next-Taken run₁ page₁ f.taken)

-- The end of an upload adds to the results if the upload succeeded, and else leaves them.
pub settle_worker-completed :
    (fallback : Text) (i : ℕ) (outcome : Outcome) (run : Run) (page : Page) (source : UploadItem)
    (c : ℕ)
    → get_elem? run.workers i ≡ some (busy source c)
    → IsFair page.is_active run
    → (settle_worker fallback i outcome run page).0.completed
      ≡ (if is_done outcome then suc run.completed else run.completed)
unfolding settle_worker
settle_worker-completed fallback i outcome run page source c found f =
    let settled = settle_upload fallback source c outcome page in
    rw (found, settle_worker)
      ((take_next-Taken
          (record run { completed = if settled.1 then suc run.completed else run.completed })
          settled.0 f.taken).same_completed
        ∙ ap (λ succeeded. if succeeded then suc run.completed else run.completed)
            (settle_upload-is_done fallback source c outcome page))
