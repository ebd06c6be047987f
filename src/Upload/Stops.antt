-- ===== src/Upload/Stops.antt =====
-- Once the page is inactive (left, unmounted, or signed out) it starts no upload, changes no item by
-- an answer of the network, and shows no notice.
use imagesilo.Common.{
  ℕ, ◌≡◌, refl, ◌∙◌, Bool, true, false, Option, none, some, List, [], ◌∷◌, ◌++◌, get_elem?, arith,
  set, suc, ◌⊎◌, filter, length, nat_beq, All, if◌then◌else◌, inl, inr, Option-cases, ◌||◌, not,
  nat_eq,
}
use mathlib.Core.Path.{subst}
use mathlib.Core.List.{append_assoc}
use imagesilo.Common.Text.{Text}
use imagesilo.Common.Collections.{has, has-append}
use imagesilo.Upload.Defs.{
  UploadItem, Page, Run, busy, stopped, Task, batch, single, retried, Outcome, unauthorized,
  is_unfinished,
}
use imagesilo.Upload.Queue.{
  Pick, update_item, add_files, drop_files, paste_files, cancel, clear_queue, leave_upload, unmount,
  retain_urls,
}
use imagesilo.Upload.Workers.{
  settle_upload, settle_worker, take_next, submit, retry, report_progress,
}
use imagesilo.Upload.Steps.{
  Event, on_worker_progress, on_worker_settled, on_retry_progress, on_retry_settled, on_invalidated,
  step, run_events,
}

-- Nothing is started, and nothing is shown.
pub record IsQuiet (page page' : Page) : Type 0 where
  pub inactive : page'.is_active ≡ false
  pub none_started : page'.made ≡ page.made
  pub no_notice : page'.toasts ≡ page.toasts

update_item_inactive :
    (id : ℕ) (patch : UploadItem → UploadItem) (page : Page)
    → page.is_active ≡ false
    → update_item id patch page ≡ page
update_item_inactive id patch page off = unfold update_item in simp off

settle_upload-IsQuiet :
    (fallback : Text) (source : UploadItem) (c : ℕ) (outcome : Outcome) (page : Page)
    → page.is_active ≡ false
    → IsQuiet page (settle_upload fallback source c outcome page).0
      × ((settle_upload fallback source c outcome page).0.items ≡ page.items)
unfolding settle_upload
settle_upload-IsQuiet fallback source c unauthorized page off = ground arith
settle_upload-IsQuiet fallback source c _ page off = ground arith

take_next_inactive :
    (run : Run) (page : Page) → page.is_active ≡ false → take_next run page ≡ (stopped, run, page)
take_next_inactive run page off = unfold take_next in simp off

-- The run once worker `i` has learnt how its upload ended, before it goes on.
abbrev pub credited : Bool → Run → Run
credited succeeded run = record run {
  completed = if succeeded then suc run.completed else run.completed;
}

pub settle_worker-busy :
    (fallback : Text) (i : ℕ) (outcome : Outcome) (run : Run) (page : Page) (source : UploadItem)
    (c : ℕ)
    → get_elem? run.workers i ≡ some (busy source c)
    → let ended = settle_upload fallback source c outcome page in
      let next = take_next (credited ended.1 run) ended.0 in
      settle_worker fallback i outcome run page
      ≡ (record next.1 { workers = set next.1.workers i next.0 }, next.2)
settle_worker-busy fallback i outcome run page source c found =
    unfold settle_worker in rw (found, settle_worker) refl

pub settle_worker_unchanged :
    (fallback : Text) (i : ℕ) (outcome : Outcome) (run : Run) (page : Page)
    → (get_elem? run.workers i ≡ none) ⊎ (get_elem? run.workers i ≡ some stopped)
    → settle_worker fallback i outcome run page ≡ (run, page)
settle_worker_unchanged fallback i outcome run page (inl e) =
    unfold settle_worker in rw (e, settle_worker) refl
settle_worker_unchanged fallback i outcome run page (inr e) =
    unfold settle_worker in rw (e, settle_worker) refl

-- Nothing happens to the items either.
abbrev IsFrozen : Page → Page → Type 0
IsFrozen page page' = IsQuiet page page' × (page'.items ≡ page.items)

settle_worker-IsQuiet :
    (fallback : Text) (i : ℕ) (outcome : Outcome) (run : Run) (page : Page)
    → page.is_active ≡ false
    → IsFrozen page (settle_worker fallback i outcome run page).1
settle_worker-IsQuiet fallback i outcome run page off =
    elim (Option-cases (get_elem? run.workers i)) [
      | inl missing ↦
          rw (settle_worker_unchanged fallback i outcome run page (inl missing)) (ground arith)
      | inr (stopped, found) ↦
          rw (settle_worker_unchanged fallback i outcome run page (inr found)) (ground arith)
      | inr (busy source c, found) ↦
          let ended = settle_upload fallback source c outcome page in
          let q = settle_upload-IsQuiet fallback source c outcome page off in
          rw (settle_worker-busy fallback i outcome run page source c found)
            (rw (take_next_inactive (credited ended.1 run) ended.0 q.0.inactive) q)
    ]

module _ (batch_setting concurrency_setting : Option ℕ) (fallback : Text) where
  abbrev step_on : Event → Page → Page
  step_on = step batch_setting concurrency_setting fallback

  on_invalidated-IsFrozen :
      (task : Task) (page : Page)
      → page.is_active ≡ false
      → IsFrozen page (on_invalidated batch_setting concurrency_setting fallback task page)
  unfolding on_invalidated
  on_invalidated-IsFrozen (batch run) page off = ground arith
  on_invalidated-IsFrozen (retried succeeded) page off = ground arith
  on_invalidated-IsFrozen _ page off = ground arith

  on_worker_settled-IsFrozen :
      (task : Task) (i : ℕ) (outcome : Outcome) (page : Page)
      → page.is_active ≡ false
      → IsFrozen page
          (on_worker_settled batch_setting concurrency_setting fallback task i outcome page)
  on_worker_settled-IsFrozen (batch run) i outcome page off =
      let q = settle_worker-IsQuiet fallback i outcome run page off in
      unfold on_worker_settled in
      (
        record {
          inactive = q.0.inactive;
          none_started = q.0.none_started;
          no_notice = q.0.no_notice;
        },
        q.1,
      )
  on_worker_settled-IsFrozen _ i outcome page off = unfold on_worker_settled in ground arith

  on_retry_settled-IsFrozen :
      (task : Task) (outcome : Outcome) (page : Page)
      → page.is_active ≡ false
      → IsFrozen page
          (on_retry_settled batch_setting concurrency_setting fallback task outcome page)
  on_retry_settled-IsFrozen (single source c) outcome page off =
      let q = settle_upload-IsQuiet fallback source c outcome page off in
      unfold on_retry_settled in
      (
        record {
          inactive = q.0.inactive;
          none_started = q.0.none_started;
          no_notice = q.0.no_notice;
        },
        q.1,
      )
  on_retry_settled-IsFrozen _ outcome page off = unfold on_retry_settled in ground arith

  on_worker_progress-IsFrozen :
      (task : Task) (i percent : ℕ) (page : Page)
      → page.is_active ≡ false
      → on_worker_progress batch_setting concurrency_setting fallback task i percent page ≡ page
  on_worker_progress-IsFrozen (batch run) i percent page off =
      elim (Option-cases (get_elem? run.workers i)) [
        | inl missing ↦ unfold on_worker_progress in rw (missing, on_worker_progress) refl
        | inr (stopped, found) ↦ unfold on_worker_progress in rw (found, on_worker_progress) refl
        | inr (busy source c, found) ↦
            unfold on_worker_progress in
            rw (found, on_worker_progress)
              (unfold report_progress in update_item_inactive source.id _ page off)
      ]
  on_worker_progress-IsFrozen _ i percent page off = unfold on_worker_progress in refl

  on_retry_progress-IsFrozen :
      (task : Task) (percent : ℕ) (page : Page)
      → page.is_active ≡ false
      → on_retry_progress batch_setting concurrency_setting fallback task percent page ≡ page
  on_retry_progress-IsFrozen (single source c) percent page off =
      unfold on_retry_progress report_progress in update_item_inactive source.id _ page off
  on_retry_progress-IsFrozen _ percent page off = unfold on_retry_progress in refl

  submit_inactive : (page : Page) → page.is_active ≡ false → submit concurrency_setting page ≡ page
  submit_inactive page off =
      let queue = filter is_unfinished page.items in
      let blocked : (nat_beq (length queue) 0 || page.is_uploading || not page.is_active) ≡ true =
        ground arith in
      unfold submit in simp blocked

  refl-IsQuiet : (page : Page) → page.is_active ≡ false → IsQuiet page page
  refl-IsQuiet page off = record { inactive = off; none_started = refl; no_notice = refl }

  add_files-IsQuiet :
      (picks : List Pick) (page : Page)
      → page.is_active ≡ false
      → IsQuiet page (add_files batch_setting picks page)
  unfolding add_files
  add_files-IsQuiet picks page off = ground arith

  step-IsQuiet : (e : Event) (page : Page) → page.is_active ≡ false → IsQuiet page (step_on e page)
  step-IsQuiet (Event.choose picks) page off = unfold step in add_files-IsQuiet picks page off
  step-IsQuiet (Event.drop picks) page off =
      let q = add_files-IsQuiet picks (record page { drag_active = false }) off in
      unfold step drop_files in
      record { inactive = q.inactive; none_started = q.none_started; no_notice = q.no_notice }
  step-IsQuiet (Event.paste []) page off = unfold step paste_files in refl-IsQuiet page off
  step-IsQuiet (Event.paste (pick ∷ picks)) page off =
      unfold step paste_files in add_files-IsQuiet (pick ∷ picks) page off
  step-IsQuiet (Event.set_dragging on) page off = unfold step in ground arith
  step-IsQuiet (Event.choose_visibility choice) page off = unfold step in ground arith
  step-IsQuiet Event.press_submit page off =
      unfold step in rw (submit_inactive page off) (refl-IsQuiet page off)
  step-IsQuiet (Event.press_retry item) page off = unfold step retry in ground arith
  step-IsQuiet Event.press_clear page off = unfold step clear_queue in ground arith
  step-IsQuiet (Event.press_cancel item) page off = unfold step cancel in ground arith
  step-IsQuiet (Event.confirm_leave is_blocked) page off = unfold step leave_upload in ground arith
  step-IsQuiet Event.unmounted page off = unfold step unmount in ground arith
  step-IsQuiet Event.items_changed page off = unfold step retain_urls in ground arith
  step-IsQuiet (Event.worker_progress i percent) page off =
      unfold step in
      rw (on_worker_progress-IsFrozen page.task i percent page off) (refl-IsQuiet page off)
  step-IsQuiet (Event.worker_settled i outcome) page off =
      unfold step in (on_worker_settled-IsFrozen page.task i outcome page off).0
  step-IsQuiet (Event.retry_progress percent) page off =
      unfold step in
      rw (on_retry_progress-IsFrozen page.task percent page off) (refl-IsQuiet page off)
  step-IsQuiet (Event.retry_settled outcome) page off =
      unfold step in (on_retry_settled-IsFrozen page.task outcome page off).0
  step-IsQuiet Event.invalidated page off =
      unfold step in (on_invalidated-IsFrozen page.task page off).0

  -- An inactive page stays inactive whatever happens: from then on no upload is started, neither by
  -- a worker nor by `submit` or `retry`, and no notice is shown.
  pub inactive_is_final :
      (es : List Event) (page : Page)
      → page.is_active ≡ false
      → IsQuiet page (run_events batch_setting concurrency_setting fallback es page)
  unfolding run_events
  inactive_is_final [] page off = refl-IsQuiet page off
  inactive_is_final (e ∷ es) page off =
      let q = step-IsQuiet e page off in
      let r = inactive_is_final es (step_on e page) q.inactive in
      record {
        inactive = r.inactive;
        none_started = r.none_started ∙ q.none_started;
        no_notice = r.no_notice ∙ q.no_notice;
      }

-- Every member of the first list is in the second.
abbrev Covers : List ℕ → List ℕ → Type 0
Covers cs all_of = All (λ c. has c all_of ≡ true) cs

Covers-append : (ds cs rest : List ℕ) → Covers cs ((ds ++ cs) ++ rest)
Covers-append ds [] rest = tt
Covers-append ds (c ∷ cs) rest = (
  here,
  subst (λ l. Covers cs (l ++ rest)) (append_assoc ds (c ∷ []) cs)
      (Covers-append (ds ++ c ∷ []) cs rest),
)
  where
    here : has c ((ds ++ c ∷ cs) ++ rest) ≡ true
    here =
        rw (has-append c (ds ++ c ∷ cs) rest)
          (rw (has-append c ds (c ∷ cs)) (unfold has in ground arith))

-- An answer that says that the session is over makes the page inactive, aborts every upload under
-- way, and leaves the items as they are.
pub unauthorized_stops :
    (fallback : Text) (source : UploadItem) (c : ℕ) (page : Page)
    → ((settle_upload fallback source c unauthorized page).0.is_active ≡ false)
      × ((settle_upload fallback source c unauthorized page).0.items ≡ page.items)
      × Covers page.controllers (settle_upload fallback source c unauthorized page).0.aborted
      × ((settle_upload fallback source c unauthorized page).1 ≡ false)
unfolding settle_upload
unauthorized_stops fallback source c page =
    (refl, refl, Covers-append [] page.controllers page.aborted, refl)
