-- ===== src/Upload/Runs/Sources.antt =====
-- Which items a run's workers have: whatever is counted among them and the items left stays in the queue.
use imagesilo.Common.{
  ℕ, zero, suc, ◌+◌, ◌≡◌, refl, ap, Bool, true, false, ◌&&◌, some, List, [], ◌∷◌, ◌++◌, length,
  count, all, drop, get_elem?, set, get_elem?-some, count-append, arith, ltb, if◌then◌else◌, inl,
  inr, Bool-cases,
}
use imagesilo.Common.Text.{Text}
use imagesilo.Upload.Defs.{UploadItem, Page, Run, Worker, busy, stopped, Outcome}
use imagesilo.Upload.Workers.{settle_upload, take_next, start_workers, settle_worker, is_stopped}
use imagesilo.Upload.Runs.{IsFair, take_next-Taken, push-IsFair}
use imagesilo.Upload.Runs.Settling.{count-set}

module _ (p : UploadItem → Bool) where
  abbrev pub holds : Worker → Bool
  holds stopped = false
  holds (busy source c) = p source

  unfoldable pub waiting : Run → ℕ
  waiting run = count p (drop run.next_index run.queue)

  -- The items of a test that are under way or not taken yet.
  unfoldable pub remaining : Run → ℕ
  unfolding waiting
  remaining run = count holds run.workers + waiting run

  count-drop :
      (xs : List UploadItem) (i : ℕ) (x : UploadItem)
      → get_elem? xs i ≡ some x
      → (if p x then 1 else 0) + count p (drop (suc i) xs) ≡ count p (drop i xs)
  count-drop [] i x e = cc
  count-drop (y ∷ xs) zero x e = ground (arith, e)
  count-drop (y ∷ xs) (suc i) x e = count-drop xs i x e

  take_next-waiting :
      (run : Run) (page : Page)
      → (if holds (take_next run page).0 then 1 else 0) + waiting (take_next run page).1
        ≡ waiting run
  unfolding take_next waiting
  take_next-waiting run page =
      elim (Bool-cases (page.is_active && ltb run.next_index (length run.queue))) [
        | inl on ↦
            let (item, found) = get_elem?-some run.queue run.next_index (ground arith) in
            taking item found on
        | inr off ↦ rw (off, take_next) (omega arith)
      ]
    where
      taking :
          (item : UploadItem)
          → get_elem? run.queue run.next_index ≡ some item
          → (page.is_active && ltb run.next_index (length run.queue)) ≡ true
          → (if holds (take_next run page).0 then 1 else 0) + waiting (take_next run page).1
            ≡ waiting run
      taking item found on =
          rw (on, found, take_next) (count-drop run.queue run.next_index item found)

  pushed :
      (run run' : Run) (worker : Worker)
      → (if holds worker then 1 else 0) + waiting run' ≡ waiting run
      → count holds run'.workers ≡ count holds run.workers
      → count holds (run'.workers ++ worker ∷ [])
        ≡ count holds run'.workers + count holds (worker ∷ [])
      → remaining (record run' { workers = run'.workers ++ worker ∷ [] }) ≡ remaining run
  unfolding remaining waiting
  pushed run run' worker taken same joined = ground (arith, taken, same, joined)

  pub start_workers-remaining :
      (n : ℕ) (run : Run) (page : Page)
      → IsFair page.is_active run
      → remaining (start_workers n run page).0 ≡ remaining run
  unfolding start_workers
  start_workers-remaining zero run page f = refl
  start_workers-remaining (suc n) run page f =
      let t = take_next-Taken run page f.taken in
      let worker = (take_next run page).0 in
      let run' = (take_next run page).1 in
      let page' = (take_next run page).2 in
      let later =
        start_workers-remaining n (record run' { workers = run'.workers ++ worker ∷ [] }) page'
          (push-IsFair run page worker run' page' f t) in
      let taken = take_next-waiting run page in
      let same : count holds run'.workers ≡ count holds run.workers =
        ap (count holds) t.same_workers in
      let joined = count-append holds run'.workers (worker ∷ []) in
      omega (arith, later, pushed run run' worker taken same joined)

  pub settle_worker-remaining :
      (fallback : Text) (i : ℕ) (outcome : Outcome) (run : Run) (page : Page) (source : UploadItem)
      (c : ℕ)
      → get_elem? run.workers i ≡ some (busy source c)
      → IsFair page.is_active run
      → (if p source then 1 else 0) + remaining (settle_worker fallback i outcome run page).0
        ≡ remaining run
  unfolding settle_worker remaining
  settle_worker-remaining fallback i outcome run page source c found f =
      let settled = settle_upload fallback source c outcome page in
      let run₁ : Run = record run {
        completed = if settled.1 then suc run.completed else run.completed;
      } in
      let next = take_next run₁ settled.0 in
      let t = take_next-Taken run₁ settled.0 f.taken in
      let kept : count holds (set next.1.workers i next.0)
          ≡ count holds (set run.workers i next.0) =
        ap (λ ws. count holds (set ws i next.0)) t.same_workers in
      let here : (if holds next.0 then 1 else 0) + waiting next.1 ≡ waiting run =
        take_next-waiting run₁ settled.0 in
      rw (found, settle_worker)
        (omega (arith, count-set holds run.workers i (busy source c) next.0 found, kept, here))

  all_stopped-holds : (ws : List Worker) → all is_stopped ws ≡ true → count holds ws ≡ 0
  all_stopped-holds [] h = refl
  all_stopped-holds (stopped ∷ ws) h = omega (arith, all_stopped-holds ws h)
  all_stopped-holds (busy source c ∷ ws) h = cc

  drop-length : (xs : List UploadItem) → count p (drop (length xs) xs) ≡ 0
  drop-length [] = refl
  drop-length (x ∷ xs) = drop-length xs

  pub stopped-remaining :
      (run : Run)
      → all is_stopped run.workers ≡ true
      → run.next_index ≡ length run.queue
      → remaining run ≡ 0
  unfolding remaining waiting
  stopped-remaining run h e =
      rw e (omega (arith, all_stopped-holds run.workers h, drop-length run.queue))
