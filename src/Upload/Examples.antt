-- ===== src/Upload/Examples.antt =====
-- The upload page's theorems at concrete states, and runs of it.
use imagesilo.Common.{
  ◌==◌, ◌+◌, ◌≤◌, ◌≡◌, refl, true, false, ◌⊎◌, ℕ, none, some, List, [], ◌∷◌, filter, All, length,
  count, nat_eq,
}
use imagesilo.Common.Text.{Text, codes}
use imagesilo.Common.Collections.{has}
use imagesilo.Api.{Visibility, Image}
use imagesilo.Upload.Defs.{
  UploadItem, File, Page, Run, busy, done, api_error, is_supported_image_file, is_unfinished,
  upload_complete, upload_partial,
}
use imagesilo.Upload.Queue.{Pick, unmount, add_files, new_item}
use imagesilo.Upload.Workers.{submit, settle_worker, finish_batch}
use imagesilo.Upload.Steps.{Event, step, run_events, initial}
use imagesilo.Upload.Items.{IsProper, items-IsProper}
use imagesilo.Upload.Runs.{is_busy}
use imagesilo.Upload.Stops.{IsQuiet, inactive_is_final}
use imagesilo.Upload.Ends.{Ended, here, next, workers_bounded, queue_drained, each_item_once}

abbrev file : Text → Text → File
file name mime = record { name = name; mime = mime; size = 1000 }

abbrev picks : List Pick
picks =
    record {
      file = file (codes "a.png") (codes "image/png");
      uuid = 1;
      url = some (codes "blob:1");
    }
    ∷ record { file = file (codes "b.JPG") []; uuid = 2; url = some (codes "blob:2") }
    ∷ record { file = file (codes "c.txt") (codes "text/plain"); uuid = 3; url = none }
    ∷ []

abbrev image : Image
image = record {
  id = codes "x";
  original_name = codes "a.png";
  standard_url = codes "/i/x.png";
  thumbnail_url = codes "/t/x.png";
  extension = codes "png";
  mime_type = codes "image/png";
  width = 10;
  height = 10;
  source_size = 1000;
  stored_size = 900;
  visibility = Visibility.public;
  created_at = [];
}

abbrev after : List Event → Page
after es = run_events none (some 1) [] es (initial none)

abbrev chosen : List Event
chosen = Event.choose picks ∷ []

abbrev submitted : List Event
submitted = Event.choose picks ∷ Event.press_submit ∷ []

abbrev all_settled : List Event
all_settled =
    Event.choose picks
    ∷ Event.press_submit
    ∷ Event.worker_progress 0 50
    ∷ Event.worker_settled 0 (done image)
    ∷ Event.worker_settled 0 (api_error (codes "no"))
    ∷ []

abbrev first : UploadItem
first = new_item (record {
  file = file (codes "a.png") (codes "image/png");
  uuid = 1;
  url = some (codes "blob:1");
})

abbrev second : UploadItem
second = new_item (record { file = file (codes "b.JPG") []; uuid = 2; url = some (codes "blob:2") })

abbrev submitted_state : Run
submitted_state = record {
  queue = first ∷ second ∷ [];
  next_index = 1;
  completed = 0;
  workers = busy first 0 ∷ [];
}

workers_bounded_example :
    (count is_busy (submitted_state.workers) ≤ 1) × ((after submitted).is_uploading ≡ true)
unfolding run_events step add_files submit is_supported_image_file has
workers_bounded_example = workers_bounded none (some 1) [] none submitted submitted_state refl

items-IsProper_example : All IsProper (after all_settled).items
items-IsProper_example = items-IsProper none (some 1) [] none all_settled

abbrev ended_run : Run × Page
ended_run =
    let (run, page) = settle_worker [] 0 (done image) submitted_state (after submitted) in
    settle_worker [] 0 (api_error (codes "no")) run page

two-Ended :
    Ended [] submitted_state
      (submit (some 1) (after chosen))
      (second ∷ first ∷ [])
      1
      (ended_run.0)
      (ended_run.1)
unfolding run_events step add_files submit is_supported_image_file has settle_worker
two-Ended = next 0 (api_error (codes "no")) second 1 (next 0 (done image) first 0 here refl) refl

each_item_once_example :
    (2 ≡ length (filter is_unfinished (after chosen).items))
    × (count (λ item. item.id == 1) (second ∷ first ∷ [])
        ≡ count (λ item. item.id == 1) (filter is_unfinished (after chosen).items))
    × (ended_run.0.queue ≡ filter is_unfinished (after chosen).items)
unfolding run_events step add_files submit is_supported_image_file has settle_worker
each_item_once_example =
    each_item_once (some 1) [] (after chosen) submitted_state refl refl refl refl
      (λ item. item.id == 1) (second ∷ first ∷ []) 1 (ended_run.0) (ended_run.1) two-Ended refl refl

queue_drained_example :
    ((finish_batch (ended_run.0) (ended_run.1)).is_uploading ≡ false)
    × (((1 ≡ length (filter is_unfinished (after chosen).items))
          × ((finish_batch (ended_run.0) (ended_run.1)).toasts
              ≡ upload_complete 1 ∷ ended_run.1.toasts))
        ⊎ ((failed : ℕ) × (1 ≤ failed)
            × (1 + failed ≡ length (filter is_unfinished (after chosen).items))
            × ((finish_batch (ended_run.0) (ended_run.1)).toasts
                ≡ upload_partial 1 failed ∷ ended_run.1.toasts)))
unfolding run_events step add_files submit is_supported_image_file has settle_worker
queue_drained_example =
    queue_drained (some 1) [] (after chosen) submitted_state refl refl refl refl
      (second ∷ first ∷ []) 1 (ended_run.0) (ended_run.1) two-Ended refl refl

inactive_is_final_example : IsQuiet (step none (some 1) [] Event.unmounted (after submitted)) (
    run_events none
      (some 1)
      []
      (Event.worker_settled 0 (done image) ∷ Event.press_submit ∷ [])
      (step none (some 1) [] Event.unmounted (after submitted)))
unfolding step unmount
inactive_is_final_example =
    inactive_is_final none (some 1) []
      (Event.worker_settled 0 (done image) ∷ Event.press_submit ∷ [])
      (step none (some 1) [] Event.unmounted (after submitted)) refl
