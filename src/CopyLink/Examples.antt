-- ===== src/CopyLink/Examples.antt =====
-- The control's theorem at concrete values.
use imagesilo.Common.{◌≡◌, refl, true, false, some, List, [], ◌∷◌, nat_eq, list_eq}
use imagesilo.Common.Text.{Text, codes}
use imagesilo.ImageLinks.{LinkableImage, image_links, join_lines, image_links_text}
use imagesilo.Storage.{Storage}
use imagesilo.CopyLink.{
  CopyEvent, copy_step, start_copy, finish_copy, is_copied, shown_text, run_copy, first_control,
}
use imagesilo.CopyLink.Feedback.{is_copied_lem}

abbrev resolve : Text → Text
resolve url = url

abbrev images : List LinkableImage
images = record { original_name = codes "a.png"; standard_url = codes "/a" } ∷ []

abbrev storage : Storage
storage = record { readable = true; writable = false; entries = [] }

abbrev events : List (CopyEvent resolve)
events = CopyEvent.press ∷ CopyEvent.finished true ∷ []

copied_run : is_copied resolve (run_copy resolve events (first_control images storage)) ≡ true
unfolding is_copied run_copy first_control copy_step finish_copy start_copy image_links_text
    image_links join_lines
copied_run = refl

is_copied_lem_example :
    ((run_copy resolve events (first_control images storage)).written
      ≡ some (shown_text resolve (run_copy resolve events (first_control images storage))))
    × ((run_copy resolve events (first_control images storage)).feedback_timer ≡ true)
is_copied_lem_example = is_copied_lem resolve events images storage copied_run
