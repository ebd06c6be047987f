-- ===== src/ImageDetail/Examples.antt =====
-- The page's theorems at concrete values.
use imagesilo.Common.{◌≡◌, true, false, none, some, List, [], ◌∷◌, nat_eq, list_eq}
use imagesilo.Common.Text.{codes}
use imagesilo.Api.{Image, Visibility}
use imagesilo.ImageDetail.{ReturnState}
use imagesilo.ImageDetail.Steps.{DetailEvent, leave, run_detail, first_detail}
use imagesilo.ImageDetail.Leaving.{leave-run_detail}
use imagesilo.ImageDetail.Kept.{IsInStep}
use imagesilo.ImageDetail.Sent.{run_detail-IsInStep}

abbrev state : ReturnState
state = record { from_image_list = true; return_to = none }

abbrev image : Image
image = record {
  id = codes "1";
  original_name = codes "a.png";
  standard_url = codes "/a";
  thumbnail_url = codes "/t";
  extension = codes "png";
  mime_type = codes "image/png";
  width = 1;
  height = 1;
  source_size = 10;
  stored_size = 10;
  visibility = Visibility.public;
  created_at = codes "2026-01-02T00:00:00Z";
}

abbrev deletion : List DetailEvent
deletion =
    DetailEvent.image_loaded (some image)
    ∷ DetailEvent.delete_asked
    ∷ DetailEvent.delete_confirmed
    ∷ DetailEvent.deletion_settled (some false)
    ∷ DetailEvent.deletion_finished
    ∷ []

run_detail-IsInStep_example : IsInStep (run_detail deletion (first_detail (codes "k") state))
run_detail-IsInStep_example = run_detail-IsInStep deletion (codes "k") state

leave-run_detail_example :
    (run_detail deletion (leave (first_detail (codes "k") state))).navigations ≡ []
leave-run_detail_example =
    leave-run_detail deletion (first_detail (codes "k") state) (tt, (tt, (tt, (tt, (tt, tt)))))
