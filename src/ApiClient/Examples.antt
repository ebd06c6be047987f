-- ===== src/ApiClient/Examples.antt =====
-- The client's theorems at concrete answers. The cookies' encoding is the identity here.
use imagesilo.Common.{◌≡◌, refl, true, false, none, some, [], ◌∷◌, nat_eq, list_eq}
use imagesilo.Common.Text.{Text, codes}
use imagesilo.ApiClient.{
  Response, Body, parsed, canceled, settle_request, load, failed, aborted, upload_step, run_upload,
  sent_upload, read_cookie,
}
use imagesilo.ApiClient.Agreement.{load_agrees, settled_is_final}

abbrev refused : Body
refused = record { message = some (codes "too large"); error_code = none }

abbrev answer : Response
answer = record { status = 413; is_json = true; json = some (parsed refused) }

abbrev expired : Response
expired = record { status = 401; is_json = false; json = none }

abbrev uploads : Text
uploads = codes "/api/v1/images"

load_agrees_example :
    ((run_upload uploads (1 ∷ []) (load answer ∷ []) sent_upload).settled
      ≡ some (settle_request uploads (1 ∷ []) answer).1)
    × ((run_upload uploads (1 ∷ []) (load answer ∷ []) sent_upload).called
        ≡ (settle_request uploads (1 ∷ []) answer).0)
load_agrees_example = load_agrees uploads (1 ∷ []) answer refused refl refl refl

settled_is_final_example :
    (run_upload uploads []
      (load answer ∷ failed ∷ [])
      (upload_step uploads [] aborted sent_upload)).settled
    ≡ some canceled
unfolding upload_step
settled_is_final_example =
    settled_is_final uploads [] (load answer ∷ failed ∷ [])
      (upload_step uploads [] aborted sent_upload) canceled refl

token_run :
    read_cookie (λ text. text) (codes "imagesilo_csrf") (codes "a=1; imagesilo_csrf=xyz")
    ≡ codes "xyz"
unfolding read_cookie
token_run = refl
