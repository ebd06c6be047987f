-- ===== src/ApiClient/Agreement.antt =====
-- The two ways to send a request treat an answer alike, and an upload is settled once.
use imagesilo.Common.{
  ℕ, zero, suc, ◌≤◌, ◌≡◌, true, false, some, List, [], ◌∷◌, All, ◌==◌, nat_eq, list_eq, arith,
}
use imagesilo.Common.Text.{Text}
use imagesilo.ApiClient.{
  Response, Body, parsed, Settled, settle_request, UploadEvent, load, progress, failed, aborted,
  UploadState, upload_step, run_upload, sent_upload, percent_of,
}

-- For an answer other than 204 with a JSON text that parses, an upload is settled as any other
-- request would be, and calls the same listeners.
pub load_agrees :
    (path : Text) (listeners : List ℕ) (response : Response) (body : Body)
    → (response.status == 204) ≡ false
    → response.is_json ≡ true
    → response.json ≡ some (parsed body)
    → ((run_upload path listeners (load response ∷ []) sent_upload).settled
        ≡ some (settle_request path listeners response).1)
      × ((run_upload path listeners (load response ∷ []) sent_upload).called
          ≡ (settle_request path listeners response).0)
unfolding run_upload settle_request
load_agrees path listeners response body has_content is_json text =
    ground (arith, has_content, is_json, text)

step_settled :
    (path : Text) (listeners : List ℕ) (e : UploadEvent) (state : UploadState) (how : Settled)
    → state.settled ≡ some how
    → (upload_step path listeners e state).settled ≡ some how
unfolding upload_step
step_settled path listeners (progress is_computable loaded total) state how h = ground (arith, h)
step_settled path listeners (load response) state how h = ground (arith, h)
step_settled path listeners failed state how h = ground (arith, h)
step_settled path listeners aborted state how h = ground (arith, h)

-- Once an upload is settled, no later event changes how.
pub settled_is_final :
    (path : Text) (listeners : List ℕ) (es : List UploadEvent) (state : UploadState) (how : Settled)
    → state.settled ≡ some how
    → (run_upload path listeners es state).settled ≡ some how
unfolding run_upload
settled_is_final path listeners [] state how h = h
settled_is_final path listeners (e ∷ es) state how h =
    settled_is_final path listeners es (upload_step path listeners e state) how
      (step_settled path listeners e state how h)

abbrev pub IsPercent : ℕ → Type 0
IsPercent percent = percent ≤ 100

step_percents :
    (path : Text) (listeners : List ℕ) (e : UploadEvent) (state : UploadState)
    → All IsPercent state.percents
    → All IsPercent (upload_step path listeners e state).percents
unfolding upload_step percent_of
step_percents path listeners (progress is_computable loaded zero) state h = ground (arith, h)
step_percents path listeners (progress is_computable loaded (suc total)) state h = ground (arith, h)
step_percents path listeners (load response) state h = ground (arith, h)
step_percents path listeners failed state h = h
step_percents path listeners aborted state h = h

run_percents :
    (path : Text) (listeners : List ℕ) (es : List UploadEvent) (state : UploadState)
    → All IsPercent state.percents
    → All IsPercent (run_upload path listeners es state).percents
unfolding run_upload
run_percents path listeners [] state h = h
run_percents path listeners (e ∷ es) state h =
    run_percents path listeners es (upload_step path listeners e state)
      (step_percents path listeners e state h)

-- Whatever sizes the progress events give, no percentage above 100 is reported.
pub percents_bounded :
    (path : Text) (listeners : List ℕ) (es : List UploadEvent)
    → All IsPercent (run_upload path listeners es sent_upload).percents
percents_bounded path listeners es = run_percents path listeners es sent_upload tt
