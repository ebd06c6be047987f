-- ===== src/ApiClient.antt =====
-- The client's requests, web/src/lib/api-client.ts: the headers of a request, what becomes of the
-- answer, and who is told when the session is over. The body of an answer is what it parses to.
pub mod Agreement
pub mod Listeners
mod Examples
use imagesilo.Common.{
  ℕ, zero, suc, ◌+◌, ◌*◌, ◌/◌, Bool, true, false, not, ◌&&◌, ◌||◌, Option, none, some, List, [],
  ◌∷◌, ◌++◌, drop, length, map, leb, ltb, min, ◌==◌, nat_eq, list_eq, if◌then◌else◌, or_else,
  is_some,
}
use imagesilo.Common.Text.{Text, codes, trim, starts_with, upper, decimal}
use imagesilo.Common.Collections.{has, add, delete, lookup, insert}

-- `isSafeMethod`
unfoldable pub is_safe_method : Option Text → Bool
unfolding upper
is_safe_method method =
    let normalized = map upper (or_else method (codes "GET")) in
    normalized == codes "GET" || normalized == codes "HEAD" || normalized == codes "OPTIONS"

-- `split(';')`
unfoldable pub split_on : ℕ → Text → List Text
split_on separator [] = [] ∷ []
split_on separator (c ∷ s) =
    let rest = split_on separator s in
    if c == separator
    then [] ∷ rest
    else elim rest [ [] ↦ (c ∷ []) ∷ [] | item ∷ items ↦ (c ∷ item) ∷ items ]

-- A header's name is in lower case, as `Headers` compares names without their case.
abbrev pub HeaderList : Type 0
HeaderList = List (Text × Text)

abbrev pub csrf_name : Text
csrf_name = codes "x-csrf-token"

-- `decode` stands for `decodeURIComponent`.
module _ (decode : Text → Text) where
  -- The loop of `readCookie` over the items of `document.cookie`. A name without special characters
  -- is its own encoding.
  unfoldable pub find_cookie : Text → List Text → Text
  unfolding trim starts_with
  find_cookie name [] = []
  find_cookie name (item ∷ items) =
      let rest = find_cookie name items in
      if starts_with (trim item) (name ++ codes "=")
      then decode (drop (length name + 1) (trim item))
      else rest

  unfoldable pub read_cookie : Text → Text → Text
  unfolding split_on find_cookie
  read_cookie name cookies = find_cookie name (split_on 59 cookies)

  -- The headers that `apiRequest` sends.
  unfoldable pub request_headers : Option Text → HeaderList → Text → HeaderList
  unfolding insert lookup is_safe_method read_cookie
  request_headers method given cookies =
      let headers = insert (codes "accept") (codes "application/json") given in
      let token = read_cookie (codes "imagesilo_csrf") cookies in
      if is_safe_method method || is_some (lookup csrf_name headers) || token == []
      then headers
      else insert csrf_name token headers

-- What a JSON text holds, as far as the client looks: `message` and `code`, where they are strings.
pub record Body : Type 0 where
  pub message : Option Text
  pub error_code : Option Text

pub data Json : Type 0 where
  malformed : Json
  parsed : Body → Json

-- An answer; `json` is `none` where the text is empty.
pub record Response : Type 0 where
  pub status : ℕ
  pub is_json : Bool
  pub json : Option Json

pub record ApiError : Type 0 where
  pub status : ℕ
  pub message : Text
  pub error_code : Option Text

pub data Settled : Type 0 where
  resolved : Option Body → Settled
  rejected : ApiError → Settled
  syntax_error : Settled
  canceled : Settled

-- `response.ok`
abbrev pub is_ok : ℕ → Bool
is_ok status = leb 200 status && ltb status 300

-- The test of `notifyUnauthorized`, and whom it calls.
unfoldable pub notify_unauthorized : Text → Option Text → List ℕ → List ℕ
notify_unauthorized path error_code listeners =
    if path == codes "/api/v1/auth/login"
      || (path == codes "/api/v1/auth/password"
          && or_else error_code [] == codes "invalid_credentials")
    then []
    else listeners

unfoldable pub subscribe_unauthorized : ℕ → List ℕ → List ℕ
unfolding add
subscribe_unauthorized listener listeners = add listener listeners

unfoldable pub unsubscribe : ℕ → List ℕ → List ℕ
unfolding delete
unsubscribe listener listeners = delete listener listeners

abbrev pub code_of : Option Body → Option Text
code_of none = none
code_of (some body) = body.error_code

abbrev pub message_of : ℕ → Option Body → Text
message_of status none = codes "Request failed with status " ++ decimal status
message_of status (some body) =
    or_else body.message (codes "Request failed with status " ++ decimal status)

abbrev pub api_error : ℕ → Option Body → ApiError
api_error status body = record {
  status = status;
  message = message_of status body;
  error_code = code_of body;
}

-- The end of both requests: the listeners that are called, and how the promise is settled.
abbrev pub finish : Text → List ℕ → ℕ → Option Body → List ℕ × Settled
finish path listeners status body = (
  (if status == 401 then notify_unauthorized path (code_of body) listeners else []),
  (if is_ok status then resolved body else rejected (api_error status body)),
)

-- `apiRequest` once the answer is there. `response.json()` fails on an empty or malformed text.
unfoldable pub settle_request : Text → List ℕ → Response → List ℕ × Settled
unfolding notify_unauthorized
settle_request path listeners response =
    if response.status == 204
    then ([], resolved none)
    else if response.is_json
    then elim response.json [
      | none ↦ ([], syntax_error)
      | some json ↦ elim json [
        | malformed ↦ ([], syntax_error)
        | parsed body ↦ finish path listeners response.status (some body)
      ]
    ]
    else finish path listeners response.status none

-- The events of `uploadForm`'s request, before its promise is settled.
pub data UploadEvent : Type 0 where
  progress : Bool → ℕ → ℕ → UploadEvent
  load : Response → UploadEvent
  failed aborted : UploadEvent

pub record UploadState : Type 0 where
  -- Whether the signal would still abort the request.
  pub listening : Bool
  pub settled : Option Settled
  pub percents : List ℕ
  pub called : List ℕ

-- `Math.round((loaded / total) * 100)`, at most 100; a total of zero has no percentage.
unfoldable pub percent_of : ℕ → ℕ → Option ℕ
percent_of loaded zero = none
percent_of loaded (suc total) = some (min 100 ((200 * loaded + suc total) / (2 * suc total)))

-- A malformed text counts as none.
abbrev pub upload_body : Response → Option Body
upload_body response =
    if response.is_json
    then elim response.json [
      | none ↦ none
      | some json ↦ elim json [ malformed ↦ none | parsed body ↦ some body ]
    ]
    else none

-- A promise is settled once: later attempts have no effect.
abbrev pub settle : Settled → UploadState → UploadState
settle how state = record state { settled = some (or_else state.settled how) }

unfoldable pub upload_step : Text → List ℕ → UploadEvent → UploadState → UploadState
unfolding percent_of notify_unauthorized
upload_step path listeners (progress is_computable loaded total) state =
    if is_computable
    then elim (percent_of loaded total) [
      | none ↦ state
      | some percent ↦ record state { percents = percent ∷ state.percents }
    ]
    else state
upload_step path listeners (load response) state =
    let status = response.status in
    let answer = upload_body response in
    let heard = record state { listening = false } in
    if is_ok status
    then settle (resolved answer) (record heard { percents = 100 ∷ state.percents })
    else settle (rejected (api_error status answer)) (record heard {
      called =
          state.called
          ++ (if status == 401 then notify_unauthorized path (code_of answer) listeners else []);
    })
upload_step path listeners failed state =
    settle
      (rejected
        (record { status = 0; message = codes "Network request failed"; error_code = none }))
      (record state { listening = false })
upload_step path listeners aborted state = settle canceled (record state { listening = false })

unfoldable pub run_upload : Text → List ℕ → List UploadEvent → UploadState → UploadState
unfolding upload_step
run_upload path listeners [] state = state
run_upload path listeners (e ∷ es) state =
    run_upload path listeners es (upload_step path listeners e state)

abbrev pub sent_upload : UploadState
sent_upload = record { listening = true; settled = none; percents = []; called = [] }
