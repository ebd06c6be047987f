-- ===== src/ApiClient/Listeners.antt =====
-- Who is told that the session is over, and the token against forged requests.
use imagesilo.Common.{
  ℕ, ◌≡◌, true, false, ◌||◌, Option, none, some, List, [], ◌==◌, nat_eq, list_eq, eq_iff,
  if◌then◌else◌, arith,
}
use imagesilo.Common.Text.{Text, codes}
use imagesilo.Common.Collections.{has, add, lookup, insert, lookup-insert, has-add, has-delete}
use imagesilo.ApiClient.{
  Response, settle_request, notify_unauthorized, subscribe_unauthorized, unsubscribe,
  request_headers, csrf_name, read_cookie, is_safe_method, HeaderList,
}

-- A subscribed listener is called for an answer 401, after it has unsubscribed it is not, and the
-- other listeners are not affected. (The answer is one without a JSON text, to a request that is
-- neither a login nor a change of the password.)
pub subscription_lem :
    (path : Text) (listener other : ℕ) (listeners : List ℕ) (response : Response)
    → (path == codes "/api/v1/auth/login") ≡ false
    → (path == codes "/api/v1/auth/password") ≡ false
    → response.status ≡ 401
    → response.is_json ≡ false
    → (listener == other) ≡ false
    → (has listener (settle_request path (subscribe_unauthorized listener listeners) response).0
        ≡ true)
      × (has listener
            (settle_request path
              (unsubscribe listener (subscribe_unauthorized listener listeners))
              response).0
          ≡ false)
      × (has other
            (settle_request path
              (unsubscribe listener (subscribe_unauthorized listener listeners))
              response).0
          ≡ has other listeners)
unfolding settle_request notify_unauthorized subscribe_unauthorized unsubscribe
subscription_lem path listener other listeners response not_login not_password status no_json
      differ =
    ground (
      arith,
      not_login,
      not_password,
      status,
      no_json,
      differ,
      has-add listener listener listeners,
      has-add listener other listeners,
      has-delete listener listener (add listener listeners),
      has-delete listener other (add listener listeners),
      eq_iff listener listener,
    )

-- A request carries the header against forgery as its caller has given it; else, a request that may
-- change something carries the token of the cookie, where there is one, and a safe one carries none.
pub csrf_header_lem :
    (decode : Text → Text) (method : Option Text) (given : HeaderList) (cookies : Text)
    → lookup csrf_name (request_headers decode method given cookies)
      ≡ (elim (lookup csrf_name given) [
        | some token ↦ some token
        | none ↦
            if is_safe_method method || read_cookie decode (codes "imagesilo_csrf") cookies == []
            then none
            else some (read_cookie decode (codes "imagesilo_csrf") cookies)
      ])
unfolding request_headers
csrf_header_lem decode method given cookies =
    let token = read_cookie decode (codes "imagesilo_csrf") cookies in
    let headers = insert (codes "accept") (codes "application/json") given in
    ground (
      arith,
      lookup-insert (codes "accept") csrf_name (codes "application/json") given,
      lookup-insert csrf_name csrf_name token headers,
    )
