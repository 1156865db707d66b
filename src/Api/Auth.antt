-- ===== src/Api/Auth.antt =====
-- static/js/api.js, the session: `renewSession`, `authFetch` and what logs in and out.
pub mod Trace
pub mod Settled
use wuflow.Base.{
  ℕ, String, Bool, true, false, Option, none, some, List, [], ◌∷◌, ◌==◌, str_eq, if◌then◌else◌,
}
use wuflow.Api.Json.{Json, empty, two_fields, str}
use wuflow.Api.Fetch.{
  Method, get, post, Segment, word, Request, Response, is_ok, Fetched, Error, network, thrown,
  engine, Message, wording, message, relogin, redirect, World, Result, ok, err, M, ◌>>=◌, and_then,
  pure, throw, log, fetch, request_timeout_ms, raw_fetch,
}

abbrev pub refresh_request : Request
refresh_request = record {
  method = post;
  path = word "auth" ∷ word "refresh" ∷ [];
  if_match = none;
  body = some empty;
}

-- What `renewSession` does with the answer to its refresh.
abbrev renewed : Response → M Bool
renewed res w =
    if is_ok res
    then (ok true, w)
    else if w.has_handler
    then (ok true, log relogin w)
    else (ok false, log redirect w)

-- The refresh has no timeout.
unfoldable pub renew_session : M Bool
renew_session = do res ← raw_fetch refresh_request 0; renewed res

abbrev pub is_read : Method → Bool
is_read get = true
is_read _ = false

-- The `catch` of `authFetch`: a read is sent once more after a lost connection.
abbrev retry : Request → Result Response → M Response
retry q (ok res) w = (ok res, w)
retry q (err network) w =
    if is_read q.method then raw_fetch q request_timeout_ms w else (err network, w)
retry q (err e) w = (err e, w)

abbrev attempt : Request → M Response
attempt q w = let (r, w') = raw_fetch q request_timeout_ms w in retry q r w'

abbrev replay : Request → Response → Bool → M Response
replay q res renew w = if renew then raw_fetch q request_timeout_ms w else (ok res, w)

abbrev renew_on_401 : Request → Response → M Response
renew_on_401 q res w = if res.status == 401 then (renew_session >>= replay q res) w else (ok res, w)

-- The synthetic response that stands for every 429. Its text is no JSON.
abbrev pub too_many_requests : Response
too_many_requests = record {
  status = 429;
  text = some "Too many requests. Please slow down and try again.";
  json = none;
  etag = none;
}

abbrev explain_429 : Response → Response
explain_429 res = if res.status == 429 then too_many_requests else res

unfoldable pub auth_fetch : Request → M Response
auth_fetch q = do res ← attempt q; res' ← renew_on_401 q res; pure (explain_429 res')

abbrev pub me_request : Request
me_request = record {
  method = get;
  path = word "auth" ∷ word "me" ∷ [];
  if_match = none;
  body = none;
}

abbrev is_ok_result : Result Response → Bool
is_ok_result (ok res) = is_ok res
is_ok_result (err _) = false

-- `hasValidSession`: neither refreshes nor logs in again.
unfoldable pub has_valid_session : World → Bool × World
has_valid_session w =
    let (r, w') = raw_fetch me_request request_timeout_ms w in (is_ok_result r, w')

-- `await res.text()`, and `(await res.text()) || fallback`
abbrev pub read_text : Response → M String
read_text res w = elim res.text [ none ↦ (err engine, w) | some t ↦ (ok t, w) ]

abbrev pub or_else : String → String → String
or_else t fallback = if str_eq t "" then fallback else t

-- `await res.json()`
abbrev pub read_json : Response → M Json
read_json res w = elim res.json [ none ↦ (err engine, w) | some j ↦ (ok j, w) ]

abbrev pub login_request : String → String → Request
login_request email password = record {
  method = post;
  path = word "auth" ∷ word "login" ∷ [];
  if_match = none;
  body = some (two_fields "email" (str email) "password" (str password));
}

abbrev login_failure : Response → M (Option Message)
login_failure res w =
    if res.status == 429
    then (ok (some (wording "Too many login attempts. Please wait a moment and try again.")), w)
    else (do t ← read_text res; pure (some (wording (or_else t "Login failed. Please try again."))))
        w

abbrev login_answer : Response → M (Option Message)
login_answer res w = if is_ok res then (ok none, w) else login_failure res w

abbrev caught_message : Result (Option Message) → Option Message
caught_message (ok m) = m
caught_message (err e) = some (message e)

-- `none` is success, otherwise the message to show.
unfoldable pub reauthenticate : String → String → World → Option Message × World
reauthenticate email password w =
    let (r, w') =
      (raw_fetch (login_request email password) request_timeout_ms >>= login_answer) w in
    (caught_message r, w')

abbrev pub logout_request : Request
logout_request = record {
  method = post;
  path = word "auth" ∷ word "logout" ∷ [];
  if_match = none;
  body = some empty;
}

-- `logout` leaves the app whether or not the request, a plain `fetch` with no timeout, got through.
unfoldable pub logout : World → World
unfolding fetch
logout w = let (f, w') = fetch logout_request 0 w in log redirect w'
