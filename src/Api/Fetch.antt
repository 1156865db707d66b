-- ===== src/Api/Fetch.antt =====
-- static/js/api.js, the transport: `rawFetch`, `NetworkError`, the two registered callbacks.
-- The network is the list `replies` of what the coming `fetch` calls give; past its end every call
-- fails, as it does offline. All that the layer does to the outside is an event of `trace`, the
-- newest first.
use wuflow.Base.{
  ℕ, String, Bool, true, false, ◌&&◌, ◌||◌, Option, List, [], ◌∷◌, leb, ltb, ◌==◌, if◌then◌else◌,
}
use wuflow.Api.Json.{Json}

pub data Method : Type 0 where
  get post put delete : Method

-- A url below `/api`: fixed words and ids.
pub data Segment : Type 0 where
  word : String → Segment
  id : ℕ → Segment

-- `Content-Type: application/json` is set exactly where there is a body.
pub record Request : Type 0 where
  pub method : Method
  pub path : List Segment
  pub if_match : Option String
  pub body : Option Json

-- `res.text()` and `res.json()` reject (`none`) where the body breaks off or is not JSON.
pub record Response : Type 0 where
  pub status : ℕ
  pub text : Option String
  pub json : Option Json
  pub etag : Option String

abbrev pub is_ok : Response → Bool
is_ok r = leb 200 r.status && ltb r.status 300

-- What the promise of `fetch` does. It is rejected offline and when the timeout aborts it.
pub data Fetched : Type 0 where
  rejected : Fetched
  response : Response → Fetched

-- `network` is the class `NetworkError`, `thrown m` an `Error(m)`, and `engine` an exception of the
-- browser, whose wording is its own.
pub data Error : Type 0 where
  network : Error
  thrown : String → Error
  engine : Error

pub data Message : Type 0 where
  wording : String → Message
  engine_wording : Message

abbrev pub message : Error → Message
message network = wording "Connection to the server failed. The change was not saved."
message (thrown m) = wording m
message engine = engine_wording

pub data Event : Type 0 where
  sent : Request → ℕ → Fetched → Event  -- a `fetch`, its timeout (0: none) and what came back
  connection : Bool → Event  -- a call of the connection listener
  relogin : Event  -- the session-expired handler was called, and its promise resolved
  redirect : Event  -- `location.href = '/login'`

pub record World : Type 0 where
  pub replies : List Fetched
  pub has_handler : Bool  -- `sessionExpiredHandler` is set
  pub has_listener : Bool  -- `connectionListener` is set
  pub trace : List Event

pub data Result {ℓ} (A : Type ℓ) : Type ℓ where
  ok : A → Result A
  err : Error → Result A

abbrev pub M : Type 0 → Type 0
M A = World → Result A × World

abbrev pub and_then : {A B : Type 0} → (A → M B) → Result A → World → Result B × World
and_then f (ok a) w = f a w
and_then f (err e) w = (err e, w)

infixl 5 ◌>>=◌
abbrev pub ◌>>=◌ : {A B : Type 0} → M A → (A → M B) → M B
◌>>=◌ m f w = let (r, w') = m w in and_then f r w'

abbrev pub pure : {A : Type 0} → A → M A
pure a w = (ok a, w)

abbrev pub throw : {A : Type 0} → Error → M A
throw e w = (err e, w)

-- `setSessionExpiredHandler`, `setConnectionListener`
unfoldable pub set_session_expired_handler : World → World
set_session_expired_handler w = record w { has_handler = true }

unfoldable pub set_connection_listener : World → World
set_connection_listener w = record w { has_listener = true }

abbrev pub log : Event → World → World
log e w = record w { trace = e ∷ w.trace }

unfoldable pub notify_connection : Bool → World → World
notify_connection reached w = if w.has_listener then log (connection reached) w else w

abbrev pub request_timeout_ms : ℕ
request_timeout_ms = 20000

abbrev pub is_gateway_error : ℕ → Bool
is_gateway_error s = s == 502 || s == 503 || s == 504

abbrev head_reply : List Fetched → Fetched
head_reply [] = rejected
head_reply (f ∷ _) = f

abbrev tail_replies : List Fetched → List Fetched
tail_replies [] = []
tail_replies (_ ∷ fs) = fs

-- `await fetch(…)`
unfoldable pub fetch : Request → ℕ → World → Fetched × World
fetch q timeout w = (
  head_reply w.replies,
  record w {
    replies = tail_replies w.replies;
    trace = sent q timeout (head_reply w.replies) ∷ w.trace;
  },
)

abbrev pub settle : Fetched → World → Result Response × World
settle rejected w = (err network, notify_connection false w)
settle (response r) w =
    if is_gateway_error r.status
    then (err network, notify_connection false w)
    else (ok r, notify_connection true w)

unfoldable pub raw_fetch : Request → ℕ → M Response
unfolding fetch notify_connection
raw_fetch q timeout w = let (f, w') = fetch q timeout w in settle f w'
