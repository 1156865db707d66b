-- ===== src/Api/Auth/Trace.antt =====
-- What `authFetch` sends: reads may be sent again, a write is executed at most once.
use wuflow.Base.{
  ℕ, Bool, true, false, List, [], ◌∷◌, ◌==◌, ◌≡◌, refl, ap, subst, sym, ◌∙◌, ==_iff, inl, inr,
  arith, Bool-cases,
}
use wuflow.Api.Fetch.{
  Request, Response, Fetched, rejected, response, fetch, settle, and_then, ◌>>=◌, notify_connection,
  network, Event, sent, connection, relogin, redirect, World, Result, ok, err, thrown, engine, pure,
  request_timeout_ms, raw_fetch,
}
use wuflow.Api.Auth.{
  refresh_request, is_read, renew_session, auth_fetch, renew_on_401, renewed, replay, retry,
  explain_429,
}

abbrev pub Exchange : Type 0
Exchange = Request × Fetched

-- The requests of a trace with their answers, the newest first.
abbrev pub exchanges : List Event → List Exchange
exchanges [] = []
exchanges (sent q timeout f ∷ es) = (q, f) ∷ exchanges es
exchanges (connection b ∷ es) = exchanges es
exchanges (relogin ∷ es) = exchanges es
exchanges (redirect ∷ es) = exchanges es

abbrev pub IsUnauthorized : Fetched → Type 0
IsUnauthorized rejected = ⊥
IsUnauthorized (response r) = r.status ≡ 401

-- The exchanges that a request may add to `before`, the newest first. Only an answer 401, which
-- says that the request was not executed, lets a write be sent again.
pub data WriteRun (q : Request) (before : List Exchange) : List Exchange → Type 0 where
  once : (f : Fetched) → WriteRun q before ((q, f) ∷ before)
  refused :
      (f g : Fetched)
      → IsUnauthorized f
      → WriteRun q before ((refresh_request, g) ∷ (q, f) ∷ before)
  replayed :
      (f g h : Fetched)
      → IsUnauthorized f
      → WriteRun q before ((q, h) ∷ (refresh_request, g) ∷ (q, f) ∷ before)

settle_same : (f : Fetched) (w : World) → exchanges (settle f w).1.trace ≡ exchanges w.trace
unfolding notify_connection
settle_same rejected w = ground arith
settle_same (response r) w = ground arith

settle-ok : (f : Fetched) (w : World) {res : Response} → (settle f w).0 ≡ ok res → f ≡ response res
settle-ok rejected w h = cc
settle-ok (response r) w h = ground arith

-- A single `rawFetch` adds one exchange, and a response that it hands out is the one received.
module _ (q : Request) (timeout : ℕ) (w : World) where
  pub exchanges-raw_fetch :
      exchanges (raw_fetch q timeout w).1.trace ≡ (q, (fetch q timeout w).0) ∷ exchanges w.trace
  unfolding raw_fetch
  exchanges-raw_fetch = settle_same (fetch q timeout w).0 (fetch q timeout w).1

  pub raw_fetch-ok :
      {res : Response} → (raw_fetch q timeout w).0 ≡ ok res → (fetch q timeout w).0 ≡ response res
  unfolding raw_fetch
  raw_fetch-ok h = settle-ok (fetch q timeout w).0 (fetch q timeout w).1 h

module _ (q : Request) (before : List Exchange) (res : Response)
    (unauthorized : res.status ≡ 401) where
  replay-WriteRun :
      (renew : Bool) (g : Fetched) (w : World)
      → exchanges w.trace ≡ (refresh_request, g) ∷ (q, response res) ∷ before
      → WriteRun q before (exchanges (replay q res renew w).1.trace)
  replay-WriteRun true g w h =
      rw (exchanges-raw_fetch q _ w, h) (replayed (response res) g _ unauthorized)
  replay-WriteRun false g w h = rw h (refused (response res) g unauthorized)

  renewed_same :
      (r : Result Response) (w : World)
      → exchanges (and_then renewed r w).1.trace ≡ exchanges w.trace
  renewed_same (ok answer) w = ground arith
  renewed_same (err e) w = refl

  renewal-WriteRun :
      (r : Result Bool) (g : Fetched) (w : World)
      → exchanges w.trace ≡ (refresh_request, g) ∷ (q, response res) ∷ before
      → WriteRun q before (exchanges (and_then (replay q res) r w).1.trace)
  renewal-WriteRun (ok renew) g w h = replay-WriteRun renew g w h
  renewal-WriteRun (err e) g w h = rw h (refused (response res) g unauthorized)

  renew_session-WriteRun :
      (w : World)
      → exchanges w.trace ≡ (q, response res) ∷ before
      → WriteRun q before (exchanges ((renew_session >>= replay q res) w).1.trace)
  unfolding renew_session
  renew_session-WriteRun w h =
      let (r, v) = raw_fetch refresh_request 0 w in
      let g = (fetch refresh_request 0 w).0 in
      let (r', v') = and_then renewed r v in
      renewal-WriteRun r' g v' (
        renewed_same r v
        ∙ exchanges-raw_fetch refresh_request 0 w
        ∙ ap (λ (es : List Exchange). (refresh_request, g) ∷ es) h)

module _ (q : Request) (before : List Exchange) where
  renew_on_401-WriteRun :
      (res : Response) (w : World)
      → exchanges w.trace ≡ (q, response res) ∷ before
      → WriteRun q before (exchanges (renew_on_401 q res w).1.trace)
  renew_on_401-WriteRun res w h = elim (Bool-cases (res.status == 401)) [
    | inl t ↦ rw t (renew_session-WriteRun q before res ((==_iff _ _).0 t) w h)
    | inr t ↦ rw t (rw h (once (response res)))
  ]

  after_attempt :
      (r : Result Response) (w : World)
      → (f : Fetched) × (exchanges w.trace ≡ (q, f) ∷ before)
        × ((res : Response) → r ≡ ok res → f ≡ response res)
      → WriteRun q before (exchanges (and_then (renew_on_401 q) r w).1.trace)
  after_attempt (ok res) w (f, h, k) = renew_on_401-WriteRun res w (rw (k res refl) at h)
  after_attempt (err e) w (f, h, k) = rw h (once f)

write-retry :
    (q : Request) (r : Result Response) (w : World)
    → is_read q.method ≡ false
    → retry q r w ≡ (r, w)
write-retry q (ok res) w h = refl
write-retry q (err network) w h = rw h
write-retry q (err (thrown m)) w h = refl
write-retry q (err engine) w h = refl

pure_same :
    {A B : Type 0} (f : A → B) (r : Result A) (w : World) → (and_then (λ a. pure (f a)) r w).1 ≡ w
pure_same f (ok a) w = refl
pure_same f (err e) w = refl

-- The last step of `authFetch` leaves the world alone.
explain_same :
    (q : Request) (r : Result Response) (w : World)
    → (and_then (λ res. renew_on_401 q res >>= λ res'. pure (explain_429 res')) r w).1
      ≡ (and_then (renew_on_401 q) r w).1
explain_same q (ok res) w = pure_same explain_429 (renew_on_401 q res w).0 (renew_on_401 q res w).1
explain_same q (err e) w = refl

-- A write is sent once, or once more after an answer 401, with one refresh in between: whatever
-- the network does, at most one of its sendings is executed.
pub auth_fetch-WriteRun :
    (q : Request) (w : World)
    → is_read q.method ≡ false
    → WriteRun q (exchanges w.trace) (exchanges (auth_fetch q w).1.trace)
unfolding auth_fetch
auth_fetch-WriteRun q w h =
    let (r, w') = raw_fetch q request_timeout_ms w in
    let sent_once = exchanges-raw_fetch q request_timeout_ms w in
    let run = after_attempt q (exchanges w.trace) r w' (
      (fetch q request_timeout_ms w).0,
      sent_once,
      λ res e. raw_fetch-ok q request_timeout_ms w e,
    ) in
    let tried = retry q r w' in
    rw (explain_same q tried.0 tried.1) (
      subst
        (λ (p : Result Response × World).
          WriteRun q (exchanges w.trace) (exchanges (and_then (renew_on_401 q) p.0 p.1).1.trace))
        (sym (write-retry q r w' h)) run)
