-- ===== src/Api/Auth/Settled.antt =====
-- How `authFetch` ends: what it can return or throw, and what the connection banner shows then.
use wuflow.Base.{
  ℕ, Bool, true, false, Option, none, some, List, [], ◌∷◌, ◌==◌, ◌≡◌, refl, inl, inr, Bool-cases,
}
use wuflow.Api.Fetch.{
  Request, Response, Fetched, rejected, response, network, thrown, engine, Event, connection, World,
  Result, ok, err, and_then, ◌>>=◌, pure, settle, fetch, notify_connection, is_gateway_error,
  raw_fetch, request_timeout_ms, is_ok,
}
use wuflow.Api.Auth.{
  refresh_request, is_read, renew_session, renewed, replay, retry, renew_on_401, explain_429,
  auth_fetch,
}

-- What the connection listener was last told.
abbrev pub last_connection : List Event → Option Bool
last_connection [] = none
last_connection (connection b ∷ es) = some b
last_connection (_ ∷ es) = last_connection es

-- A listener is set, and was last told `b`.
abbrev Told : Bool → World → Type 0
Told b w = (w.has_listener ≡ true) × (last_connection w.trace ≡ some b)

-- A response is no gateway error and the banner is hidden; the only error is `NetworkError`, and
-- then the banner shows.
abbrev pub Settled : Result Response → World → Type 0
Settled (ok res) w = (is_gateway_error res.status ≡ false) × Told true w
Settled (err e) w = (e ≡ network) × Told false w

settle-Settled :
    (f : Fetched) (w : World) → w.has_listener ≡ true → Settled (settle f w).0 (settle f w).1
unfolding notify_connection
settle-Settled rejected w h = rw h (refl, (refl, refl))
settle-Settled (response r) w h = elim (Bool-cases (is_gateway_error r.status)) [
  | inl t ↦ rw (t, h) (refl, (refl, refl))
  | inr t ↦ rw (t, h) (t, (refl, refl))
]

module _ (q : Request) (timeout : ℕ) where
  pub raw_fetch-Settled :
      (w : World)
      → w.has_listener ≡ true
      → Settled (raw_fetch q timeout w).0 (raw_fetch q timeout w).1
  unfolding raw_fetch
  raw_fetch-Settled w h = settle-Settled (fetch q timeout w).0 (fetch q timeout w).1 h

listens : (r : Result Response) (w : World) → Settled r w → w.has_listener ≡ true
listens (ok res) w s = s.1.0
listens (err e) w s = s.1.0

retry-Settled :
    (q : Request) (r : Result Response) (w : World)
    → Settled r w
    → Settled (retry q r w).0 (retry q r w).1
retry-Settled q (ok res) w s = s
retry-Settled q (err network) w s = elim (Bool-cases (is_read q.method)) [
  | inl t ↦ rw t (raw_fetch-Settled q request_timeout_ms w s.1.0)
  | inr t ↦ rw t s
]
retry-Settled q (err (thrown m)) w s = s
retry-Settled q (err engine) w s = s

-- After the refresh: it may fail with the banner up, or leave a listener in place.
abbrev Renewed : Result Bool → World → Type 0
Renewed (ok renew) w = Told true w
Renewed (err e) w = (e ≡ network) × Told false w

renewed-Renewed :
    (r : Result Response) (w : World)
    → Settled r w
    → Renewed (and_then renewed r w).0 (and_then renewed r w).1
renewed-Renewed (ok res) w s = elim (Bool-cases (is_ok res)) [
  | inl t ↦ rw t s.1
  | inr t ↦ rw t (elim (Bool-cases w.has_handler) [ inl k ↦ rw k s.1 | inr k ↦ rw k s.1 ])
]
renewed-Renewed (err e) w s = s

replay-Settled :
    (q : Request) (res : Response) (r : Result Bool) (w : World)
    → is_gateway_error res.status ≡ false
    → Renewed r w
    → Settled (and_then (replay q res) r w).0 (and_then (replay q res) r w).1
replay-Settled q res (ok true) w g s = raw_fetch-Settled q request_timeout_ms w s.0
replay-Settled q res (ok false) w g s = (g, s)
replay-Settled q res (err e) w g s = s

renew_on_401-Settled :
    (q : Request) (r : Result Response) (w : World)
    → Settled r w
    → Settled (and_then (renew_on_401 q) r w).0 (and_then (renew_on_401 q) r w).1
unfolding renew_session
renew_on_401-Settled q (ok res) w s = elim (Bool-cases (res.status == 401)) [
  | inl t ↦
      let (r, v) = raw_fetch refresh_request 0 w in
      let (r', v') = and_then renewed r v in
      rw t (
        replay-Settled q res r' v' s.0
          (renewed-Renewed r v (raw_fetch-Settled refresh_request 0 w s.1.0)))
  | inr t ↦ rw t s
]
renew_on_401-Settled q (err e) w s = s

-- A 429 is the synthetic response.
abbrev pub Explained : Result Response → Type 0
Explained (ok res) = explain_429 res ≡ res
Explained (err e) = Unit

explain-Settled :
    (r : Result Response) (w : World)
    → Settled r w
    → let (e, u) = and_then (λ res. pure (explain_429 res)) r w in Settled e u × Explained e
explain-Settled (ok res) w s = elim (Bool-cases (res.status == 429)) [
  | inl t ↦ rw t ((refl, s.1), refl)
  | inr t ↦ rw t (s, rw t refl)
]
explain-Settled (err e) w s = (s, tt)

-- Whatever the network answers, `authFetch` with a connection listener ends in one of two ways: it
-- returns a response that is no gateway error, a 429 only as the explained one, and the banner was
-- last told that the server is reached; or it throws `NetworkError`, and the banner was last told
-- that it is not.
pub auth_fetch-Settled :
    (q : Request) (w : World)
    → w.has_listener ≡ true
    → let (r, w') = auth_fetch q w in Settled r w' × Explained r
unfolding auth_fetch
auth_fetch-Settled q w h =
    let (r, v) = raw_fetch q request_timeout_ms w in
    let (r', v') = retry q r v in
    let tried = retry-Settled q r v (raw_fetch-Settled q request_timeout_ms w h) in
    ended r' v' (renew_on_401-Settled q r' v' tried)
  where
    ended :
        (r : Result Response) (v : World)
        → Settled (and_then (renew_on_401 q) r v).0 (and_then (renew_on_401 q) r v).1
        → let (e, u) =
            and_then (λ res. renew_on_401 q res >>= λ res'. pure (explain_429 res')) r v in
          Settled e u × Explained e
    ended (ok res) v s = let (a, b) = renew_on_401 q res v in explain-Settled a b s
    ended (err e) v s = (s, tt)
