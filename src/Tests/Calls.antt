-- ===== src/Tests/Calls.antt =====
-- A session that has run out while a comment is removed.
use wuflow.Base.{ℕ, true, none, some, [], ◌∷◌, ◌≡◌, refl}
use wuflow.Api.Json.{empty}
use wuflow.Api.Fetch.{Fetched, response, World, raw_fetch}
use wuflow.Api.Endpoints.Content.{delete_comment}
use wuflow.Api.Auth.{refresh_request, renew_session, auth_fetch}
use wuflow.Api.Auth.Trace.{WriteRun, exchanges}
use wuflow.Api.Auth.Settled.{Settled, Explained, auth_fetch-Settled}
use wuflow.Api.Calls.{Write, comment_removal, request, run}
use wuflow.Api.Calls.Laws.{run_at_most_once}
use wuflow.Api.Calls.Verdict.{verdict, run-verdict}

abbrev answer : ℕ → Fetched
answer status =
    response (record { status = status; text = some ""; json = some empty; etag = none })

-- The session is renewed, and the call is sent again.
abbrev expired : World
expired = record {
  replies = answer 401 ∷ answer 200 ∷ answer 204 ∷ [];
  has_handler = true;
  has_listener = true;
  trace = [];
}

abbrev removal : Write
removal = comment_removal 7 3 9

run_at_most_once_example : WriteRun (request removal) [] (exchanges (run removal expired).1.trace)
run_at_most_once_example = run_at_most_once removal expired

run-verdict_example :
    (run removal expired).0 ≡ verdict removal (auth_fetch (request removal) expired).0
run-verdict_example = run-verdict removal expired

replayed_run :
    exchanges (run removal expired).1.trace
    ≡ (request removal, answer 204)
      ∷ (refresh_request, answer 200)
      ∷ (request removal, answer 401)
      ∷ []
unfolding run delete_comment auth_fetch raw_fetch renew_session
replayed_run = refl

auth_fetch-Settled_example :
    let (r, w) = auth_fetch (request removal) expired in Settled r w × Explained r
auth_fetch-Settled_example = auth_fetch-Settled (request removal) expired refl
