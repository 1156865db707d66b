-- ===== src/Api/Call.antt =====
-- What the calls of static/js/api.js share: the parts of a request, and the ways to read an answer.
use wuflow.Base.{ℕ, String, Option, none, some, List, ◌∷◌, if◌then◌else◌}
use wuflow.Api.Json.{Json, arr, nil, is_truthy}
use wuflow.Api.Fetch.{
  get, post, put, delete, Segment, word, id, Request, Response, is_ok, thrown, World, Result, ok,
  err, M, ◌>>=◌, throw,
}
use wuflow.Api.Auth.{auth_fetch, read_text, read_json, or_else}

infixl 5 ◌>>◌
abbrev pub ◌>>◌ : {B : Type 0} → M (Unit {0}) → M B → M B
m >> k = m >>= λ _. k

-- The four shapes of a request.
abbrev pub get_from : List Segment → Request
get_from path = record { method = get; path = path; if_match = none; body = none }

abbrev pub post_to : List Segment → Json → Request
post_to path body = record { method = post; path = path; if_match = none; body = some body }

abbrev pub put_to : List Segment → Json → Request
put_to path body = record { method = put; path = path; if_match = none; body = some body }

abbrev pub delete_at : List Segment → Option Json → Request
delete_at path body = record { method = delete; path = path; if_match = none; body = body }

-- `/projects/${projectId}` and what lies below it
abbrev pub in_project : ℕ → List Segment → List Segment
in_project project rest = word "projects" ∷ id project ∷ rest

abbrev pub in_issue : ℕ → ℕ → List Segment → List Segment
in_issue project issue rest = in_project project (word "issues" ∷ id issue ∷ rest)

-- `if (!res.ok) throw new Error(await res.text() || fallback)`
abbrev pub require : String → Response → M (Unit {0})
require fallback res w =
    if is_ok res then (ok tt, w) else (read_text res >>= λ t. throw (thrown (or_else t fallback))) w

-- `if (!res.ok) throw new Error(text)`
abbrev pub require_plain : String → Response → M (Unit {0})
require_plain text res w = if is_ok res then (ok tt, w) else (err (thrown text), w)

-- A call whose answer is JSON, and one whose answer is not read.
abbrev pub returns_json : String → Response → M Json
returns_json fallback res = require fallback res >> read_json res

abbrev pub returns_nothing : String → Response → M (Unit {0})
returns_nothing fallback res = require fallback res

-- `const data = await res.json(); return data || []` in a `try` whose `catch` returns `[]`; the
-- status is not looked at.
abbrev pub data_or_empty : Result Json → Json
data_or_empty (ok j) = if is_truthy j then j else arr nil
data_or_empty (err _) = arr nil

abbrev pub list_or_empty : Request → World → Json × World
list_or_empty q w = let (r, w') = (auth_fetch q >>= read_json) w in (data_or_empty r, w')
