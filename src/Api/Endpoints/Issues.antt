-- ===== src/Api/Endpoints/Issues.antt =====
-- static/js/api.js: the calls about issues, their order and their tasks.
use wuflow.Base.{
  ℕ, String, Bool, true, false, not, Option, none, some, List, [], ◌∷◌, ◌==◌, str_eq, if◌then◌else◌,
}
use wuflow.Api.Json.{Json, empty, num, str, one_field, two_fields}
use wuflow.Api.Fetch.{
  put, Segment, word, id, Request, Response, is_ok, thrown, World, Result, ok, err, M, ◌>>=◌, pure,
}
use wuflow.Api.Auth.{auth_fetch, read_json}
use wuflow.Api.Call.{
  ◌>>◌, get_from, post_to, put_to, delete_at, in_project, in_issue, require, returns_json,
  returns_nothing, list_or_empty,
}

unfoldable pub fetch_active_issues_by_project : ℕ → World → Json × World
fetch_active_issues_by_project project =
    list_or_empty (get_from (in_project project (word "issues" ∷ word "active" ∷ [])))

unfoldable pub fetch_archived_issues_by_project : ℕ → World → Json × World
fetch_archived_issues_by_project project =
    list_or_empty (get_from (in_project project (word "issues" ∷ word "archived" ∷ [])))

unfoldable pub fetch_open_issues_by_project : ℕ → World → Json × World
fetch_open_issues_by_project project =
    list_or_empty (get_from (in_project project (word "issues" ∷ word "open" ∷ [])))

-- `{ issue, etag }`; a missing issue and any failure give nulls.
pub record Fetched : Type 0 where
  pub issue : Option Json
  pub etag : Option String

abbrev pub nothing_fetched : Fetched
nothing_fetched = record { issue = none; etag = none }

abbrev read_fetched : Response → M Fetched
read_fetched res w =
    if res.status == 404
    then (ok nothing_fetched, w)
    else if not (is_ok res)
    then (err (thrown "Failed to fetch issue"), w)
    else (read_json res >>= λ j. pure (record { issue = some j; etag = res.etag })) w

abbrev fetched_or_nothing : Result Fetched → Fetched
fetched_or_nothing (ok f) = f
fetched_or_nothing (err _) = nothing_fetched

unfoldable pub fetch_issue_by_id : ℕ → ℕ → World → Fetched × World
fetch_issue_by_id project issue w =
    let (r, w') = (auth_fetch (get_from (in_issue project issue [])) >>= read_fetched) w in
    (fetched_or_nothing r, w')

unfoldable pub create_issue : ℕ → Json → M Json
create_issue project issue =
    auth_fetch (post_to (in_project project (word "issues" ∷ [])) issue)
    >>= returns_json "Failed to create issue"

-- `{ issue, etag, conflict }`
pub record Updated : Type 0 where
  pub issue : Option Json
  pub etag : Option String
  pub conflict : Bool

-- `if (etag) headers['If-Match'] = etag`: an empty tag is not sent.
abbrev tag_to_send : Option String → Option String
tag_to_send none = none
tag_to_send (some t) = if str_eq t "" then none else some t

abbrev pub update_request : ℕ → ℕ → Json → Option String → Request
update_request project issue body etag = record {
  method = put;
  path = in_issue project issue [];
  if_match = tag_to_send etag;
  body = some body;
}

abbrev pub read_updated : Response → M Updated
read_updated res w =
    if res.status == 409
    then (ok (record { issue = none; etag = none; conflict = true }), w)
    else (do
      require "Failed to update issue" res
      j ← read_json res
      pure (record { issue = some j; etag = res.etag; conflict = false }))
        w

unfoldable pub update_issue : ℕ → ℕ → Json → Option String → M Updated
update_issue project issue body etag =
    auth_fetch (update_request project issue body etag) >>= read_updated

-- The positions are an array of `{ id, position }`.
abbrev put_positions : List Segment → Json → String → M (Unit {0})
put_positions path positions fallback =
    auth_fetch (put_to path positions) >>= returns_nothing fallback

unfoldable pub update_issue_positions : ℕ → Json → M (Unit {0})
update_issue_positions project positions =
    put_positions (in_project project (word "issues" ∷ word "positions" ∷ [])) positions
      "Failed to save the new order"

unfoldable pub archive_issue : ℕ → ℕ → M Json
archive_issue project issue =
    auth_fetch (post_to (in_issue project issue (word "archive" ∷ [])) empty)
    >>= returns_json "Failed to archive issue"

unfoldable pub unarchive_issue : ℕ → ℕ → M Json
unarchive_issue project issue =
    auth_fetch (post_to (in_issue project issue (word "unarchive" ∷ [])) empty)
    >>= returns_json "Failed to unarchive issue"

abbrev pub read_moved : Response → M Fetched
read_moved res = do
  require "Failed to move issue" res
  j ← read_json res
  pure (record { issue = some j; etag = res.etag })

unfoldable pub move_issue : ℕ → ℕ → ℕ → String → M Fetched
move_issue project issue new_project admin_password =
    auth_fetch (
      post_to (in_issue project issue (word "move" ∷ []))
        (two_fields "new_project_id" (num new_project) "admin_password" (str admin_password)))
    >>= read_moved

unfoldable pub create_task : ℕ → ℕ → Json → M Json
create_task project issue task =
    auth_fetch (post_to (in_issue project issue (word "tasks" ∷ [])) task)
    >>= returns_json "Failed to create task"

unfoldable pub update_task : ℕ → ℕ → ℕ → Json → M Json
update_task project issue task body =
    auth_fetch (put_to (in_issue project issue (word "tasks" ∷ id task ∷ [])) body)
    >>= returns_json "Failed to update task"

unfoldable pub update_task_positions : ℕ → ℕ → Json → M (Unit {0})
update_task_positions project issue positions =
    put_positions (in_issue project issue (word "tasks" ∷ word "positions" ∷ [])) positions
      "Failed to save the task order"

unfoldable pub delete_task : ℕ → ℕ → ℕ → M (Unit {0})
delete_task project issue task =
    auth_fetch (delete_at (in_issue project issue (word "tasks" ∷ id task ∷ [])) none)
    >>= returns_nothing "Failed to delete task"

unfoldable pub delete_issue : ℕ → ℕ → String → M (Unit {0})
delete_issue project issue admin_password =
    auth_fetch (
      delete_at (in_issue project issue [])
        (some (one_field "admin_password" (str admin_password))))
    >>= returns_nothing "Failed to delete issue"
