-- ===== src/Api/Calls/Verdict.antt =====
-- How each write of static/js/api.js reports its outcome.
use wuflow.Base.{
  String, Bool, true, false, not, ◌&&◌, Option, none, some, ◌≡◌, refl, ◌==◌, if◌then◌else◌, arith,
}
use wuflow.Api.Json.{Json}
use wuflow.Api.Fetch.{
  Request, Response, is_ok, Error, thrown, engine, World, Result, ok, err, M, ◌>>=◌, and_then,
}
use wuflow.Api.Auth.{auth_fetch, or_else}
use wuflow.Api.Call.{returns_json, returns_nothing}
use wuflow.Api.Calls.{
  Write, issue_new, issue_edit, issue_positions, issue_archive, issue_unarchive, issue_move,
  issue_removal, task_new, task_edit, task_positions, task_removal, comment_new, comment_edit,
  comment_removal, label_new, label_removal, user_new, user_edit, user_removal, me_edit,
  project_new, project_edit, project_removal, config_edit, release_new, release_edit,
  release_removal, release_reopen, release_trigger, request, run, forget,
}
use wuflow.Api.Endpoints.Issues.{
  read_updated, read_moved, create_issue, update_issue, update_issue_positions, archive_issue,
  unarchive_issue, move_issue, create_task, update_task, update_task_positions, delete_task,
  delete_issue,
}
use wuflow.Api.Endpoints.Content.{
  create_comment, update_comment, delete_comment, create_label, delete_label,
}
use wuflow.Api.Endpoints.Users.{create_user, update_user, delete_user, update_current_user}
use wuflow.Api.Endpoints.Projects.{
  create_project, update_project, delete_project, update_status_config, create_release,
  update_release, delete_release, reopen_release, trigger_release,
}

-- The message of a failure whose answer has no text.
abbrev pub fallback : Write → String
fallback (issue_new _ _) = "Failed to create issue"
fallback (issue_edit _ _ _ _) = "Failed to update issue"
fallback (issue_positions _ _) = "Failed to save the new order"
fallback (issue_archive _ _) = "Failed to archive issue"
fallback (issue_unarchive _ _) = "Failed to unarchive issue"
fallback (issue_move _ _ _ _) = "Failed to move issue"
fallback (issue_removal _ _ _) = "Failed to delete issue"
fallback (task_new _ _ _) = "Failed to create task"
fallback (task_edit _ _ _ _) = "Failed to update task"
fallback (task_positions _ _ _) = "Failed to save the task order"
fallback (task_removal _ _ _) = "Failed to delete task"
fallback (comment_new _ _ _) = "Failed to add comment"
fallback (comment_edit _ _ _ _) = "Failed to update comment"
fallback (comment_removal _ _ _) = "Failed to delete comment"
fallback (label_new _ _) = "Failed to create label"
fallback (label_removal _ _ _) = "Failed to delete label"
fallback (user_new _) = "Failed to create user"
fallback (user_edit _ _) = "Failed to update user"
fallback (user_removal _ _) = "Failed to delete user"
fallback (me_edit _) = "Failed to update user"
fallback (project_new _) = "Failed to create project"
fallback (project_edit _ _) = "Failed to update project"
fallback (project_removal _ _) = "Failed to delete project"
fallback (config_edit _ _) = "Failed to update status config"
fallback (release_new _ _) = "Failed to create release"
fallback (release_edit _ _ _) = "Failed to update release"
fallback (release_removal _ _ _) = "Failed to delete release"
fallback (release_reopen _ _) = "Failed to reopen release"
fallback (release_trigger _ _ _) = "Failed to trigger release"

-- Whether the answer's JSON is read.
abbrev pub reads_json : Write → Bool
reads_json (issue_positions _ _) = false
reads_json (issue_removal _ _ _) = false
reads_json (task_positions _ _ _) = false
reads_json (task_removal _ _ _) = false
reads_json (comment_removal _ _ _) = false
reads_json (label_removal _ _ _) = false
reads_json (user_removal _ _) = false
reads_json (project_removal _ _) = false
reads_json (release_removal _ _ _) = false
reads_json _ = true

-- An edit of an issue takes a conflict for an answer; every other write takes it for a failure.
abbrev pub takes_conflict : Write → Bool
takes_conflict (issue_edit _ _ _ _) = true
takes_conflict _ = false

abbrev unread : Option Json → Option Error
unread none = some engine
unread (some _) = none

abbrev failure : String → Option String → Error
failure missing none = engine
failure missing (some t) = thrown (or_else t missing)

abbrev judge : Bool → Bool → String → Response → Option Error
judge conflict json missing res =
    if conflict && res.status == 409
    then none
    else if not (is_ok res)
    then some (failure missing res.text)
    else if json
    then unread res.json
    else none

abbrev judged_result : Bool → Bool → String → Result Response → Option Error
judged_result conflict json missing (ok res) = judge conflict json missing res
judged_result conflict json missing (err e) = some e

-- What a write throws, if anything, by the answer to its request.
abbrev pub verdict : Write → Result Response → Option Error
verdict c = judged_result (takes_conflict c) (reads_json c) (fallback c)

abbrev Judged : {A : Type 0} → (Response → M A) → Bool → Bool → String → Type 0
Judged k conflict json missing =
    (res : Response) (w : World) → (forget (k res w)).0 ≡ judge conflict json missing res

returns_nothing-Judged : (s : String) → Judged (returns_nothing s) false false s
returns_nothing-Judged s res w = ground arith

returns_json-Judged : (s : String) → Judged (returns_json s) false true s
returns_json-Judged s res w = ground arith

read_updated-Judged : Judged read_updated true true "Failed to update issue"
read_updated-Judged res w = ground arith

read_moved-Judged : Judged read_moved false true "Failed to move issue"
read_moved-Judged res w = ground arith

then-Judged :
    {A : Type 0} (k : Response → M A) (conflict json : Bool) (missing : String)
    → Judged k conflict json missing
    → (r : Result Response) (w : World)
    → (forget (and_then k r w)).0 ≡ judged_result conflict json missing r
then-Judged k conflict json missing h (ok res) w = h res w
then-Judged k conflict json missing h (err e) w = refl

reported :
    {A : Type 0} (q : Request) (w : World) (conflict json : Bool) (missing : String)
    (k : Response → M A)
    → Judged k conflict json missing
    → (forget ((auth_fetch q >>= k) w)).0 ≡ judged_result conflict json missing (auth_fetch q w).0
reported q w conflict json missing k h =
    then-Judged k conflict json missing h (auth_fetch q w).0 (auth_fetch q w).1

-- Every write reports exactly what its answer says: nothing on success, the server's text or the
-- call's own message on a refusal, and only an edit of an issue returns from a conflict.
pub run-verdict : (c : Write) (w : World) → (run c w).0 ≡ verdict c (auth_fetch (request c) w).0
unfolding run create_issue update_issue update_issue_positions archive_issue unarchive_issue
    move_issue delete_issue create_task update_task update_task_positions delete_task create_comment
    update_comment delete_comment create_label delete_label create_user update_user delete_user
    update_current_user create_project update_project delete_project update_status_config
    create_release update_release delete_release reopen_release trigger_release
run-verdict (issue_new p j) w =
    reported (request (issue_new p j)) w false true "Failed to create issue"
      (returns_json "Failed to create issue") (returns_json-Judged "Failed to create issue")
run-verdict (issue_edit p i j t) w =
    reported (request (issue_edit p i j t)) w true true "Failed to update issue" read_updated
      read_updated-Judged
run-verdict (issue_positions p j) w =
    reported (request (issue_positions p j)) w false false "Failed to save the new order"
      (returns_nothing "Failed to save the new order")
      (returns_nothing-Judged "Failed to save the new order")
run-verdict (issue_archive p i) w =
    reported (request (issue_archive p i)) w false true "Failed to archive issue"
      (returns_json "Failed to archive issue") (returns_json-Judged "Failed to archive issue")
run-verdict (issue_unarchive p i) w =
    reported (request (issue_unarchive p i)) w false true "Failed to unarchive issue"
      (returns_json "Failed to unarchive issue") (returns_json-Judged "Failed to unarchive issue")
run-verdict (issue_move p i n pw) w =
    reported (request (issue_move p i n pw)) w false true "Failed to move issue" read_moved
      read_moved-Judged
run-verdict (issue_removal p i pw) w =
    reported (request (issue_removal p i pw)) w false false "Failed to delete issue"
      (returns_nothing "Failed to delete issue") (returns_nothing-Judged "Failed to delete issue")
run-verdict (task_new p i j) w =
    reported (request (task_new p i j)) w false true "Failed to create task"
      (returns_json "Failed to create task") (returns_json-Judged "Failed to create task")
run-verdict (task_edit p i t j) w =
    reported (request (task_edit p i t j)) w false true "Failed to update task"
      (returns_json "Failed to update task") (returns_json-Judged "Failed to update task")
run-verdict (task_positions p i j) w =
    reported (request (task_positions p i j)) w false false "Failed to save the task order"
      (returns_nothing "Failed to save the task order")
      (returns_nothing-Judged "Failed to save the task order")
run-verdict (task_removal p i t) w =
    reported (request (task_removal p i t)) w false false "Failed to delete task"
      (returns_nothing "Failed to delete task") (returns_nothing-Judged "Failed to delete task")
run-verdict (comment_new p i s) w =
    reported (request (comment_new p i s)) w false true "Failed to add comment"
      (returns_json "Failed to add comment") (returns_json-Judged "Failed to add comment")
run-verdict (comment_edit p i c s) w =
    reported (request (comment_edit p i c s)) w false true "Failed to update comment"
      (returns_json "Failed to update comment") (returns_json-Judged "Failed to update comment")
run-verdict (comment_removal p i c) w =
    reported (request (comment_removal p i c)) w false false "Failed to delete comment"
      (returns_nothing "Failed to delete comment")
      (returns_nothing-Judged "Failed to delete comment")
run-verdict (label_new p j) w =
    reported (request (label_new p j)) w false true "Failed to create label"
      (returns_json "Failed to create label") (returns_json-Judged "Failed to create label")
run-verdict (label_removal p l pw) w =
    reported (request (label_removal p l pw)) w false false "Failed to delete label"
      (returns_nothing "Failed to delete label") (returns_nothing-Judged "Failed to delete label")
run-verdict (user_new j) w =
    reported (request (user_new j)) w false true "Failed to create user"
      (returns_json "Failed to create user") (returns_json-Judged "Failed to create user")
run-verdict (user_edit u j) w =
    reported (request (user_edit u j)) w false true "Failed to update user"
      (returns_json "Failed to update user") (returns_json-Judged "Failed to update user")
run-verdict (user_removal u pw) w =
    reported (request (user_removal u pw)) w false false "Failed to delete user"
      (returns_nothing "Failed to delete user") (returns_nothing-Judged "Failed to delete user")
run-verdict (me_edit j) w =
    reported (request (me_edit j)) w false true "Failed to update user"
      (returns_json "Failed to update user") (returns_json-Judged "Failed to update user")
run-verdict (project_new j) w =
    reported (request (project_new j)) w false true "Failed to create project"
      (returns_json "Failed to create project") (returns_json-Judged "Failed to create project")
run-verdict (project_edit p j) w =
    reported (request (project_edit p j)) w false true "Failed to update project"
      (returns_json "Failed to update project") (returns_json-Judged "Failed to update project")
run-verdict (project_removal p pw) w =
    reported (request (project_removal p pw)) w false false "Failed to delete project"
      (returns_nothing "Failed to delete project")
      (returns_nothing-Judged "Failed to delete project")
run-verdict (config_edit p j) w =
    reported (request (config_edit p j)) w false true "Failed to update status config"
      (returns_json "Failed to update status config")
      (returns_json-Judged "Failed to update status config")
run-verdict (release_new p j) w =
    reported (request (release_new p j)) w false true "Failed to create release"
      (returns_json "Failed to create release") (returns_json-Judged "Failed to create release")
run-verdict (release_edit p r j) w =
    reported (request (release_edit p r j)) w false true "Failed to update release"
      (returns_json "Failed to update release") (returns_json-Judged "Failed to update release")
run-verdict (release_removal p r pw) w =
    reported (request (release_removal p r pw)) w false false "Failed to delete release"
      (returns_nothing "Failed to delete release")
      (returns_nothing-Judged "Failed to delete release")
run-verdict (release_reopen p r) w =
    reported (request (release_reopen p r)) w false true "Failed to reopen release"
      (returns_json "Failed to reopen release") (returns_json-Judged "Failed to reopen release")
run-verdict (release_trigger p r b) w =
    reported (request (release_trigger p r b)) w false true "Failed to trigger release"
      (returns_json "Failed to trigger release") (returns_json-Judged "Failed to trigger release")
