-- ===== src/Api/Calls/Laws.antt =====
-- What holds of every write of static/js/api.js.
use wuflow.Base.{String, false, ◌≡◌, refl, sym, subst, ◌∙◌, arith}
use wuflow.Api.Fetch.{Request, Response, World, Result, ok, err, M, ◌>>=◌, and_then}
use wuflow.Api.Auth.{auth_fetch, is_read}
use wuflow.Api.Auth.Trace.{WriteRun, exchanges, auth_fetch-WriteRun}
use wuflow.Api.Call.{returns_json, returns_nothing}
use wuflow.Api.Calls.{
  Write, issue_new, issue_edit, issue_positions, issue_archive, issue_unarchive, issue_move,
  issue_removal, task_new, task_edit, task_positions, task_removal, comment_new, comment_edit,
  comment_removal, label_new, label_removal, user_new, user_edit, user_removal, me_edit,
  project_new, project_edit, project_removal, config_edit, release_new, release_edit,
  release_removal, release_reopen, release_trigger, request, run, forget,
}
use wuflow.Api.Endpoints.Issues.{
  read_updated, read_moved, create_issue, update_issue, update_issue_positions, archive_issue,
  unarchive_issue, move_issue, create_task, update_task, update_task_positions, delete_task,
  delete_issue,
}
use wuflow.Api.Endpoints.Content.{
  create_comment, update_comment, delete_comment, create_label, delete_label,
}
use wuflow.Api.Endpoints.Users.{create_user, update_user, delete_user, update_current_user}
use wuflow.Api.Endpoints.Projects.{
  create_project, update_project, delete_project, update_status_config, create_release,
  update_release, delete_release, reopen_release, trigger_release,
}

-- Reading an answer leaves the world alone.
abbrev ReadsOnly : {A : Type 0} → (Response → M A) → Type 0
ReadsOnly k = (res : Response) (w : World) → (k res w).1 ≡ w

returns_nothing-ReadsOnly : (s : String) → ReadsOnly (returns_nothing s)
returns_nothing-ReadsOnly s res w = ground arith

returns_json-ReadsOnly : (s : String) → ReadsOnly (returns_json s)
returns_json-ReadsOnly s res w = ground arith

read_updated-ReadsOnly : ReadsOnly read_updated
read_updated-ReadsOnly res w = ground arith

read_moved-ReadsOnly : ReadsOnly read_moved
read_moved-ReadsOnly res w = ground arith

forget_same : {A : Type 0} (p : Result A × World) → (forget p).1 ≡ p.1
forget_same (ok a, w) = refl
forget_same (err e, w) = refl

then-WriteRun :
    {A : Type 0} (q : Request) (k : Response → M A) (w : World)
    → ReadsOnly k
    → is_read q.method ≡ false
    → WriteRun q (exchanges w.trace) (exchanges (forget ((auth_fetch q >>= k) w)).1.trace)
then-WriteRun q k w reads write =
    subst (λ (v : World). WriteRun q (exchanges w.trace) (exchanges v.trace))
      (sym (kept (auth_fetch q w).0 (auth_fetch q w).1)) (auth_fetch-WriteRun q w write)
  where
    kept : (r : Result Response) (v : World) → (forget (and_then k r v)).1 ≡ v
    kept (ok res) v = forget_same (k res v) ∙ reads res v
    kept (err e) v = refl

-- Whatever the network answers, each write is sent once; or it is answered 401, the refresh is sent, and
-- the write is sent at most once more. A lost connection or any other answer never sends it again.
pub run_at_most_once :
    (c : Write) (w : World) → WriteRun (request c) (exchanges w.trace) (exchanges (run c w).1.trace)
unfolding run create_issue update_issue update_issue_positions archive_issue unarchive_issue
    move_issue delete_issue create_task update_task update_task_positions delete_task create_comment
    update_comment delete_comment create_label delete_label create_user update_user delete_user
    update_current_user create_project update_project delete_project update_status_config
    create_release update_release delete_release reopen_release trigger_release
run_at_most_once (issue_new p j) w =
    then-WriteRun (request (issue_new p j)) _ w (returns_json-ReadsOnly "Failed to create issue")
      refl
run_at_most_once (issue_edit p i j t) w =
    then-WriteRun (request (issue_edit p i j t)) _ w read_updated-ReadsOnly refl
run_at_most_once (issue_positions p j) w =
    then-WriteRun (request (issue_positions p j)) _ w
      (returns_nothing-ReadsOnly "Failed to save the new order") refl
run_at_most_once (issue_archive p i) w =
    then-WriteRun (request (issue_archive p i)) _ w
      (returns_json-ReadsOnly "Failed to archive issue") refl
run_at_most_once (issue_unarchive p i) w =
    then-WriteRun (request (issue_unarchive p i)) _ w
      (returns_json-ReadsOnly "Failed to unarchive issue") refl
run_at_most_once (issue_move p i n pw) w =
    then-WriteRun (request (issue_move p i n pw)) _ w read_moved-ReadsOnly refl
run_at_most_once (issue_removal p i pw) w =
    then-WriteRun (request (issue_removal p i pw)) _ w
      (returns_nothing-ReadsOnly "Failed to delete issue") refl
run_at_most_once (task_new p i j) w =
    then-WriteRun (request (task_new p i j)) _ w (returns_json-ReadsOnly "Failed to create task")
      refl
run_at_most_once (task_edit p i t j) w =
    then-WriteRun (request (task_edit p i t j)) _ w (returns_json-ReadsOnly "Failed to update task")
      refl
run_at_most_once (task_positions p i j) w =
    then-WriteRun (request (task_positions p i j)) _ w
      (returns_nothing-ReadsOnly "Failed to save the task order") refl
run_at_most_once (task_removal p i t) w =
    then-WriteRun (request (task_removal p i t)) _ w
      (returns_nothing-ReadsOnly "Failed to delete task") refl
run_at_most_once (comment_new p i s) w =
    then-WriteRun (request (comment_new p i s)) _ w (returns_json-ReadsOnly "Failed to add comment")
      refl
run_at_most_once (comment_edit p i c s) w =
    then-WriteRun (request (comment_edit p i c s)) _ w
      (returns_json-ReadsOnly "Failed to update comment") refl
run_at_most_once (comment_removal p i c) w =
    then-WriteRun (request (comment_removal p i c)) _ w
      (returns_nothing-ReadsOnly "Failed to delete comment") refl
run_at_most_once (label_new p j) w =
    then-WriteRun (request (label_new p j)) _ w (returns_json-ReadsOnly "Failed to create label")
      refl
run_at_most_once (label_removal p l pw) w =
    then-WriteRun (request (label_removal p l pw)) _ w
      (returns_nothing-ReadsOnly "Failed to delete label") refl
run_at_most_once (user_new j) w =
    then-WriteRun (request (user_new j)) _ w (returns_json-ReadsOnly "Failed to create user") refl
run_at_most_once (user_edit u j) w =
    then-WriteRun (request (user_edit u j)) _ w (returns_json-ReadsOnly "Failed to update user")
      refl
run_at_most_once (user_removal u pw) w =
    then-WriteRun (request (user_removal u pw)) _ w
      (returns_nothing-ReadsOnly "Failed to delete user") refl
run_at_most_once (me_edit j) w =
    then-WriteRun (request (me_edit j)) _ w (returns_json-ReadsOnly "Failed to update user") refl
run_at_most_once (project_new j) w =
    then-WriteRun (request (project_new j)) _ w (returns_json-ReadsOnly "Failed to create project")
      refl
run_at_most_once (project_edit p j) w =
    then-WriteRun (request (project_edit p j)) _ w
      (returns_json-ReadsOnly "Failed to update project") refl
run_at_most_once (project_removal p pw) w =
    then-WriteRun (request (project_removal p pw)) _ w
      (returns_nothing-ReadsOnly "Failed to delete project") refl
run_at_most_once (config_edit p j) w =
    then-WriteRun (request (config_edit p j)) _ w
      (returns_json-ReadsOnly "Failed to update status config") refl
run_at_most_once (release_new p j) w =
    then-WriteRun (request (release_new p j)) _ w
      (returns_json-ReadsOnly "Failed to create release") refl
run_at_most_once (release_edit p r j) w =
    then-WriteRun (request (release_edit p r j)) _ w
      (returns_json-ReadsOnly "Failed to update release") refl
run_at_most_once (release_removal p r pw) w =
    then-WriteRun (request (release_removal p r pw)) _ w
      (returns_nothing-ReadsOnly "Failed to delete release") refl
run_at_most_once (release_reopen p r) w =
    then-WriteRun (request (release_reopen p r)) _ w
      (returns_json-ReadsOnly "Failed to reopen release") refl
run_at_most_once (release_trigger p r b) w =
    then-WriteRun (request (release_trigger p r b)) _ w
      (returns_json-ReadsOnly "Failed to trigger release") refl
