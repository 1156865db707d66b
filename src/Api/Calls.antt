-- ===== src/Api/Calls.antt =====
-- The writes of static/js/api.js as one type, for what holds of each of them.
pub mod Laws
pub mod Verdict
use wuflow.Base.{ℕ, String, Bool, Option, none, some, List, [], ◌∷◌}
use wuflow.Api.Json.{Json, bool, num, empty, str, one_field, two_fields}
use wuflow.Api.Fetch.{Segment, word, id, Request, Error, World, Result, ok, err, M}
use wuflow.Api.Call.{post_to, put_to, delete_at, in_project, in_issue}
use wuflow.Api.Endpoints.Issues.{
  update_request, create_issue, update_issue, update_issue_positions, archive_issue,
  unarchive_issue, move_issue, create_task, update_task, update_task_positions, delete_task,
  delete_issue,
}
use wuflow.Api.Endpoints.Content.{
  create_comment, update_comment, delete_comment, create_label, delete_label,
}
use wuflow.Api.Endpoints.Users.{create_user, update_user, delete_user, update_current_user}
use wuflow.Api.Endpoints.Projects.{
  create_project, update_project, delete_project, update_status_config, create_release,
  update_release, delete_release, reopen_release, trigger_release,
}

pub data Write : Type 0 where
  issue_new : ℕ → Json → Write
  issue_edit : ℕ → ℕ → Json → Option String → Write
  issue_positions : ℕ → Json → Write
  issue_archive issue_unarchive : ℕ → ℕ → Write
  issue_move : ℕ → ℕ → ℕ → String → Write
  issue_removal : ℕ → ℕ → String → Write
  task_new : ℕ → ℕ → Json → Write
  task_edit : ℕ → ℕ → ℕ → Json → Write
  task_positions : ℕ → ℕ → Json → Write
  task_removal : ℕ → ℕ → ℕ → Write
  comment_new : ℕ → ℕ → String → Write
  comment_edit : ℕ → ℕ → ℕ → String → Write
  comment_removal : ℕ → ℕ → ℕ → Write
  label_new : ℕ → Json → Write
  label_removal : ℕ → ℕ → String → Write
  user_new : Json → Write
  user_edit : ℕ → Json → Write
  user_removal : ℕ → String → Write
  me_edit : Json → Write
  project_new : Json → Write
  project_edit : ℕ → Json → Write
  project_removal : ℕ → String → Write
  config_edit : ℕ → Json → Write
  release_new : ℕ → Json → Write
  release_edit : ℕ → ℕ → Json → Write
  release_removal : ℕ → ℕ → String → Write
  release_reopen : ℕ → ℕ → Write
  release_trigger : ℕ → ℕ → Bool → Write

-- The call, with its answer forgotten: whether it threw, and the world after it.
abbrev pub forget : {A : Type 0} → Result A × World → Option Error × World
forget (ok a, w) = (none, w)
forget (err e, w) = (some e, w)

unfoldable pub run : Write → World → Option Error × World
run (issue_new p j) w = forget (create_issue p j w)
run (issue_edit p i j t) w = forget (update_issue p i j t w)
run (issue_positions p j) w = forget (update_issue_positions p j w)
run (issue_archive p i) w = forget (archive_issue p i w)
run (issue_unarchive p i) w = forget (unarchive_issue p i w)
run (issue_move p i n pw) w = forget (move_issue p i n pw w)
run (issue_removal p i pw) w = forget (delete_issue p i pw w)
run (task_new p i j) w = forget (create_task p i j w)
run (task_edit p i t j) w = forget (update_task p i t j w)
run (task_positions p i j) w = forget (update_task_positions p i j w)
run (task_removal p i t) w = forget (delete_task p i t w)
run (comment_new p i s) w = forget (create_comment p i s w)
run (comment_edit p i c s) w = forget (update_comment p i c s w)
run (comment_removal p i c) w = forget (delete_comment p i c w)
run (label_new p j) w = forget (create_label p j w)
run (label_removal p l pw) w = forget (delete_label p l pw w)
run (user_new j) w = forget (create_user j w)
run (user_edit u j) w = forget (update_user u j w)
run (user_removal u pw) w = forget (delete_user u pw w)
run (me_edit j) w = forget (update_current_user j w)
run (project_new j) w = forget (create_project j w)
run (project_edit p j) w = forget (update_project p j w)
run (project_removal p pw) w = forget (delete_project p pw w)
run (config_edit p j) w = forget (update_status_config p j w)
run (release_new p j) w = forget (create_release p j w)
run (release_edit p r j) w = forget (update_release p r j w)
run (release_removal p r pw) w = forget (delete_release p r pw w)
run (release_reopen p r) w = forget (reopen_release p r w)
run (release_trigger p r b) w = forget (trigger_release p r b w)

abbrev project_at : ℕ → List Segment → List Segment
project_at p rest = word "projects" ∷ id p ∷ rest

abbrev issue_at : ℕ → ℕ → List Segment → List Segment
issue_at p i rest = project_at p (word "issues" ∷ id i ∷ rest)

abbrev release_at : ℕ → ℕ → List Segment → List Segment
release_at p r rest = project_at p (word "releases" ∷ id r ∷ rest)

abbrev password : String → Option Json
password pw = some (one_field "admin_password" (str pw))

-- The request that each write stands for, after docs/api.md.
abbrev pub request : Write → Request
request (issue_new p j) = post_to (project_at p (word "issues" ∷ [])) j
request (issue_edit p i j t) = update_request p i j t
request (issue_positions p j) = put_to (project_at p (word "issues" ∷ word "positions" ∷ [])) j
request (issue_archive p i) = post_to (issue_at p i (word "archive" ∷ [])) empty
request (issue_unarchive p i) = post_to (issue_at p i (word "unarchive" ∷ [])) empty
request (issue_move p i n pw) =
    post_to (issue_at p i (word "move" ∷ []))
      (two_fields "new_project_id" (num n) "admin_password" (str pw))
request (issue_removal p i pw) = delete_at (issue_at p i []) (password pw)
request (task_new p i j) = post_to (issue_at p i (word "tasks" ∷ [])) j
request (task_edit p i t j) = put_to (issue_at p i (word "tasks" ∷ id t ∷ [])) j
request (task_positions p i j) = put_to (issue_at p i (word "tasks" ∷ word "positions" ∷ [])) j
request (task_removal p i t) = delete_at (issue_at p i (word "tasks" ∷ id t ∷ [])) none
request (comment_new p i s) =
    post_to (issue_at p i (word "comments" ∷ [])) (one_field "body" (str s))
request (comment_edit p i c s) =
    put_to (issue_at p i (word "comments" ∷ id c ∷ [])) (one_field "body" (str s))
request (comment_removal p i c) = delete_at (issue_at p i (word "comments" ∷ id c ∷ [])) none
request (label_new p j) = post_to (project_at p (word "labels" ∷ [])) j
request (label_removal p l pw) = delete_at (project_at p (word "labels" ∷ id l ∷ [])) (password pw)
request (user_new j) = post_to (word "users" ∷ []) j
request (user_edit u j) = put_to (word "users" ∷ id u ∷ []) j
request (user_removal u pw) = delete_at (word "users" ∷ id u ∷ []) (password pw)
request (me_edit j) = put_to (word "auth" ∷ word "me" ∷ []) j
request (project_new j) = post_to (word "projects" ∷ []) j
request (project_edit p j) = put_to (project_at p []) j
request (project_removal p pw) = delete_at (project_at p []) (password pw)
request (config_edit p j) = put_to (project_at p (word "statusconfig" ∷ [])) j
request (release_new p j) = post_to (project_at p (word "releases" ∷ [])) j
request (release_edit p r j) = put_to (release_at p r []) j
request (release_removal p r pw) = delete_at (release_at p r []) (password pw)
request (release_reopen p r) = post_to (release_at p r (word "reopen" ∷ [])) empty
request (release_trigger p r b) =
    post_to (release_at p r (word "release" ∷ [])) (one_field "archive_done" (bool b))
