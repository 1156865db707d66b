-- ===== src/Permissions/Backend.antt =====
-- backend/permissions.go, the policy that the server enforces. The zero role and an action
-- outside the table are `none`.
use wuflow.Base.{Bool, false, Option, none, some, List, [], ◌∷◌}
use wuflow.Model.{Role, sysadmin, admin, user}
use wuflow.Permissions.{
  Action, list_issues, get_issue, create_issue, update_issue, delete_issue, archive_issue,
  unarchive_issue, move_issue, create_task, update_task, delete_task, list_history, list_comments,
  create_comment, update_comment, delete_comment, list_labels, create_label, delete_label,
  list_users, get_user, create_user, update_user, delete_user, list_projects, create_project,
  update_project, delete_project, get_status_config, update_status_config, list_releases,
  get_release, create_release, update_release, delete_release, trigger_release, lists,
}

-- The map `rolePermissions`.
unfoldable pub policy : Action → List Role
policy list_issues = sysadmin ∷ admin ∷ user ∷ []
policy get_issue = sysadmin ∷ admin ∷ user ∷ []
policy create_issue = sysadmin ∷ admin ∷ user ∷ []
policy update_issue = sysadmin ∷ admin ∷ user ∷ []
policy delete_issue = sysadmin ∷ admin ∷ []
policy archive_issue = sysadmin ∷ admin ∷ []
policy unarchive_issue = sysadmin ∷ admin ∷ []
policy move_issue = sysadmin ∷ admin ∷ []
policy create_task = sysadmin ∷ admin ∷ user ∷ []
policy update_task = sysadmin ∷ admin ∷ user ∷ []
policy delete_task = sysadmin ∷ admin ∷ user ∷ []
policy list_history = sysadmin ∷ admin ∷ user ∷ []
policy list_comments = sysadmin ∷ admin ∷ user ∷ []
policy create_comment = sysadmin ∷ admin ∷ user ∷ []
policy update_comment = sysadmin ∷ admin ∷ user ∷ []
policy delete_comment = sysadmin ∷ admin ∷ user ∷ []
policy list_labels = sysadmin ∷ admin ∷ user ∷ []
policy create_label = sysadmin ∷ admin ∷ []
policy delete_label = sysadmin ∷ admin ∷ []
policy list_users = sysadmin ∷ admin ∷ user ∷ []
policy get_user = sysadmin ∷ admin ∷ user ∷ []
policy create_user = sysadmin ∷ []
policy update_user = sysadmin ∷ []
policy delete_user = sysadmin ∷ []
policy list_projects = sysadmin ∷ admin ∷ user ∷ []
policy create_project = sysadmin ∷ []
policy update_project = sysadmin ∷ []
policy delete_project = sysadmin ∷ []
policy get_status_config = sysadmin ∷ admin ∷ user ∷ []
policy update_status_config = sysadmin ∷ admin ∷ []
policy list_releases = sysadmin ∷ admin ∷ user ∷ []
policy get_release = sysadmin ∷ admin ∷ user ∷ []
policy create_release = sysadmin ∷ admin ∷ []
policy update_release = sysadmin ∷ admin ∷ []
policy delete_release = sysadmin ∷ admin ∷ []
policy trigger_release = sysadmin ∷ admin ∷ []

-- `Can`
unfoldable pub backend_can : Option Role → Option Action → Bool
unfolding policy
backend_can role none = false
backend_can none (some action) = false
backend_can (some role) (some action) = lists (policy action) role
