-- ===== src/Permissions.antt =====
-- static/js/permissions.js: which role may do what in the user interface, and the policy of
-- backend/permissions.go that it mirrors. A name that is null, or that neither table knows, is
-- `none`.
pub mod Backend
pub mod Laws
use wuflow.Base.{Bool, true, false, ◌||◌, Option, none, some, List, [], ◌∷◌}
use wuflow.Model.{Role, sysadmin, admin, user, User}

-- The `ACTION_` constants.
pub data Action : Type 0 where
  list_issues get_issue create_issue update_issue delete_issue archive_issue : Action
  unarchive_issue move_issue create_task update_task delete_task list_history : Action
  list_comments create_comment update_comment delete_comment list_labels create_label : Action
  delete_label list_users get_user create_user update_user delete_user list_projects : Action
  create_project update_project delete_project get_status_config update_status_config : Action
  list_releases get_release create_release update_release delete_release : Action
  trigger_release : Action

abbrev pub is_role : Role → Role → Bool
is_role sysadmin sysadmin = true
is_role admin admin = true
is_role user user = true
is_role _ _ = false

-- `allowed.includes(role)`
abbrev pub lists : List Role → Role → Bool
lists [] r = false
lists (s ∷ ss) r = is_role s r || lists ss r

-- The object `rolePermissions`.
unfoldable pub role_permissions : Action → List Role
role_permissions list_issues = sysadmin ∷ admin ∷ user ∷ []
role_permissions get_issue = sysadmin ∷ admin ∷ user ∷ []
role_permissions create_issue = sysadmin ∷ admin ∷ user ∷ []
role_permissions update_issue = sysadmin ∷ admin ∷ user ∷ []
role_permissions delete_issue = sysadmin ∷ admin ∷ []
role_permissions archive_issue = sysadmin ∷ admin ∷ []
role_permissions unarchive_issue = sysadmin ∷ admin ∷ []
role_permissions move_issue = sysadmin ∷ admin ∷ []
role_permissions create_task = sysadmin ∷ admin ∷ user ∷ []
role_permissions update_task = sysadmin ∷ admin ∷ user ∷ []
role_permissions delete_task = sysadmin ∷ admin ∷ user ∷ []
role_permissions list_history = sysadmin ∷ admin ∷ user ∷ []
role_permissions list_comments = sysadmin ∷ admin ∷ user ∷ []
role_permissions create_comment = sysadmin ∷ admin ∷ user ∷ []
role_permissions update_comment = sysadmin ∷ admin ∷ user ∷ []
role_permissions delete_comment = sysadmin ∷ admin ∷ user ∷ []
role_permissions list_labels = sysadmin ∷ admin ∷ user ∷ []
role_permissions create_label = sysadmin ∷ admin ∷ []
role_permissions delete_label = sysadmin ∷ admin ∷ []
role_permissions list_users = sysadmin ∷ admin ∷ user ∷ []
role_permissions get_user = sysadmin ∷ admin ∷ user ∷ []
role_permissions create_user = sysadmin ∷ []
role_permissions update_user = sysadmin ∷ []
role_permissions delete_user = sysadmin ∷ []
role_permissions list_projects = sysadmin ∷ admin ∷ user ∷ []
role_permissions create_project = sysadmin ∷ []
role_permissions update_project = sysadmin ∷ []
role_permissions delete_project = sysadmin ∷ []
role_permissions get_status_config = sysadmin ∷ admin ∷ user ∷ []
role_permissions update_status_config = sysadmin ∷ admin ∷ []
role_permissions list_releases = sysadmin ∷ admin ∷ user ∷ []
role_permissions get_release = sysadmin ∷ admin ∷ user ∷ []
role_permissions create_release = sysadmin ∷ admin ∷ []
role_permissions update_release = sysadmin ∷ admin ∷ []
role_permissions delete_release = sysadmin ∷ admin ∷ []
role_permissions trigger_release = sysadmin ∷ admin ∷ []

unfoldable pub can : Option Role → Option Action → Bool
unfolding role_permissions
can none action = false
can (some role) none = false
can (some role) (some action) = lists (role_permissions action) role

abbrev role_of : Option User → Option Role
role_of none = none
role_of (some u) = some u.role

-- `userCan`
unfoldable pub user_can : Option User → Action → Bool
unfolding can
user_can u action = can (role_of u) (some action)

unfoldable pub is_comment_moderator : Option User → Bool
is_comment_moderator none = false
is_comment_moderator (some u) = is_role u.role sysadmin || is_role u.role admin
