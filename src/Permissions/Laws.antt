-- ===== src/Permissions/Laws.antt =====
-- The two policies agree, and the roles form a hierarchy.
use wuflow.Base.{Bool, true, false, Option, none, some, ◌≡◌, refl, ap, arith, List}
use wuflow.Model.{Role, sysadmin, admin, user}
use wuflow.Permissions.{
  Action, list_issues, get_issue, create_issue, update_issue, delete_issue, archive_issue,
  unarchive_issue, move_issue, create_task, update_task, delete_task, list_history, list_comments,
  create_comment, update_comment, delete_comment, list_labels, create_label, delete_label,
  list_users, get_user, create_user, update_user, delete_user, list_projects, create_project,
  update_project, delete_project, get_status_config, update_status_config, list_releases,
  get_release, create_release, update_release, delete_release, trigger_release, role_permissions,
  lists, can,
}
use wuflow.Permissions.Backend.{policy, backend_can}

same_policy : (a : Action) → role_permissions a ≡ policy a
unfolding role_permissions policy
same_policy list_issues = refl
same_policy get_issue = refl
same_policy create_issue = refl
same_policy update_issue = refl
same_policy delete_issue = refl
same_policy archive_issue = refl
same_policy unarchive_issue = refl
same_policy move_issue = refl
same_policy create_task = refl
same_policy update_task = refl
same_policy delete_task = refl
same_policy list_history = refl
same_policy list_comments = refl
same_policy create_comment = refl
same_policy update_comment = refl
same_policy delete_comment = refl
same_policy list_labels = refl
same_policy create_label = refl
same_policy delete_label = refl
same_policy list_users = refl
same_policy get_user = refl
same_policy create_user = refl
same_policy update_user = refl
same_policy delete_user = refl
same_policy list_projects = refl
same_policy create_project = refl
same_policy update_project = refl
same_policy delete_project = refl
same_policy get_status_config = refl
same_policy update_status_config = refl
same_policy list_releases = refl
same_policy get_release = refl
same_policy create_release = refl
same_policy update_release = refl
same_policy delete_release = refl
same_policy trigger_release = refl

-- The user interface offers an action exactly to the roles to which the server grants it.
pub can-eq-backend :
    (role : Option Role) (action : Option Action) → can role action ≡ backend_can role action
unfolding can backend_can
can-eq-backend none none = refl
can-eq-backend none (some action) = refl
can-eq-backend (some role) none = refl
can-eq-backend (some role) (some action) =
    ap (λ (allowed : List Role). lists allowed role) (same_policy action)

abbrev pub implies : Bool → Bool → Bool
implies true b = b
implies false b = true

admin_above :
    (a : Action)
    → (implies (lists (role_permissions a) user) (lists (role_permissions a) admin) ≡ true)
      × (implies (lists (role_permissions a) admin) (lists (role_permissions a) sysadmin) ≡ true)
unfolding role_permissions
admin_above a = (ground arith, ground arith)

-- Whatever a user may do an admin may, and whatever an admin may do a sysadmin may.
pub can_hierarchy :
    (action : Option Action)
    → (implies (can (some user) action) (can (some admin) action) ≡ true)
      × (implies (can (some admin) action) (can (some sysadmin) action) ≡ true)
unfolding can
can_hierarchy none = (refl, refl)
can_hierarchy (some action) = admin_above action
