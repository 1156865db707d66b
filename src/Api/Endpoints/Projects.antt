-- ===== src/Api/Endpoints/Projects.antt =====
-- static/js/api.js: the calls about projects, their status configuration and their releases.
use wuflow.Base.{ℕ, String, Bool, some, List, [], ◌∷◌}
use wuflow.Api.Json.{Json, bool, empty, str, one_field}
use wuflow.Api.Fetch.{Segment, word, id, World, M, ◌>>=◌}
use wuflow.Api.Auth.{auth_fetch}
use wuflow.Api.Call.{
  get_from, post_to, put_to, delete_at, in_project, returns_json, returns_nothing, list_or_empty,
}

unfoldable pub fetch_projects : World → Json × World
fetch_projects = list_or_empty (get_from (word "projects" ∷ []))

unfoldable pub create_project : Json → M Json
create_project project =
    auth_fetch (post_to (word "projects" ∷ []) project) >>= returns_json "Failed to create project"

unfoldable pub update_project : ℕ → Json → M Json
update_project project body =
    auth_fetch (put_to (in_project project []) body) >>= returns_json "Failed to update project"

unfoldable pub delete_project : ℕ → String → M (Unit {0})
delete_project project admin_password =
    auth_fetch
      (delete_at (in_project project []) (some (one_field "admin_password" (str admin_password))))
    >>= returns_nothing "Failed to delete project"

unfoldable pub fetch_status_config : ℕ → M Json
fetch_status_config project =
    auth_fetch (get_from (in_project project (word "statusconfig" ∷ [])))
    >>= returns_json "Failed to fetch status config"

unfoldable pub update_status_config : ℕ → Json → M Json
update_status_config project config =
    auth_fetch (put_to (in_project project (word "statusconfig" ∷ [])) config)
    >>= returns_json "Failed to update status config"

-- `/projects/${projectId}/releases` and what lies below it
abbrev releases_of : ℕ → List Segment → List Segment
releases_of project rest = in_project project (word "releases" ∷ rest)

unfoldable pub fetch_releases : ℕ → M Json
fetch_releases project =
    auth_fetch (get_from (releases_of project [])) >>= returns_json "Failed to fetch releases"

unfoldable pub create_release : ℕ → Json → M Json
create_release project release =
    auth_fetch (post_to (releases_of project []) release)
    >>= returns_json "Failed to create release"

unfoldable pub update_release : ℕ → ℕ → Json → M Json
update_release project release body =
    auth_fetch (put_to (releases_of project (id release ∷ [])) body)
    >>= returns_json "Failed to update release"

unfoldable pub delete_release : ℕ → ℕ → String → M (Unit {0})
delete_release project release admin_password =
    auth_fetch (
      delete_at (releases_of project (id release ∷ []))
        (some (one_field "admin_password" (str admin_password))))
    >>= returns_nothing "Failed to delete release"

unfoldable pub reopen_release : ℕ → ℕ → M Json
reopen_release project release =
    auth_fetch (post_to (releases_of project (id release ∷ word "reopen" ∷ [])) empty)
    >>= returns_json "Failed to reopen release"

unfoldable pub trigger_release : ℕ → ℕ → Bool → M Json
trigger_release project release archive_done =
    auth_fetch (
      post_to (releases_of project (id release ∷ word "release" ∷ []))
        (one_field "archive_done" (bool archive_done)))
    >>= returns_json "Failed to trigger release"
