-- ===== src/Api/Endpoints/Content.antt =====
-- static/js/api.js: the calls about an issue's history and comments, about labels and the version.
use wuflow.Base.{ℕ, String, none, some, [], ◌∷◌, str_eq, if◌then◌else◌}
use wuflow.Api.Json.{Json, Fields, obj, end, field, null, str, one_field, is_truthy}
use wuflow.Api.Fetch.{word, id, World, Result, ok, err, engine, M, ◌>>=◌}
use wuflow.Api.Auth.{auth_fetch, read_json}
use wuflow.Api.Call.{
  get_from, post_to, put_to, delete_at, in_project, in_issue, returns_json, returns_nothing,
}

unfoldable pub fetch_history : ℕ → ℕ → M Json
fetch_history project issue =
    auth_fetch (get_from (in_issue project issue (word "history" ∷ [])))
    >>= returns_json "Failed to fetch history"

unfoldable pub fetch_comments : ℕ → ℕ → M Json
fetch_comments project issue =
    auth_fetch (get_from (in_issue project issue (word "comments" ∷ [])))
    >>= returns_json "Failed to fetch comments"

unfoldable pub create_comment : ℕ → ℕ → String → M Json
create_comment project issue body =
    auth_fetch
      (post_to (in_issue project issue (word "comments" ∷ [])) (one_field "body" (str body)))
    >>= returns_json "Failed to add comment"

unfoldable pub update_comment : ℕ → ℕ → ℕ → String → M Json
update_comment project issue comment body =
    auth_fetch (
      put_to (in_issue project issue (word "comments" ∷ id comment ∷ []))
        (one_field "body" (str body)))
    >>= returns_json "Failed to update comment"

unfoldable pub delete_comment : ℕ → ℕ → ℕ → M (Unit {0})
delete_comment project issue comment =
    auth_fetch (delete_at (in_issue project issue (word "comments" ∷ id comment ∷ [])) none)
    >>= returns_nothing "Failed to delete comment"

unfoldable pub fetch_labels_by_project : ℕ → M Json
fetch_labels_by_project project =
    auth_fetch (get_from (in_project project (word "labels" ∷ [])))
    >>= returns_json "Failed to fetch labels"

unfoldable pub create_label : ℕ → Json → M Json
create_label project label =
    auth_fetch (post_to (in_project project (word "labels" ∷ [])) label)
    >>= returns_json "Failed to create label"

unfoldable pub delete_label : ℕ → ℕ → String → M (Unit {0})
delete_label project label admin_password =
    auth_fetch (
      delete_at (in_project project (word "labels" ∷ id label ∷ []))
        (some (one_field "admin_password" (str admin_password))))
    >>= returns_nothing "Failed to delete label"

-- `data.version || 'Unknown'`. `null.version` throws; what is no object has no such field.
abbrev version_field : Fields → Json
version_field end = null
version_field (field k v rest) = if str_eq k "version" then v else version_field rest

abbrev version_of : Json → Result Json
version_of null = err engine
version_of (obj fs) = ok (let v = version_field fs in if is_truthy v then v else str "Unknown")
version_of _ = ok (str "Unknown")

abbrev known_version : Result Json → Json
known_version (ok v) = v
known_version (err _) = str "Unknown"

unfoldable pub fetch_version : World → Json × World
fetch_version w =
    let (r, w') =
      (auth_fetch (get_from (word "version" ∷ [])) >>= read_json >>= λ j v. (version_of j, v)) w in
    (known_version r, w')
