-- ===== src/Api/Endpoints/Users.antt =====
-- static/js/api.js: the calls about users, and the user who is logged in.
use wuflow.Base.{ℕ, String, Option, none, some, [], ◌∷◌, if◌then◌else◌}
use wuflow.Api.Json.{Json, str, one_field}
use wuflow.Api.Fetch.{word, id, Response, is_ok, World, Result, ok, err, M, ◌>>=◌}
use wuflow.Api.Auth.{auth_fetch, me_request, read_json}
use wuflow.Api.Call.{
  ◌>>◌, get_from, post_to, put_to, delete_at, require_plain, returns_json, returns_nothing,
}

unfoldable pub fetch_users : M Json
fetch_users = auth_fetch (get_from (word "users" ∷ [])) >>= λ res.
    require_plain "Failed to fetch users" res >> read_json res

unfoldable pub create_user : Json → M Json
create_user user =
    auth_fetch (post_to (word "users" ∷ []) user) >>= returns_json "Failed to create user"

unfoldable pub update_user : ℕ → Json → M Json
update_user user body =
    auth_fetch (put_to (word "users" ∷ id user ∷ []) body) >>= returns_json "Failed to update user"

unfoldable pub delete_user : ℕ → String → M (Unit {0})
delete_user user admin_password =
    auth_fetch (
      delete_at (word "users" ∷ id user ∷ [])
        (some (one_field "admin_password" (str admin_password))))
    >>= returns_nothing "Failed to delete user"

abbrev read_user : Response → M (Option Json)
read_user res w = if is_ok res then (read_json res >>= λ j v. (ok (some j), v)) w else (ok none, w)

abbrev user_or_null : Result (Option Json) → Option Json
user_or_null (ok u) = u
user_or_null (err _) = none

unfoldable pub fetch_current_user : World → Option Json × World
fetch_current_user w = let (r, w') = (auth_fetch me_request >>= read_user) w in (user_or_null r, w')

unfoldable pub update_current_user : Json → M Json
update_current_user body =
    auth_fetch (put_to (word "auth" ∷ word "me" ∷ []) body) >>= returns_json "Failed to update user"
