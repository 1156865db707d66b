-- ===== src/Users.antt =====
-- static/js/components/system-settings.js: the dialog that creates and changes a user. An attempt is what
-- is typed into the dialog that asks for the administrator's password (static/js/utils.js); it is
-- cancelled once there are no more.
pub mod Password
pub mod Confirm
pub mod Submit
use wuflow.Base.{
  ℕ, suc, ◌+◌, String, Bool, true, false, not, ◌&&◌, ◌||◌, Option, none, some, List, [], ◌∷◌, ◌++◌,
  any, ◌==◌, leb, ltb, opt_eq, if◌then◌else◌, length,
}
use wuflow.Model.{Text, User, Role, user, admin, sysadmin}
use wuflow.Text.{trim, is_empty, is_space, text_eq}
use wuflow.Tasks.{count_codepoints}
use wuflow.Permissions.{user_can, create_user, update_user, delete_user}
use wuflow.Users.Password.{PasswordError, validate_password_policy}

-- `ROLE_RANK`
abbrev pub role_rank : Role → ℕ
role_rank user = 0
role_rank admin = 1
role_rank sysadmin = 2

unfoldable pub is_role_promotion : Role → Role → Bool
is_role_promotion from to = ltb (role_rank from) (role_rank to)

-- `userData`; an empty password is left out of what is sent.
pub record UserData : Type 0 where
  pub email : Text
  pub first_name : Text
  pub last_name : Text
  pub role : Role
  pub active : Bool
  pub password : Text

-- `editingUserOriginal`
pub record Original : Type 0 where
  pub email : Text
  pub role : Role
  pub active : Bool

-- The cases of the confirmation, with what their texts name besides the user
pub data Case : Type 0 where
  password_reset deactivation reactivation : Case
  email_change : Text → Case
  role_change : Role → Case

abbrev signs_out : Case → Bool
signs_out password_reset = true
signs_out deactivation = true
signs_out reactivation = false
signs_out (email_change e) = true
signs_out (role_change r) = true

-- The dialog of one case, or the combined one, which may say that the user is signed out.
pub data Copy : Type 0 where
  single : Case → Copy
  combined : List Case → Bool → Copy

abbrev pub same_active : Bool → Bool → Bool
same_active true b = b
same_active false b = not b

abbrev pub when : Bool → Case → List Case
when b c = if b then c ∷ [] else []

abbrev pub activity_case : UserData → Original → List Case
activity_case data_ original =
    if not data_.active && original.active
    then deactivation ∷ []
    else when (not (same_active data_.active original.active)) reactivation

abbrev pub update_cases : UserData → Original → List Case
update_cases data_ original =
    when (not (is_empty data_.password)) password_reset
    ++ (when (not (text_eq data_.email original.email)) (email_change data_.email)
        ++ (activity_case data_ original
            ++ when (is_role_promotion original.role data_.role) (role_change data_.role)))

abbrev pub copy_of : List Case → Option Copy
copy_of [] = none
copy_of (c ∷ []) = some (single c)
copy_of (c ∷ d ∷ cs) = some (combined (c ∷ d ∷ cs) (any signs_out (c ∷ d ∷ cs)))

unfoldable pub get_user_update_confirmation_copy : UserData → Original → Option Copy
unfolding is_role_promotion
get_user_update_confirmation_copy data_ original = copy_of (update_cases data_ original)

-- `EMAIL_REGEX`: one @, with something before and behind it, and no white space
abbrev is_local : ℕ → Bool
is_local c = not (is_space c || c == 64)

abbrev domain_ends : Text → Bool
domain_ends [] = true
domain_ends (c ∷ s) = is_local c && domain_ends s

abbrev pub is_domain : Text → Bool
is_domain [] = false
is_domain (c ∷ s) = domain_ends (c ∷ s)

-- After at least one character of the name
abbrev name_ends : Text → Bool
name_ends [] = false
name_ends (c ∷ s) = let rest = name_ends s in if c == 64 then is_domain s else is_local c && rest

unfoldable pub is_email_address : Text → Bool
unfolding is_space
is_email_address [] = false
is_email_address (c ∷ s) = is_local c && name_ends s

abbrev pub max_email_length : ℕ
max_email_length = 254

abbrev pub max_username_length : ℕ
max_username_length = 50

pub data UserError : Type 0 where
  invalid_email long_email names_required long_name password_required : UserError
  bad_password : PasswordError → UserError

abbrev password_error : Option PasswordError → Option UserError
password_error none = none
password_error (some e) = some (bad_password e)

-- `validateUserInput`
unfoldable pub validate_user_input : (Text → Text) → Bool → UserData → Option UserError
unfolding is_email_address count_codepoints validate_password_policy
validate_user_input lower editing d =
    if not (is_email_address d.email)
    then some invalid_email
    else if ltb max_email_length (length d.email)
    then some long_email
    else if is_empty d.first_name || is_empty d.last_name
    then some names_required
    else if ltb max_username_length (count_codepoints d.first_name)
        || ltb max_username_length (count_codepoints d.last_name)
    then some long_name
    else if not editing && is_empty d.password
    then some password_required
    else if is_empty d.password
    then none
    else password_error (validate_password_policy lower d.password d.email)

-- A request, with the administrator's password where it carries one
pub data Call : Type 0 where
  put_user : ℕ → UserData → Option Text → Call
  post_user : UserData → Call
  remove_user : ℕ → Text → Call
  post_logout : Call

pub data Outcome : Type 0 where
  invalid : UserError → Outcome
  not_allowed cancelled logged_out updated created deleted : Outcome
  shows_error : String → Outcome

pub record Submitted : Type 0 where
  pub calls : List Call
  pub outcome : Outcome

abbrev pub then_call : Call → Submitted → Submitted
then_call q d = record d { calls = q ∷ d.calls }

abbrev pub finished : Outcome → Submitted
finished o = record { calls = []; outcome = o }

-- After an attempt
abbrev pub attempted : Option String → Submitted → Submitted → Submitted
attempted none done again = done
attempted (some m) done again = again

abbrev pub is_editing : Option (ℕ × Original) → Bool
is_editing none = false
is_editing (some e) = true

abbrev pub trimmed : UserData → UserData
trimmed d = record d {
  email = trim d.email;
  first_name = trim d.first_name;
  last_name = trim d.last_name;
}

abbrev pub by_error : Option UserError → Submitted → Submitted
by_error none done = done
by_error (some e) done = finished (invalid e)

module _ (answer : Call → Option String) where
  -- `promptAdminPasswordConfirmation`: it asks again until the action succeeds; `done` follows it.
  abbrev pub prompt_admin_password_confirmation : (Text → Call) → Submitted → List Text → Submitted
  prompt_admin_password_confirmation call done [] = finished cancelled
  prompt_admin_password_confirmation call done (p ∷ ps) =
      let again = prompt_admin_password_confirmation call done ps in
      if is_empty p then again else then_call (call p) (attempted (answer (call p)) done again)

  abbrev is_self : Option User → ℕ → Bool
  is_self none id = false
  is_self (some u) id = u.id == id

  abbrev role_differs : Option User → Role → Bool
  role_differs none r = true
  role_differs (some u) r = not (role_rank u.role == role_rank r)

  -- `applyUserUpdate` once the server has taken the update
  abbrev pub update_applied : Option User → ℕ → Original → UserData → Submitted
  update_applied current id original d =
      if is_self current id
        && (not (is_empty d.password)
            || (role_differs current d.role || not (text_eq d.email original.email)))
      then then_call post_logout (finished logged_out)
      else finished updated

  abbrev pub put_plain : Option String → Call → Submitted → Submitted
  put_plain none q done = then_call q done
  put_plain (some m) q done = then_call q (finished (shows_error m))

  abbrev pub confirmed_first :
      Option Copy → (Option Text → Call) → Submitted → List Text → Submitted
  confirmed_first none call done attempts = put_plain (answer (call none)) (call none) done
  confirmed_first (some copy) call done attempts =
      prompt_admin_password_confirmation (λ (p : Text). call (some p)) done attempts

  unfoldable pub apply_user_update : Option User → ℕ → Original → UserData → List Text → Submitted
  unfolding get_user_update_confirmation_copy
  apply_user_update current id original d attempts =
      confirmed_first (get_user_update_confirmation_copy d original) (put_user id d)
        (update_applied current id original d) attempts

  abbrev pub posted : Option String → Call → Submitted
  posted none q = then_call q (finished created)
  posted (some m) q = then_call q (finished (shows_error m))

  -- The user that is edited, as loaded, or none for a new one
  abbrev pub submit_valid : Option User → Option (ℕ × Original) → UserData → List Text → Submitted
  submit_valid current none d attempts =
      if user_can current create_user
      then posted (answer (post_user d)) (post_user d)
      else finished not_allowed
  submit_valid current (some (id, original)) d attempts =
      if user_can current update_user
      then apply_user_update current id original d attempts
      else finished not_allowed

  -- `handleUserSubmit`
  unfoldable pub handle_user_submit :
      (Text → Text) → Option User → Option (ℕ × Original) → UserData → List Text → Submitted
  unfolding apply_user_update validate_user_input trim
  handle_user_submit lower current editing typed attempts =
      by_error (validate_user_input lower (is_editing editing) (trimmed typed))
        (submit_valid current editing (trimmed typed) attempts)

  -- `handleDeleteUser` of the user that is edited
  unfoldable pub handle_delete_user : Option User → ℕ → List Text → Submitted
  handle_delete_user current id attempts =
      if is_self current id
      then finished not_allowed
      else if not (user_can current delete_user)
      then finished not_allowed
      else prompt_admin_password_confirmation (remove_user id) (finished deleted) attempts
