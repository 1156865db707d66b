-- ===== src/Tests/Accounts.antt =====
-- Users and their passwords.
use wuflow.Base.{Bool, true, false, String, none, some, Option, [], ◌∷◌, map, All, ◌≡◌, refl, arith}
use wuflow.Model.{Text, User, sysadmin, user}
use wuflow.StatusConfig.{text}
use wuflow.Text.{text_eq}
use wuflow.Users
use wuflow.Users.Password.{validate_password_policy}
use wuflow.Users.Password.Backend.{validate_password}
use wuflow.Users.Password.Agree.{ascii_lower, validate_password_policy-eq-backend}
use wuflow.Users.Confirm.{
  asks, verifies_admin_password, get_user_update_confirmation_copy-eq-backend,
}
use wuflow.Users.Submit.{Sendable, handle_user_submit-Sendable}

-- Letters of ASCII are folded, all others stay.
abbrev lower : Text → Text
lower t = map ascii_lower t

abbrev equal_fold : Text → Text → Bool
equal_fold a b = text_eq (lower a) (lower b)

validate_password_policy-eq-backend_example :
    validate_password_policy lower (text "My-P4ssw0rd-7") (text "a@b")
    ≡ validate_password lower equal_fold (text "My-P4ssw0rd-7") (text "a@b")
validate_password_policy-eq-backend_example =
    validate_password_policy-eq-backend lower lower equal_fold (λ t a. refl) (λ t a. refl)
      (λ a b h k. refl) (text "My-P4ssw0rd-7") (text "a@b") (ground arith) (ground arith)

-- The password is the reason.
is_too_common :
    validate_password_policy lower (text "My-P4ssw0rd-7") (text "a@b")
    ≡ some Users.Password.too_common
unfolding validate_password_policy Users.Password.is_blacklisted_password text_eq
    wuflow.Text.contains
is_too_common = refl

abbrev same : Text → Text
same t = t

-- The email changes and the user is promoted.
abbrev changed : Users.UserData
changed = record {
  email = text "new@b";
  first_name = text "Ann";
  last_name = text "Bee";
  role = sysadmin;
  active = true;
  password = [];
}

abbrev before : Users.Original
before = record { email = text "old@b"; role = user; active = true }

get_user_update_confirmation_copy-eq-backend_example :
    asks (Users.get_user_update_confirmation_copy changed before)
    ≡ verifies_admin_password same changed before
get_user_update_confirmation_copy-eq-backend_example =
    get_user_update_confirmation_copy-eq-backend same changed before refl

abbrev sysadmin_user : User
sysadmin_user = record { id = 1; role = sysadmin; first_name = []; last_name = []; email = [] }

-- The first password is wrong.
abbrev checks : Users.Call → Option String
checks (Users.put_user id d (some p)) = elim (text_eq p (text "right")) [
  | true ↦ none
  | false ↦ some "wrong"
]
checks _ = none

handle_user_submit-Sendable_example :
    All
      (Sendable lower (some sysadmin_user) (some (4, before)))
      (Users.handle_user_submit checks lower
        (some sysadmin_user)
        (some (4, before))
        changed
        (text "wrong" ∷ text "right" ∷ [])).calls
handle_user_submit-Sendable_example =
    handle_user_submit-Sendable checks lower (some sysadmin_user) (some (4, before)) changed
      (text "wrong" ∷ text "right" ∷ [])
