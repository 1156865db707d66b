-- ===== src/Users/Confirm.antt =====
-- When an update of a user needs the administrator's password: the browser against the server
-- (backend/handlers.go, `validateAndPrepareUserUpdate`, and backend/models.go, `roleRank`).
use wuflow.Base.{
  ℕ, Bool, true, false, not, ◌||◌, Option, none, some, List, [], ◌∷◌, ◌++◌, ltb, ◌≡◌, refl, ap₂,
  ◌∙◌, is_filled, Bool-cases, inl, inr, arith,
}
use wuflow.Model.{Text, Role, user, admin, sysadmin}
use wuflow.Text.{is_empty, text_eq}
use wuflow.Users.{
  UserData, Original, Case, password_reset, reactivation, email_change, role_change, when,
  activity_case, Copy, update_cases, copy_of, is_role_promotion, get_user_update_confirmation_copy,
}

abbrev pub rank : Role → ℕ
rank user = 0
rank admin = 1
rank sysadmin = 2

abbrev active_differs : Bool → Bool → Bool
active_differs true b = not b
active_differs false b = b

-- The condition of `verifyAdminPassword`, with the email as `strings.TrimSpace` leaves it
unfoldable pub verifies_admin_password : (Text → Text) → UserData → Original → Bool
verifies_admin_password trim_space req original =
    not (is_empty req.password)
    || (ltb (rank original.role) (rank req.role)
        || (active_differs req.active original.active
            || not (text_eq (trim_space req.email) original.email)))

abbrev pub asks : Option Copy → Bool
asks none = false
asks (some c) = true

asks-copy_of : (cs : List Case) → asks (copy_of cs) ≡ is_filled cs
asks-copy_of [] = refl
asks-copy_of (c ∷ []) = refl
asks-copy_of (c ∷ d ∷ cs) = refl

is_filled-append : (xs ys : List Case) → is_filled (xs ++ ys) ≡ (is_filled xs || is_filled ys)
is_filled-append [] ys = refl
is_filled-append (x ∷ xs) ys = refl

is_filled-when : (b : Bool) (c : Case) → is_filled (when b c) ≡ b
is_filled-when true c = refl
is_filled-when false c = refl

is_filled-activity_case :
    (d : UserData) (o : Original) → is_filled (activity_case d o) ≡ active_differs d.active o.active
is_filled-activity_case d o = elim (Bool-cases d.active) [
  | inl a ↦ rw a (is_filled-when (not o.active) reactivation)
  | inr a ↦ elim (Bool-cases o.active) [ inl b ↦ rw (a, b) refl | inr b ↦ rw (a, b) refl ]
]

-- The browser asks for the administrator's password exactly when the server demands it, for an email that
-- the server leaves as it is.
pub get_user_update_confirmation_copy-eq-backend :
    (trim_space : Text → Text) (d : UserData) (original : Original)
    → trim_space d.email ≡ d.email
    → asks (get_user_update_confirmation_copy d original)
      ≡ verifies_admin_password trim_space d original
unfolding get_user_update_confirmation_copy verifies_admin_password is_role_promotion
get_user_update_confirmation_copy-eq-backend trim_space d original e =
    let p = not (is_empty d.password) in
    let m = not (text_eq d.email original.email) in
    rw e (
      asks-copy_of (update_cases d original)
      ∙ (is_filled-append (when p password_reset) _
          ∙ ap₂ ◌||◌ (is_filled-when p password_reset) (
              is_filled-append (when m (email_change d.email)) _
              ∙ ap₂ ◌||◌ (is_filled-when m (email_change d.email)) (
                  is_filled-append (activity_case d original) _
                  ∙ ap₂ ◌||◌ (is_filled-activity_case d original) (
                      is_filled-when (is_role_promotion original.role d.role)
                        (role_change d.role))))
          ∙ ground arith))
