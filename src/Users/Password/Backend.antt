-- ===== src/Users/Password/Backend.antt =====
-- backend/validation.go, `ValidatePassword`: the password policy of the server. Its strings stand here as the
-- browser sends them. `to_lower` is strings.ToLower, `equal_fold` strings.EqualFold.
use wuflow.Base.{ℕ, Bool, Option, none, some, map, any, ◌==◌, leb, ltb, if◌then◌else◌, length}
use wuflow.Model.{Text}
use wuflow.Text.{contains, text_eq}
use wuflow.Tasks.{count_codepoints}
use wuflow.Users.Password.{
  PasswordError, too_short, too_long, is_email, too_common, min_password_length, max_password_bytes,
  count_utf8_bytes, password_blacklist,
}

-- strings.NewReplacer of single characters replaces each of them once.
abbrev pub replaced : ℕ → ℕ
replaced c =
    if c == 48
    then 111
    else if c == 49
    then 105
    else if c == 51
    then 101
    else if c == 52
    then 97
    else if c == 53
    then 115
    else if c == 64
    then 97
    else if c == 36
    then 115
    else if c == 33
    then 105
    else c

abbrev pub matches_word : Text → Text → Bool
matches_word normalized blocked =
    if leb 4 (length blocked) then contains blocked normalized else text_eq normalized blocked

module _ (to_lower : Text → Text) where
  unfoldable pub is_blacklisted : Text → Bool
  is_blacklisted pw = any (matches_word (map replaced (to_lower pw))) password_blacklist

module _ (to_lower : Text → Text) (equal_fold : Text → Text → Bool) where
  unfoldable pub validate_password : Text → Text → Option PasswordError
  unfolding count_codepoints count_utf8_bytes is_blacklisted
  validate_password password email =
      if ltb (count_codepoints password) min_password_length
      then some too_short
      else if ltb max_password_bytes (count_utf8_bytes password)
      then some too_long
      else if equal_fold password email
      then some is_email
      else if is_blacklisted to_lower password
      then some too_common
      else none
