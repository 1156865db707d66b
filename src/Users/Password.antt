-- ===== src/Users/Password.antt =====
-- static/js/components/system-settings.js: the password policy of the browser. `lower` is `toLowerCase`.
pub mod Backend
pub mod Agree
use wuflow.Base.{
  ℕ, suc, ◌+◌, Bool, true, false, not, ◌&&◌, ◌||◌, Option, none, some, List, [], ◌∷◌, map, any,
  ◌==◌, leb, ltb, if◌then◌else◌, length,
}
use wuflow.Model.{Text}
use wuflow.StatusConfig.{text}
use wuflow.Text.{is_empty, contains, text_eq}
use wuflow.Tasks.{count_codepoints, is_high_surrogate, is_low_surrogate}

pub data PasswordError : Type 0 where
  too_short too_long is_email too_common : PasswordError

abbrev pub min_password_length : ℕ
min_password_length = 12

abbrev pub max_password_bytes : ℕ
max_password_bytes = 72

-- `countUtf8Bytes`: a lone surrogate counts 3, as the encoder replaces it, and a low one behind a high one
-- only 1 more. `after` says that a high one comes before.
abbrev lone_or_pair : Bool → ℕ → ℕ → ℕ
lone_or_pair after c rest = if after && is_low_surrogate c then 1 + rest else 3 + rest

abbrev unit_bytes : Bool → ℕ → ℕ → ℕ
unit_bytes after c rest =
    if leb c 127 then 1 + rest else if leb c 2047 then 2 + rest else lone_or_pair after c rest

abbrev bytes_behind : Bool → Text → ℕ
bytes_behind after [] = 0
bytes_behind after (c ∷ s) = unit_bytes after c (bytes_behind (is_high_surrogate c) s)

unfoldable pub count_utf8_bytes : Text → ℕ
count_utf8_bytes s = bytes_behind false s

-- `PASSWORD_BLACKLIST`
abbrev pub password_blacklist : List Text
password_blacklist = map text (
    "password" ∷ "qwerty" ∷ "admin" ∷ "welcome" ∷ "login" ∷ "manager" ∷ "master" ∷ "dragon"
    ∷ "baseball" ∷ "football" ∷ "shadow" ∷ "sunshine" ∷ "freedom" ∷ "charlie" ∷ "iloveyou"
    ∷ "princess" ∷ "monkey" ∷ "donald" ∷ "michael" ∷ "123456" ∷ "111111" ∷ "000000" ∷ "abcdef"
    ∷ "passwort" ∷ "geheim" ∷ "hallo" ∷ "willkommen" ∷ "sommer" ∷ "winter" ∷ "herbst" ∷ "fruehling"
    ∷ "schatz" ∷ "liebe" ∷ "sonne" ∷ "mond" ∷ "sterne" ∷ "qwertz" ∷ "asdfgh" ∷ "yxcvbn" ∷ "fussball"
    ∷ "musik" ∷ "schule" ∷ "arbeit" ∷ [])

-- `s.replaceAll(from, to)` of single characters
abbrev pub replace_all : ℕ → ℕ → Text → Text
replace_all from to [] = []
replace_all from to (c ∷ s) = (if c == from then to else c) ∷ replace_all from to s

-- The loop over `LEET_REPLACEMENTS`, whose digits come first
abbrev pub leet_replacements : List (ℕ × ℕ)
leet_replacements =
    (48, 111) ∷ (49, 105) ∷ (51, 101) ∷ (52, 97) ∷ (53, 115) ∷ (64, 97) ∷ (36, 115) ∷ (33, 105) ∷ []

abbrev pub replace_leet : List (ℕ × ℕ) → Text → Text
replace_leet [] s = s
replace_leet ((from, to) ∷ rs) s = replace_leet rs (replace_all from to s)

-- The test of the last loop
abbrev pub blocks : Text → Text → Bool
blocks normalized word =
    if leb 4 (length word) then contains word normalized else text_eq normalized word

module _ (lower : Text → Text) where
  unfoldable pub is_blacklisted_password : Text → Bool
  is_blacklisted_password pw =
      any (λ (w : Text). text_eq w (lower pw)) password_blacklist
      || any (blocks (replace_leet leet_replacements (lower pw))) password_blacklist

  unfoldable pub validate_password_policy : Text → Text → Option PasswordError
  unfolding count_codepoints count_utf8_bytes is_blacklisted_password
  validate_password_policy password email =
      if ltb (count_codepoints password) min_password_length
      then some too_short
      else if ltb max_password_bytes (count_utf8_bytes password)
      then some too_long
      else if not (is_empty email) && text_eq (lower password) (lower email)
      then some is_email
      else if is_blacklisted_password password
      then some too_common
      else none
