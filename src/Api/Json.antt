-- ===== src/Api/Json.antt =====
-- JSON values, as `JSON.stringify` is given them and `res.json()` returns them. The numbers of the
-- protocol (ids, positions, status codes) are natural numbers.
use wuflow.Base.{ℕ, String, Bool, true, false, not, Option, none, some, str_eq, ◌==◌}

mutual
  pub data Json : Type 0 where
    null : Json
    bool : Bool → Json
    num : ℕ → Json
    str : String → Json
    arr : Items → Json
    obj : Fields → Json

  pub data Items : Type 0 where
    nil : Items
    cons : Json → Items → Items

  pub data Fields : Type 0 where
    end : Fields
    field : String → Json → Fields → Fields

-- Which values JavaScript takes for true: all but null, false, 0 and ''.
unfoldable pub is_truthy : Json → Bool
is_truthy null = false
is_truthy (bool b) = b
is_truthy (num n) = not (n == 0)
is_truthy (str s) = not (str_eq s "")
is_truthy (arr xs) = true
is_truthy (obj fs) = true

-- `{}`, and objects of one and two fields.
abbrev pub empty : Json
empty = obj end

abbrev pub one_field : String → Json → Json
one_field k v = obj (field k v end)

abbrev pub two_fields : String → Json → String → Json → Json
two_fields k v l u = obj (field k v (field l u end))

abbrev pub num_or_null : Option ℕ → Json
num_or_null none = null
num_or_null (some n) = num n
