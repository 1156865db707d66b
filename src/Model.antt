-- ===== src/Model.antt =====
-- The data that the views share: issues with what hangs on them, as static/js/domain-constants.js
-- and static/js/status-config.js name their values. Ids, positions and instants (milliseconds)
-- are natural numbers, a day `YYYY-MM-DD` is the number of days since a fixed one, which is compared as the text is,
-- and a text is its list of UTF-16 code units.
use wuflow.Base.{ℕ, Bool, true, false, Option, List, ◌==◌, ◌≡◌, arith, ==_refl}

abbrev pub Text : Type 0
Text = List ℕ

pub data Status : Type 0 where
  open_ todo stage1 stage2 stage3 stage4 done archive : Status

abbrev status_code : Status → ℕ
status_code open_ = 0
status_code todo = 1
status_code stage1 = 2
status_code stage2 = 3
status_code stage3 = 4
status_code stage4 = 5
status_code done = 6
status_code archive = 7

-- `===` of two status keys
abbrev pub status_eq : Status → Status → Bool
status_eq a b = status_code a == status_code b

pub status_eq→eq : (a b : Status) → status_eq a b ≡ true → a ≡ b
status_eq→eq a b h = ground arith

pub status_eq_refl : (a : Status) → status_eq a a ≡ true
status_eq_refl a = ==_refl (status_code a)

pub data Priority : Type 0 where
  normal high : Priority

abbrev pub is_high : Priority → Bool
is_high high = true
is_high normal = false

-- `===` of two priorities
abbrev pub priority_eq : Priority → Priority → Bool
priority_eq high p = is_high p
priority_eq normal high = false
priority_eq normal normal = true

pub data Role : Type 0 where
  sysadmin admin user : Role

pub record User : Type 0 where
  pub id : ℕ
  pub role : Role
  pub first_name : Text
  pub last_name : Text
  pub email : Text

pub record Label : Type 0 where
  pub id : ℕ
  pub name : Text

pub record Task : Type 0 where
  pub id : ℕ
  pub title : Text
  pub done : Bool
  pub position : ℕ
  pub deadline : Option ℕ

pub data ReleaseStatus : Type 0 where
  opened closed : ReleaseStatus

pub record Release : Type 0 where
  pub id : ℕ
  pub project_id : ℕ
  pub name : Text
  pub description : Option Text
  pub status : ReleaseStatus
  pub owner_id : Option ℕ
  pub release_date : Option ℕ
  pub closed_at : Option ℕ
  pub created_at : ℕ

pub record Issue : Type 0 where
  pub id : ℕ
  pub project_id : ℕ
  pub title : Text
  pub description : Option Text
  pub status : Status
  pub priority : Priority
  pub position : ℕ
  pub assignee_id : Option ℕ
  pub assignee : Option User
  pub label : Option Label
  pub release_id : Option ℕ
  pub release : Option Release
  pub deadline : Option ℕ
  pub tasks : List Task
  pub planned_dates : List ℕ
