-- ===== src/Tests/Data.antt =====
-- A project with three issues, and a server that takes or refuses every request.
use wuflow.Base.{ℕ, true, none, some, [], refl}
use wuflow.Model.{Issue, Status, todo, User, admin, normal}
use wuflow.Store.{Heap}
use wuflow.Order.{Surroundings}
use wuflow.Order.Rollback.{IsQuiet}
use wuflow.View.{Callbacks}

abbrev pub issue_at : Status → ℕ → ℕ → Issue
issue_at status id position = record {
  id = id;
  project_id = 7;
  title = [];
  description = none;
  status = status;
  priority = normal;
  position = position;
  assignee_id = none;
  assignee = none;
  label = none;
  release_id = none;
  release = none;
  deadline = none;
  tasks = [];
  planned_dates = [];
}

-- Issue r stands at position r of Todo.
abbrev pub page : Heap
page r = issue_at todo r r

abbrev pub accepting : Surroundings
accepting = record {
  answer = λ _. none;
  while_saving = λ (h : Heap). h;
  while_ordering = λ (h : Heap). h;
}

abbrev pub refusing : Surroundings
refusing = record {
  answer = λ _. some "refused";
  while_saving = λ (h : Heap). h;
  while_ordering = λ (h : Heap). h;
}

pub accepting-IsQuiet : IsQuiet accepting
accepting-IsQuiet = (λ h. refl, λ h. refl)

pub refusing-IsQuiet : IsQuiet refusing
refusing-IsQuiet = (λ h. refl, λ h. refl)

abbrev pub callbacks : Callbacks
callbacks = record { has_rerender = true; has_refresh = true }

abbrev pub somebody : User
somebody = record { id = 4; role = admin; first_name = []; last_name = []; email = [] }
