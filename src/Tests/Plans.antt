-- ===== src/Tests/Plans.antt =====
-- An issue in the plan.
use wuflow.Base.{
  ℕ, Bool, false, true, not, ◌&&◌, ◌||◌, some, [], ◌∷◌, ◌==◌, opt_eq, ◌≡◌, refl, includes, Distinct,
  SortedBy,
}
use wuflow.Model.{Issue, Task, todo}
use wuflow.Store.{Heap}
use wuflow.Permissions.{user_can}
use wuflow.Planning.{
  Card, with_dates, moved_dates, get_effective_deadline_info, handle_planning_drop,
}
use wuflow.Planning.Dates.{moved_dates-includes}
use wuflow.Planning.Drops.{Ended, to_plan, handle_planning_drop-Planned}
use wuflow.Planning.Deadline.{Earliest, get_effective_deadline_info-Earliest}
use wuflow.Tests.Data.{page, issue_at, refusing, refusing-IsQuiet, callbacks, somebody}

-- From the 12th to the 9th; the 10th stays.
moved_dates-includes_example :
    Distinct (moved_dates (some 20260312) 20260309 (20260310 ∷ 20260312 ∷ []))
    × (SortedBy (λ (d : ℕ). d) (moved_dates (some 20260312) 20260309 (20260310 ∷ 20260312 ∷ []))
        × ((a : ℕ)
            → includes (moved_dates (some 20260312) 20260309 (20260310 ∷ 20260312 ∷ [])) a ≡ (
                (includes (20260310 ∷ 20260312 ∷ []) a && not (opt_eq (some 20260312) (some a)))
                || (20260309 == a))))
moved_dates-includes_example =
    moved_dates-includes (some 20260312) 20260309 (20260310 ∷ 20260312 ∷ []) (refl, (refl, tt)) refl

-- Issue 1 is planned on the 12th.
abbrev planned_page : Heap
planned_page r = with_dates (20260312 ∷ []) (page r)

abbrev dragged : Card
dragged = record { id = 1; source = some 20260312 }

handle_planning_drop-Planned_example :
    Ended refusing callbacks planned_page
      (handle_planning_drop refusing callbacks
        (some somebody)
        (some dragged)
        (some 20260309)
        (0 ∷ 1 ∷ [])
        planned_page)
      (to_plan (some somebody) (some dragged) (some 20260309) (0 ∷ 1 ∷ []) planned_page)
handle_planning_drop-Planned_example =
    handle_planning_drop-Planned refusing callbacks (some somebody) (some dragged) (some 20260309)
      (0 ∷ 1 ∷ []) planned_page refusing-IsQuiet (λ r. (refl, tt))

is_planned :
    to_plan (some somebody) (some dragged) (some 20260309) (0 ∷ 1 ∷ []) planned_page
    ≡ some (1, (some 20260312, 20260309))
unfolding user_can
is_planned = refl

abbrev task : Bool → ℕ → Task
task done day = record { id = 1; title = []; done = done; position = 0; deadline = some day }

-- The task of the 5th is done.
abbrev with_tasks : Issue
with_tasks = record (issue_at todo 1 0) {
  deadline = some 20260315;
  tasks = task false 20260311 ∷ task true 20260305 ∷ [];
}

get_effective_deadline_info-Earliest_example :
    Earliest (20260315 ∷ 20260311 ∷ []) (get_effective_deadline_info with_tasks)
get_effective_deadline_info-Earliest_example = get_effective_deadline_info-Earliest with_tasks
