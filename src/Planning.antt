-- ===== src/Planning.antt =====
-- static/js/components/planning.js: the effective deadline of an issue, and how a card gets a planned day.
-- A day of the plan is the number of its text, whose order is that of `localeCompare`.
pub mod Panel
pub mod Shown
pub mod Dates
pub mod Drops
pub mod Deadline
use wuflow.Base.{
  ℕ, String, Bool, true, false, not, Option, none, some, List, [], ◌∷◌, ◌++◌, ◌==◌, ltb,
  if◌then◌else◌, filter_by, find, includes, sort_by,
}
use wuflow.Model.{Issue, Task, User}
use wuflow.Store.{Ref, Heap, update, Sent, put_issue}
use wuflow.Permissions.{update_issue, user_can}
use wuflow.Order.{Surroundings}
use wuflow.View.{Effect, toast, Callbacks, rerender_if, refresh_if}
use wuflow.Edit.{Edited, settle}
use wuflow.Drop.{find_issue}

pub record Info : Type 0 where
  pub date : ℕ
  pub is_task : Bool

abbrev pub own_info : Option ℕ → Option Info
own_info none = none
own_info (some d) = some (record { date = d; is_task = false })

abbrev pub is_before : ℕ → Option Info → Bool
is_before d none = true
is_before d (some info) = ltb d info.date

abbrev task_info : Bool → Option ℕ → Option Info → Option Info
task_info true deadline info = info
task_info false none info = info
task_info false (some d) info =
    if is_before d info then some (record { date = d; is_task = true }) else info

-- The loop over the tasks.
abbrev pub tasks_info : List Task → Option Info → Option Info
tasks_info [] info = info
tasks_info (t ∷ ts) info = tasks_info ts (task_info t.done t.deadline info)

-- `getEffectiveDeadlineInfo`
unfoldable pub get_effective_deadline_info : Issue → Option Info
get_effective_deadline_info i = tasks_info i.tasks (own_info i.deadline)

-- `newDates.splice(idx, 1)` at the first index of the day that the card comes from
abbrev pub without_first : ℕ → List ℕ → List ℕ
without_first d [] = []
without_first d (x ∷ xs) = if x == d then xs else x ∷ without_first d xs

abbrev pub without_source : Option ℕ → List ℕ → List ℕ
without_source none dates = dates
without_source (some d) dates = without_first d dates

-- The days of an issue that is dropped on another day.
unfoldable pub moved_dates : Option ℕ → ℕ → List ℕ → List ℕ
moved_dates source target dates =
    sort_by (λ (d : ℕ). d) (without_source source dates ++ target ∷ [])

abbrev pub with_dates : List ℕ → Issue → Issue
with_dates dates i = record i { planned_dates = dates }

-- The card that is dragged: its issue, and the day of the plan that it comes from, if any.
pub record Card : Type 0 where
  pub id : ℕ
  pub source : Option ℕ

abbrev untouched : Heap → Edited
untouched h = record { heap = h; requests = []; effects = [] }

-- A failure leaves the new days in the issue; `handlePlanningDrop` shows it and asks for a refresh.
abbrev pub drop_ends : Callbacks → Option String → List Effect
drop_ends cb none = rerender_if cb
drop_ends cb (some m) = toast m ∷ refresh_if cb

abbrev pub plan : Surroundings → Callbacks → Option ℕ → ℕ → Ref → Heap → Edited
plan s cb source target r h =
    let h' = update r (with_dates (moved_dates source target (h r).planned_dates) (h r)) h in
    let q = put_issue (h' r).project_id (h' r) in
    record { heap = s.while_saving h'; requests = q ∷ []; effects = drop_ends cb (s.answer q) }

-- `processDroppedCard`, in the `try` of `handlePlanningDrop`
abbrev pub process_dropped_card :
    Surroundings → Callbacks → Option User → Option ℕ → ℕ → Option Ref → Heap → Edited
process_dropped_card s cb user source target none h = untouched h
process_dropped_card s cb user source target (some r) h =
    if includes (h r).planned_dates target
    then untouched h
    else if not (user_can user update_issue)
    then untouched h
    else plan s cb source target r h

abbrev drop_on_day :
    Surroundings → Callbacks → Option User → Option Card → ℕ → List Ref → Heap → Edited
drop_on_day s cb user none target issues h = untouched h
drop_on_day s cb user (some card) target issues h =
    process_dropped_card s cb user card.source target (find_issue h issues card.id) h

-- `handlePlanningDrop`; the target is none on the boxes of the past and of the far future.
unfoldable pub handle_planning_drop :
    Surroundings → Callbacks → Option User → Option Card → Option ℕ → List Ref → Heap → Edited
handle_planning_drop s cb user card none issues h = untouched h
handle_planning_drop s cb user card (some target) issues h =
    drop_on_day s cb user card target issues h

abbrev pub without_day : ℕ → List ℕ → List ℕ
without_day day dates = filter_by (λ d. not (d == day)) dates

-- The button that removes a day of the plan (`createPlanningItem`)
unfoldable pub remove_planned_day : Surroundings → Callbacks → Option User → ℕ → Ref → Heap → Edited
remove_planned_day s cb user day r h =
    if not (user_can user update_issue)
    then untouched h
    else (let h' = update r (with_dates (without_day day (h r).planned_dates) (h r)) h in
        let q = put_issue (h' r).project_id (h' r) in
        settle (s.answer q) (with_dates (h r).planned_dates) cb r (q ∷ []) (s.while_saving h'))
