-- ===== src/Deadlines.antt =====
-- static/js/utils.js: when a deadline counts as late, and when an issue may be archived. A day is a
-- number that grows with the calendar; `today` is the day of the browser's clock.
use wuflow.Base.{ℕ, ◌≤◌, not, Option, none, some, ltb, any, is_filled, if◌then◌else◌, ◌≡◌, arith}
use wuflow.Model.{Issue, Task}

-- `{ late: false }`, or `{ late: true, reason }`
pub data Lateness : Type 0 where
  on_time overdue past_release after_issue : Lateness

abbrev pub release_day : Issue → Option ℕ
release_day i = elim i.release [ none ↦ none | some r ↦ r.release_date ]

abbrev past : Option ℕ → Lateness → ℕ → Lateness
past none reason d = on_time
past (some limit) reason d = if ltb limit d then reason else on_time

abbrev issue_lateness : ℕ → Option ℕ → Option ℕ → Lateness
issue_lateness today none release = on_time
issue_lateness today (some d) release = if ltb d today then overdue else past release past_release d

-- `getDeadlineStatus`
unfoldable pub get_deadline_status : ℕ → Option Issue → Lateness
get_deadline_status today none = on_time
get_deadline_status today (some i) = issue_lateness today i.deadline (release_day i)

-- What limits a task: the deadline of its issue, and its release's date only if there is none.
abbrev past_limit : Option ℕ → Option ℕ → ℕ → Lateness
past_limit none release d = past release past_release d
past_limit (some limit) release d = past (some limit) after_issue d

abbrev limit_of : Option Issue → ℕ → Lateness
limit_of none d = on_time
limit_of (some i) d = past_limit i.deadline (release_day i) d

-- `getTaskDeadlineStatus`
unfoldable pub get_task_deadline_status : ℕ → Option ℕ → Option Issue → Lateness
get_task_deadline_status today none issue = on_time
get_task_deadline_status today (some d) issue = if ltb d today then overdue else limit_of issue d

-- `canArchive`, with its reason
pub data Archivable : Type 0 where
  allowed no_issue open_tasks planned : Archivable

unfoldable pub can_archive : Option Issue → Archivable
can_archive none = no_issue
can_archive (some i) =
    if any (λ (t : Task). not t.done) i.tasks
    then open_tasks
    else if is_filled i.planned_dates
    then planned
    else allowed

-- If neither an issue, which has a release with a date, nor one of its tasks is marked late, the task
-- is due no earlier than today and no later than the release, whether or not the issue has a deadline
-- of its own.
pub get_task_deadline_status-before_release :
    (today d : ℕ) (i : Issue) {release : ℕ}
    → release_day i ≡ some release
    → get_deadline_status today (some i) ≡ on_time
    → get_task_deadline_status today (some d) (some i) ≡ on_time
    → (today ≤ d) × (d ≤ release)
unfolding get_deadline_status get_task_deadline_status
get_task_deadline_status-before_release today d i {release} r h k =
    by_deadline i.deadline (release_day i) r h k
  where
    by_deadline :
        (deadline day : Option ℕ)
        → day ≡ some release
        → issue_lateness today deadline day ≡ on_time
        → (if ltb d today then overdue else past_limit deadline day d) ≡ on_time
        → (today ≤ d) × (d ≤ release)
    by_deadline none none r h k = cc
    by_deadline (some e) none r h k = cc
    by_deadline none (some day) r h k = (ground arith, ground arith)
    by_deadline (some e) (some day) r h k = (ground arith, ground arith)
