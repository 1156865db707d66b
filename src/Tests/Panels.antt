-- ===== src/Tests/Panels.antt =====
-- The plan, the backlog, the archive and the releases of small pages.
use wuflow.Base.{
  ℕ, true, false, ◌&&◌, none, some, Option, List, [], ◌∷◌, ◌==◌, length, filter_by, ◌+◌, group_of,
  SortedDown, All, ◌≡◌, ◌≢◌, refl, arith,
}
use Prim.Native.Nat.{◌%◌}
use mathlib.Core.List.{Perm}
use wuflow.Model.{Text, Issue, open_, todo, archive, Release, opened, closed}
use wuflow.StatusConfig.{text}
use wuflow.Store.{Sent}
use wuflow.Filters.Laws.{passes}
use wuflow.State.{State, initial_state, cleared, has_id}
use wuflow.Board.{user_id}
use wuflow.Board.Laws.{due}
use wuflow.Permissions.{user_can, update_issue}
use wuflow.Planning.{with_dates}
use wuflow.Planning.Panel.{past, planned_items, render_planning_panel}
use wuflow.Planning.Shown.{issues_on, planned_on, render_planning_panel-days, planned_items-west}
use wuflow.ArchiveView.{render_archive, archived_due, render_archive-months}
use wuflow.Backlog
use wuflow.Backlog.Laws.{listed, render_backlog-due}
use wuflow.Releases
use wuflow.Releases.Dialog.{Careful, handle_release_submit-Careful}
use wuflow.Tests.Data.{page, issue_at, somebody}

abbrev same_letters : Text → Text
same_letters t = t

-- Planned for today, the day 100, for its last day of ten and for one behind it
abbrev planned_state : State
planned_state = record initial_state {
  issues =
      with_dates (100 ∷ 109 ∷ 110 ∷ []) (issue_at todo 1 0)
      ∷ with_dates (109 ∷ 90 ∷ []) (issue_at open_ 2 1)
      ∷ [];
}

render_planning_panel-days_example :
    issues_on 109 (render_planning_panel same_letters false 100 planned_state).items
    ≡ planned_on 109 (
        filter_by
          (passes same_letters planned_state.filter (user_id planned_state.current_user))
          planned_state.issues)
render_planning_panel-days_example =
    render_planning_panel-days same_letters 100 109 planned_state refl

planned_items-west_example :
    All
      (λ it. (it.date ≢ 100 + 10) × (it.date ≡ 100 → it.box ≡ past))
      (planned_items true 100 planned_state.issues)
planned_items-west_example = planned_items-west 100 planned_state.issues (ground arith)

-- Three archived issues, changed in two months
abbrev archived_state : State
archived_state = record initial_state {
  issues =
      issue_at archive 1 0 ∷ issue_at todo 2 1 ∷ issue_at archive 35 2 ∷ issue_at archive 4 3 ∷ [];
}

abbrev changed_at : Issue → ℕ
changed_at i = i.id

abbrev month_of : ℕ → ℕ
month_of t = t % 30

render_archive-months_example :
    let v = render_archive same_letters changed_at month_of archived_state in
    Perm v.archived (archived_due same_letters changed_at month_of archived_state)
    × (SortedDown changed_at v.archived
        × ((m : ℕ)
            → group_of (λ (i : Issue). month_of (changed_at i)) m v.groups
              ≡ filter_by (λ (i : Issue). month_of (changed_at i) == m) v.archived))
render_archive-months_example =
    render_archive-months same_letters changed_at month_of archived_state

abbrev release : ℕ → Option ℕ → Release
release id day = record {
  id = id;
  project_id = 7;
  name = text "next";
  description = none;
  status = opened;
  owner_id = none;
  release_date = day;
  closed_at = none;
  created_at = id;
}

-- The filter still has release 9, which is gone.
abbrev backlog_state : State
backlog_state = record initial_state {
  issues = issue_at todo 12 1 ∷ issue_at open_ 1 0 ∷ issue_at todo 31 0 ∷ [];
  filter = record cleared { release_ids = none ∷ some 9 ∷ [] };
  releases = release 5 (some 20260320) ∷ [];
}

render_backlog-due_example :
    let v = Backlog.render_backlog same_letters backlog_state in
    (listed v.open_list ≡ (due same_letters v.state open_, length (due same_letters v.state open_)))
    × ((listed v.todo_list
          ≡ (due same_letters v.state todo, length (due same_letters v.state todo)))
        × ((v.state ≡ record backlog_state {
          filter = record (backlog_state.filter) { release_ids = v.state.filter.release_ids };
        })
            × ((id : Option ℕ)
                → has_id v.state.filter.release_ids id ≡ (
                    has_id backlog_state.filter.release_ids id
                    && has_id (Backlog.valid_release_ids backlog_state) id))))
render_backlog-due_example = render_backlog-due same_letters backlog_state

abbrev gives_back : Sent → Backlog.Answer
gives_back q = Backlog.gives (Backlog.with_release_id (some 5) (page 1))

may_edit : user_can (some somebody) update_issue ≡ true
unfolding user_can
may_edit = refl

abbrev some_releases : List Release
some_releases = release 1 none ∷ release 2 (some 20260401) ∷ release 3 (some 20260320) ∷ []

abbrev typed : Releases.Form
typed = record {
  name = text " next ";
  description = [];
  start_date = none;
  release_date = some 20260320;
  owner_id = none;
}

abbrev overloaded : Releases.Call → Releases.Answer
overloaded q = Releases.refuses "overloaded"

handle_release_submit-Careful_example :
    Careful some_releases (Releases.handle_release_submit overloaded 7 (some 2) typed some_releases)
handle_release_submit-Careful_example =
    handle_release_submit-Careful overloaded 7 (some 2) typed some_releases

-- The release is closed, but the issues cannot be loaded afterwards: a failure is shown.
abbrev closes_only : Releases.Close.Call → Releases.Close.Answer
closes_only (Releases.Close.sends_trigger p id b) =
    Releases.Close.gives (record (release 2 none) { status = closed })
closes_only _ = Releases.Close.refuses "overloaded"

closed_with_error :
    (Releases.Close.trigger_confirmed closes_only
      (release 2 none)
      false
      (release 2 none ∷ [])).notices
    ≡ Releases.Close.error "overloaded" ∷ []
unfolding Releases.Close.trigger_confirmed
closed_with_error = refl
