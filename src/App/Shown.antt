-- ===== src/App/Shown.antt =====
-- The page against its specification: the view that is open, and the issues that the page has.
use wuflow.Base.{false, not, Option, none, some, List, [], ◌∷◌, ◌==◌, if◌then◌else◌, find, ◌≡◌}
use wuflow.Model.{Issue, open_, status_eq}
use wuflow.State.{State}
use wuflow.IssueLists.{Kind, open_issues, archived_issues, merge_into}
use wuflow.App.{
  View, board, backlog, archive, releases, system_settings, is_view, Page, hides_filter, put_issue,
  Event, clicks, goes_to_release, goes_to_issue, active_issues_load, list_loads, holds_issue,
  issue_changes,
}

-- The specification: the view that an event opens, with the issues of the project
abbrev pub view_of : Option Issue → View → View
view_of none w = w
view_of (some i) w = if status_eq i.status open_ then backlog else board

abbrev pub opened_by : List Issue → Event → View → View
opened_by is (clicks v) w = v
opened_by is (goes_to_release id) w = board
opened_by is (goes_to_issue id) w = view_of (find (λ (i : Issue). i.id == id) is) w
opened_by is _ w = w

abbrev issues_by : Event → Option Issue → List Issue → List Issue
issues_by (active_issues_load c new) i is = if c then new else is
issues_by (list_loads c new) i is = if c then merge_into is new else is
issues_by issue_changes none is = is
issues_by issue_changes (some i) is = put_issue i is
issues_by _ i is = is

abbrev held_by : Event → Option Issue → Option Issue
held_by (holds_issue new) i = new
held_by _ i = i

pub record Opened : Type 0 where
  pub view : View
  pub issues : List Issue
  pub held : Option Issue

abbrev pub step : Event → Opened → Opened
step e w = record {
  view = opened_by w.issues e w.view;
  issues = issues_by e w.held w.issues;
  held = held_by e w.held;
}

abbrev pub step_all : List Event → Opened → Opened
step_all [] w = w
step_all (e ∷ es) w = step_all es (step e w)

abbrev pub lists_of : View → List Kind
lists_of releases = open_issues ∷ archived_issues ∷ []
lists_of backlog = open_issues ∷ []
lists_of archive = archived_issues ∷ []
lists_of _ = []

-- The release filter is used by the view of releases only.
abbrev pub NoReleaseFilter : Page → Type 0
NoReleaseFilter p =
    (p.state.filter.release_owner ≡ none)
    × ((p.state.filter.release_search ≡ []) × (p.release_input ≡ []))

abbrev pub Parts : View → Page → Type 0
Parts v p =
    (p.sidebar ≡ is_view board v)
    × ((p.filters ≡ not (hides_filter v))
        × ((p.project_selector ≡ not (is_view system_settings v))
            × ((p.issue_filters ≡ not (is_view releases v))
                × ((p.release_search ≡ is_view releases v)
                    × (p.owner_options ≡ is_view releases v)))))

abbrev pub Shows : View → Page → Type 0
Shows v p =
    (p.shown ≡ is_view v)
    × ((p.active ≡ is_view v) × (Parts v p × (is_view releases v ≡ false → NoReleaseFilter p)))

abbrev pub Matches : Opened → Page → Type 0
Matches w p = Shows w.view p × ((p.state.issues ≡ w.issues) × (p.state.current_issue ≡ w.held))

-- What an event that is no load and no change of an issue keeps
abbrev Keeps : Page → Page → Type 0
Keeps p q = (q.state.issues ≡ p.state.issues) × (q.state.current_issue ≡ p.state.current_issue)

-- What the event does to the issues and to the one that the dialog holds
abbrev Follows : Event → Page → Page → Type 0
Follows e p q =
    (q.state.issues ≡ issues_by e p.state.current_issue p.state.issues)
    × (q.state.current_issue ≡ held_by e p.state.current_issue)
