-- ===== src/Tests/Shell.antt =====
-- A visit to the releases, and jumps to an issue.
use wuflow.Base.{true, false, none, some, [], ◌∷◌, ◌++◌, List, ◌≡◌, refl}
use wuflow.StatusConfig.{text}
use wuflow.Filters.{me}
use wuflow.State.{initial_state}
use wuflow.App.{
  board, backlog, archive, releases, is_view, Page, Event, clicks, picks, types_release_search,
  release_search_fires, active_issues_load, config_loads, refreshed, list_loads, goes_to_issue,
  holds_issue, issue_changes,
}
use wuflow.App.Shown.{Opened, step_all}
use wuflow.IssueLists.{merge_into}
use wuflow.Model.{Issue, open_, todo}
use wuflow.Tests.Data.{issue_at}

-- The page as it is loaded
abbrev first_page : Page
first_page = record {
  state = initial_state;
  shown = is_view board;
  active = is_view board;
  sidebar = true;
  filters = true;
  project_selector = true;
  system_style = false;
  issue_filters = true;
  release_search = false;
  owner_options = false;
  release_input = [];
  search_input = [];
  drawn = [];
}

-- The timer of the search ends only when the board is open again. The refresh gives issue 1, of Todo, and the
-- list of the backlog issue 5, to which the user goes; the dialog moves it to Todo, and from the archive
-- the user goes to it once more.
abbrev moved_issue : Issue
moved_issue = issue_at todo 5 0

abbrev visit : List Event
visit =
    clicks releases
    ∷ picks (some me)
    ∷ types_release_search (text "1.0")
    ∷ clicks board
    ∷ release_search_fires
    ∷ active_issues_load true (issue_at todo 1 0 ∷ [])
    ∷ config_loads none
    ∷ refreshed none
    ∷ list_loads true (issue_at open_ 5 0 ∷ [])
    ∷ goes_to_issue 5
    ∷ []

abbrev second_visit : List Event
second_visit =
    holds_issue (some moved_issue) ∷ issue_changes ∷ clicks archive ∷ goes_to_issue 5 ∷ []

abbrev first_opened : Opened
first_opened = record { view = board; issues = []; held = none }

goes_to_backlog : (step_all visit first_opened).view ≡ backlog
unfolding merge_into
goes_to_backlog = refl

goes_to_board : (step_all (visit ++ second_visit) first_opened).view ≡ board
unfolding merge_into
goes_to_board = refl
