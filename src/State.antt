-- ===== src/State.antt =====
-- static/js/state.js: what the views share, and the filter. The setters of a field are updates of the
-- record; the ids are those of `releaseFilterIds`, where null stands for no release.
pub mod Laws
use wuflow.Base.{
  ℕ, Bool, true, false, not, ◌&&◌, ◌||◌, Option, none, some, List, [], ◌∷◌, ◌++◌, opt_eq,
  if◌then◌else◌, filter_by, find, any, is_filled,
}
use wuflow.Model.{Text, Issue, Label, Release, User, Priority}
use wuflow.Text.{trim, is_empty}
use wuflow.StatusConfig.{Config}
use wuflow.Filters.{LabelChoice, AssigneeChoice, ReleaseChoice, Filter}

-- `state`, less the projects, whose fields no model reads.
pub record State : Type 0 where
  pub issues : List Issue
  pub releases : List Release
  pub labels : List Label
  pub labels_project_id : Option ℕ
  pub users : List User
  pub current_issue : Option Issue
  pub current_user : Option User
  pub selected_project_id : Option ℕ
  pub status_config : Option Config
  pub filter : Filter

abbrev pub cleared : Filter
cleared = record {
  label = none;
  priority = none;
  assignee = none;
  release = none;
  release_owner = none;
  release_search = [];
  release_ids = [];
  search = [];
}

-- The object `state` as the module starts.
abbrev pub initial_state : State
initial_state = record {
  issues = [];
  releases = [];
  labels = [];
  labels_project_id = none;
  users = [];
  current_issue = none;
  current_user = none;
  selected_project_id = none;
  status_config = none;
  filter = cleared;
}

abbrev with_filter : State → Filter → State
with_filter s f = record s { filter = f }

abbrev pub set_filter_label : Option LabelChoice → State → State
set_filter_label c s = with_filter s (record (s.filter) { label = c })

abbrev pub set_filter_priority : Option Priority → State → State
set_filter_priority p s = with_filter s (record (s.filter) { priority = p })

abbrev pub set_filter_assignee : Option AssigneeChoice → State → State
set_filter_assignee c s = with_filter s (record (s.filter) { assignee = c })

abbrev pub set_filter_search : Text → State → State
set_filter_search term s = with_filter s (record (s.filter) { search = term })

abbrev pub set_filter_release : Option ReleaseChoice → State → State
set_filter_release c s = with_filter s (record (s.filter) { release = c })

abbrev pub set_filter_release_owner : Option AssigneeChoice → State → State
set_filter_release_owner id s = with_filter s (record (s.filter) { release_owner = id })

abbrev pub set_filter_release_search : Text → State → State
set_filter_release_search term s = with_filter s (record (s.filter) { release_search = term })

abbrev pub set_selected_project : Option ℕ → State → State
set_selected_project id s = record s { selected_project_id = id }

abbrev pub set_issues : List Issue → State → State
set_issues is s = record s { issues = is }

abbrev pub set_current_issue : Option Issue → State → State
set_current_issue i s = record s { current_issue = i }

abbrev pub set_current_user : Option User → State → State
set_current_user u s = record s { current_user = u }

abbrev pub set_status_config : Option Config → State → State
set_status_config cfg s = record s { status_config = cfg }

abbrev pub set_releases : List Release → State → State
set_releases rs s = record s { releases = rs }

abbrev pub set_labels : List Label → Option ℕ → State → State
set_labels ls project s = record s { labels = ls; labels_project_id = project }

abbrev pub set_users : List User → State → State
set_users us s = record s { users = us }

abbrev pub has_id : List (Option ℕ) → Option ℕ → Bool
has_id ids id = any (opt_eq id) ids

-- `pruneReleaseFilterIds`; a set of ids is a list of them.
unfoldable pub prune_release_filter_ids : List (Option ℕ) → State → State
prune_release_filter_ids valid s =
    with_filter s
      (record (s.filter) { release_ids = filter_by (has_id valid) s.filter.release_ids })

-- `ids.splice(idx, 1)` at the first index of the id
abbrev pub remove_first : Option ℕ → List (Option ℕ) → List (Option ℕ)
remove_first id [] = []
remove_first id (x ∷ xs) = if opt_eq id x then xs else x ∷ remove_first id xs

-- `toggleBacklogReleaseFilter`
unfoldable pub toggle_backlog_release_filter : Option ℕ → State → State
toggle_backlog_release_filter id s =
    let ids = s.filter.release_ids in
    with_filter s (record (s.filter) {
      release_ids = if has_id ids id then remove_first id ids else ids ++ id ∷ [];
    })

abbrev pub is_set {ℓ} : {A : Type ℓ} → Option A → Bool
is_set none = false
is_set (some _) = true

-- `isFilterActive`
unfoldable pub is_filter_active : Filter → Bool
is_filter_active f =
    is_set f.label
    || is_set f.priority
    || is_set f.assignee
    || is_set f.release
    || is_set f.release_owner
    || is_filled (trim f.search)
    || is_filled (trim f.release_search)
    || is_filled f.release_ids
