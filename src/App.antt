-- ===== src/App.antt =====
-- static/js/app.js: the shell of the page. A page is what its elements show; a timer of `debounce` is an
-- event that comes at any time, and the views that are drawn do not fail.
pub mod Shown
use wuflow.Base.{
  ℕ, Bool, true, false, not, ◌&&◌, ◌||◌, Option, none, some, List, [], ◌∷◌, ◌++◌, ◌==◌,
  if◌then◌else◌, find,
}
use wuflow.Model.{Text, Issue, Label, Release, User, Status, open_, status_eq}
use wuflow.StatusConfig.{Config}
use wuflow.Filters.{AssigneeChoice, ReleaseChoice, with_release}
use wuflow.State.{
  State, set_filter_release_owner, set_filter_assignee, set_filter_release_search,
  set_filter_search, set_filter_release, set_status_config, set_labels, set_releases, set_users,
  set_issues, set_current_issue, is_set,
}
use wuflow.IssueLists.{Kind, open_issues, archived_issues, merge_into}

pub data View : Type 0 where
  board backlog archive releases project_settings system_settings : View

abbrev pub is_view : View → View → Bool
is_view board board = true
is_view backlog backlog = true
is_view archive archive = true
is_view releases releases = true
is_view project_settings project_settings = true
is_view system_settings system_settings = true
is_view _ _ = false

-- What is drawn besides the views: the panel of the plan
pub data Draw : Type 0 where
  draws : View → Draw
  draws_plan : Draw

-- What is visible, which button of the navigation is active, whether the user filter sets the owner of
-- releases, the input of the release search and of the issue search, and what was drawn, the newest last
pub record Page : Type 0 where
  pub state : State
  pub shown : View → Bool
  pub active : View → Bool
  pub sidebar : Bool
  pub filters : Bool
  pub project_selector : Bool
  pub system_style : Bool
  pub issue_filters : Bool
  pub release_search : Bool
  pub owner_options : Bool
  pub release_input : Text
  pub search_input : Text
  pub drawn : List Draw

-- `VIEW_ISSUE_LISTS` and `issueListsFor` of `getVisibleViews`
unfoldable pub issue_lists_for : (View → Bool) → List Kind
issue_lists_for shown =
    if shown releases
    then open_issues ∷ archived_issues ∷ []
    else if shown backlog
    then open_issues ∷ []
    else if shown archive
    then archived_issues ∷ []
    else []

abbrev draw_if : View → Page → List Draw
draw_if v p = if p.shown v then draws v ∷ [] else []

abbrev pub draw_active : Page → Page
draw_active p = record p {
  owner_options = p.shown releases;
  drawn =
      p.drawn
      ++ draws board
        ∷ (draw_if backlog p
            ++ (draw_if archive p
                ++ (draw_if project_settings p ++ (draw_if releases p ++ draws_plan ∷ []))));
}

-- `rerenderActiveView`
unfoldable pub rerender_active_view : Page → Page
rerender_active_view p = draw_active p

abbrev on_state : (State → State) → Page → Page
on_state f p = record p { state = f p.state }

-- The loads that a refresh starts, each of which sets the state when its answer is there, whatever becomes
-- of the others: `loadIssues` and the lists of `ensureIssueLists`, for the current generation or a
-- superseded one, and `loadStatusConfig`, with the fetched configuration, or none for a failure
abbrev pub issues_loaded : Bool → List Issue → State → State
issues_loaded is_current is s = if is_current then set_issues is s else s

abbrev pub merge_list : Bool → List Issue → State → State
merge_list is_current is s = if is_current then set_issues (merge_into s.issues is) s else s

abbrev pub load_status_config : Option Config → State → State
load_status_config config s =
    set_status_config (if is_set s.selected_project_id then config else none) s

-- What the other requests of `refreshApp` give
pub record Loaded : Type 0 where
  pub labels : List Label
  pub releases : List Release
  pub users : List User

-- `refreshApp` once all that it awaits has ended, the issues and the configuration too; none if something
-- has failed, which stops it.
unfoldable pub refresh_app : Option Loaded → Page → Page
refresh_app none p = p
refresh_app (some l) p = draw_active (
    on_state
      (λ (s : State).
        set_users l.users (set_releases l.releases (set_labels l.labels s.selected_project_id s)))
      p)

-- `rerenderAfterIssueChange`
abbrev pub put_issue : Issue → List Issue → List Issue
put_issue new [] = []
put_issue new (i ∷ is) = if i.id == new.id then new ∷ is else i ∷ put_issue new is

abbrev pub merge_current : Option Issue → State → State
merge_current none s = s
merge_current (some i) s = set_issues (put_issue i s.issues) s

unfoldable pub rerender_after_issue_change : Page → Page
rerender_after_issue_change p = record p {
  state = merge_current p.state.current_issue p.state;
  drawn = p.drawn ++ draws board ∷ draws_plan ∷ [];
}

-- The rows of `VIEW_CONFIG`
abbrev pub hides_filter : View → Bool
hides_filter v = is_view project_settings v || is_view system_settings v

abbrev reset_release_filters : Page → Page
reset_release_filters p = record p {
  state = set_filter_release_search [] (set_filter_release_owner none p.state);
  release_input = [];
}

-- What `onEnter` draws at once; `refreshApp` is an event of its own.
abbrev enter : View → List Draw
enter board = []
enter backlog = []
enter archive = []
enter releases = draws releases ∷ []
enter project_settings = draws project_settings ∷ []
enter system_settings = draws system_settings ∷ []

unfoldable pub switch_view : View → Page → Page
switch_view v p =
    let p' = record p {
      shown = is_view v;
      active = is_view v;
      sidebar = is_view board v;
      filters = not (hides_filter v);
      project_selector = not (is_view system_settings v);
      system_style = is_view system_settings v;
      issue_filters = not (is_view releases v);
      release_search = is_view releases v;
      owner_options = is_view releases v;
      drawn = p.drawn ++ enter v;
    } in
    if is_view releases v then p' else reset_release_filters p'

-- The listener of `nav-to-issue`
abbrev pub to_issue : Option Issue → Page → Page
to_issue none p = p
to_issue (some i) p =
    if status_eq i.status open_
    then if p.shown backlog then p else switch_view backlog p
    else if p.shown board
    then p
    else switch_view board p

unfoldable pub nav_to_issue : ℕ → Page → Page
unfolding switch_view
nav_to_issue id p = to_issue (find (λ (i : Issue). i.id == id) p.state.issues) p

-- An option of the user filter
unfoldable pub pick_user : Option AssigneeChoice → Page → Page
unfolding rerender_active_view
pick_user c p = rerender_active_view (
    on_state
      (λ (s : State).
        if p.owner_options then set_filter_release_owner c s else set_filter_assignee c s)
      p)

-- What the user does, what timers and requests do, and what the dialog does: it opens or replaces its issue
-- (`holds_issue`) and has changed it.
pub data Event : Type 0 where
  clicks : View → Event
  goes_to_release goes_to_issue : ℕ → Event
  picks : Option AssigneeChoice → Event
  types_release_search types_search : Text → Event
  release_search_fires search_fires : Event
  active_issues_load list_loads : Bool → List Issue → Event
  config_loads : Option Config → Event
  refreshed : Option Loaded → Event
  holds_issue : Option Issue → Event
  issue_changes : Event

-- The input of the release search takes text only while it is visible.
unfoldable pub handle : Event → Page → Page
unfolding switch_view nav_to_issue pick_user refresh_app rerender_active_view
    rerender_after_issue_change
handle (clicks v) p = switch_view v p
handle (goes_to_release id) p =
    switch_view board (on_state (set_filter_release (some (with_release id))) p)
handle (goes_to_issue id) p = nav_to_issue id p
handle (picks c) p = pick_user c p
handle (types_release_search t) p = record p {
  release_input = if p.release_search then t else p.release_input;
}
handle (types_search t) p = record p { search_input = t }
handle release_search_fires p = record p {
  state = set_filter_release_search p.release_input p.state;
  drawn = p.drawn ++ draws releases ∷ [];
}
handle search_fires p = rerender_active_view (on_state (set_filter_search p.search_input) p)
handle (active_issues_load c is) p = on_state (issues_loaded c is) p
handle (list_loads c is) p = on_state (merge_list c is) p
handle (config_loads c) p = on_state (load_status_config c) p
handle (refreshed l) p = refresh_app l p
handle (holds_issue i) p = on_state (set_current_issue i) p
handle issue_changes p = rerender_after_issue_change p

unfoldable pub handle_all : List Event → Page → Page
unfolding handle
handle_all [] p = p
handle_all (e ∷ es) p = handle_all es (handle e p)
