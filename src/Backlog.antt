-- ===== src/Backlog.antt =====
-- static/js/components/backlog.js: the lists of the backlog, its lanes of releases, and the drop of a card
-- on a lane.
pub mod Laws
use wuflow.Base.{
  ℕ, String, Bool, true, false, not, ◌&&◌, ◌||◌, Option, none, some, List, [], ◌∷◌, ◌++◌, map, ◌==◌,
  opt_eq, if◌then◌else◌, length, filter_by, is_filled,
}
use wuflow.Model.{Text, Issue, Status, open_, todo, status_eq, Release, User}
use wuflow.StatusConfig.{text}
use wuflow.Filters.{filter_issues, filter_by_status, sort_by_position}
use wuflow.State.{State, has_id, is_filter_active, prune_release_filter_ids}
use wuflow.Board.{CardView, card_view, user_id}
use wuflow.Releases.{is_open, sort_releases_by_date}
use wuflow.Permissions.{update_issue, user_can}
use wuflow.Store.{Ref, Heap, update, Sent, put_issue}
use wuflow.Drop.{find_issue}

-- `validateUpdate` of `setupBacklogView`
abbrev pub validate_update : Option User → Option Issue → Status → Bool
validate_update user i target = user_can user update_issue

-- A lane of `renderBacklogReleaseLanes`; none stands for no release.
pub record Lane : Type 0 where
  pub release_id : Option ℕ
  pub name : Text
  pub count : ℕ
  pub is_checked : Bool

abbrev in_backlog : Issue → Bool
in_backlog i = status_eq i.status open_ || status_eq i.status todo

-- `countsByRelease[key] || 0`
abbrev pub lane_count : Option ℕ → List Issue → ℕ
lane_count key is = length (filter_by (λ (i : Issue). in_backlog i && opt_eq i.release_id key) is)

abbrev pub build_lane : State → Option ℕ → Text → Lane
build_lane s id name = record {
  release_id = id;
  name = name;
  count = lane_count id s.issues;
  is_checked = has_id s.filter.release_ids id;
}

abbrev pub open_releases : State → List Release
open_releases s = filter_by is_open s.releases

abbrev pub lanes_of : State → List Release → List Lane
lanes_of s [] = []
lanes_of s (r ∷ rs) =
    map (λ (x : Release). build_lane s (some x.id) x.name) (r ∷ rs)
    ++ build_lane s none (text "No Release") ∷ []

unfoldable pub render_backlog_release_lanes : State → List Lane
unfolding sort_releases_by_date
render_backlog_release_lanes s = lanes_of s (sort_releases_by_date (open_releases s))

-- One of the two lists, with its count and, while a filter is active, its total
pub record ListView : Type 0 where
  pub cards : List CardView
  pub count : ℕ
  pub total : Option ℕ

pub record BacklogView : Type 0 where
  pub state : State
  pub lanes : List Lane
  pub open_list : ListView
  pub todo_list : ListView

abbrev pub valid_release_ids : State → List (Option ℕ)
valid_release_ids s = none ∷ map (λ (r : Release). some r.id) (open_releases s)

module _ (lower : Text → Text) where
  abbrev pub listed_issues : State → Status → List Issue
  listed_issues s status = sort_by_position (
      some (
        filter_by_status
          (some (filter_issues lower (some s.issues) s.filter (user_id s.current_user))) status))

  -- `makeCardCallbacks` goes by the list that is shown.
  abbrev pub list_view : State → Status → ListView
  list_view s status =
      let is = listed_issues s status in
      record {
        cards = map (card_view s.current_user is) is;
        count = length is;
        total =
            if is_filter_active s.filter
            then some (length (filter_by (λ (i : Issue). status_eq i.status status) s.issues))
            else none;
      }

  -- `renderBacklog`, which first takes out of the filter the releases that are not open any more
  unfoldable pub render_backlog : State → BacklogView
  unfolding prune_release_filter_ids render_backlog_release_lanes
  render_backlog s =
      let s' = prune_release_filter_ids (valid_release_ids s) s in
      record {
        state = s';
        lanes = render_backlog_release_lanes s';
        open_list = list_view s' open_;
        todo_list = list_view s' todo;
      }

-- What `updateIssue` gives the drop on a lane
pub data Answer : Type 0 where
  refuses : String → Answer
  conflict : Answer
  gives : Issue → Answer

-- A drop on a lane; a failure is not caught.
pub record LaneDrop : Type 0 where
  pub heap : Heap
  pub requests : List Sent
  pub failure : Option String
  pub rerenders : Bool

abbrev pub with_release_id : Option ℕ → Issue → Issue
with_release_id id i = record i { release_id = id }

abbrev or_else : Option User → Option User → Option User
or_else none b = b
or_else (some a) b = some a

-- `Object.assign(issue, result.issue)`; the server leaves `assignee` out where there is none.
abbrev pub assign_issue : Issue → Issue → Issue
assign_issue new i = record new { assignee = or_else new.assignee i.assignee }

abbrev no_drop : Heap → LaneDrop
no_drop h = record { heap = h; requests = []; failure = none; rerenders = false }

abbrev pub lane_answer : Answer → Sent → Ref → Heap → LaneDrop
lane_answer (refuses m) q r h = record {
  heap = h;
  requests = q ∷ [];
  failure = some m;
  rerenders = false;
}
lane_answer conflict q r h = record {
  heap = h;
  requests = q ∷ [];
  failure = none;
  rerenders = false;
}
lane_answer (gives new) q r h = record {
  heap = update r (assign_issue new (h r)) h;
  requests = q ∷ [];
  failure = none;
  rerenders = true;
}

-- With the server's answer, and what other handlers do to the heap until it is there
module _ (answer : Sent → Answer) (while_saving : Heap → Heap) where
  abbrev lane_found : Option ℕ → Option Ref → Heap → LaneDrop
  lane_found lane none h = no_drop h
  lane_found lane (some r) h =
      if opt_eq (h r).release_id lane
      then no_drop h
      else (let q = put_issue (h r).project_id (with_release_id lane (h r)) in
          lane_answer (answer q) q r (while_saving h))

  abbrev lane_card : Option ℕ → Option ℕ → List Ref → Heap → LaneDrop
  lane_card lane none issues h = no_drop h
  lane_card lane (some id) issues h = lane_found lane (find_issue h issues id) h

  -- The drop handler of `buildLaneCard`
  unfoldable pub lane_drop : Option User → Option ℕ → Option ℕ → List Ref → Heap → LaneDrop
  lane_drop user lane card issues h =
      if not (user_can user update_issue) then no_drop h else lane_card lane card issues h
