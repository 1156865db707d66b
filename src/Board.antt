-- ===== src/Board.antt =====
-- static/js/components/board.js, `renderBoard`: which cards the columns show, with which buttons.
pub mod Laws
use wuflow.Base.{
  ℕ, Bool, true, false, not, ◌&&◌, Option, none, some, List, [], ◌∷◌, map, ◌==◌, opt_eq,
  if◌then◌else◌, length, filter_by,
}
use wuflow.Model.{Text, Issue, User, Status, open_, status_eq}
use wuflow.StatusConfig.{Column, get_board_columns}
use wuflow.Filters.{filter_issues, filter_by_status, sort_by_position}
use wuflow.State.{State, is_filter_active}

-- The callbacks that a card gets besides the opening of its issue and the priority button.
pub record CardView : Type 0 where
  pub issue : Issue
  pub on_move_top : Bool
  pub on_move_bottom : Bool
  pub on_assign_to_me : Bool

-- The total stands behind the count while a filter is active.
pub record ColumnView : Type 0 where
  pub column : Column
  pub cards : List CardView
  pub count : ℕ
  pub total : Option ℕ

abbrev is_first : List Issue → Issue → Bool
is_first [] i = false
is_first (j ∷ js) i = j.id == i.id

abbrev is_last : List Issue → Issue → Bool
is_last [] i = false
is_last (j ∷ []) i = j.id == i.id
is_last (j ∷ k ∷ js) i = is_last (k ∷ js) i

abbrev may_take : Option User → Issue → Bool
may_take none i = false
may_take (some u) i = not (opt_eq i.assignee_id (some u.id))

abbrev pub card_view : Option User → List Issue → Issue → CardView
card_view user in_column i = record {
  issue = i;
  on_move_top = not (is_first in_column i);
  on_move_bottom = not (is_last in_column i);
  on_assign_to_me = may_take user i;
}

abbrev pub user_id : Option User → Option ℕ
user_id none = none
user_id (some u) = some u.id

abbrev pub non_backlog : State → List Issue
non_backlog s = filter_by (λ i. not (status_eq i.status open_)) s.issues

module _ (lower : Text → Text) where
  -- `sortedIssues`
  abbrev pub sorted_issues : State → List Issue
  sorted_issues s =
      sort_by_position
        (some (filter_issues lower (some (non_backlog s)) s.filter (user_id s.current_user)))

  -- The cards that the loop over the sorted issues puts into one column.
  abbrev pub column_cards : State → Status → List CardView
  column_cards s status =
      let in_column = sort_by_position (some (filter_by_status (some (non_backlog s)) status)) in
      map (card_view s.current_user in_column)
        (filter_by (λ i. status_eq i.status status) (sorted_issues s))

  abbrev pub column_view : State → Column → ColumnView
  column_view s column = record {
    column = column;
    cards = column_cards s column.0;
    count = length (column_cards s column.0);
    total =
        if is_filter_active s.filter
        then some (length (filter_by_status (some (non_backlog s)) column.0))
        else none;
  }

  unfoldable pub render_board : State → List ColumnView
  render_board s = map (column_view s) (get_board_columns s.status_config)
