-- ===== src/Tests/Boards.antt =====
-- A board with an open issue and two of Todo, searched for "1".
use wuflow.Base.{none, [], ◌∷◌, map, ◌≡◌}
use wuflow.Model.{Text, open_, todo}
use wuflow.StatusConfig.{text, get_board_columns}
use wuflow.State.{State, initial_state, cleared}
use wuflow.Board.{render_board}
use wuflow.Board.Laws.{shown, due_in, render_board-due}
use wuflow.Tests.Data.{issue_at}

abbrev same_letters : Text → Text
same_letters t = t

abbrev loaded_state : State
loaded_state = record initial_state {
  issues = issue_at todo 12 1 ∷ issue_at open_ 1 0 ∷ issue_at todo 31 0 ∷ issue_at todo 2 2 ∷ [];
  filter = record cleared { search = text "1" };
}

render_board-due_example :
    map shown (render_board same_letters loaded_state)
    ≡ map (due_in same_letters loaded_state) (get_board_columns none)
render_board-due_example = render_board-due same_letters loaded_state
