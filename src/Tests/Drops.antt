-- ===== src/Tests/Drops.antt =====
-- Drops of cards, and the buttons of a card.
use wuflow.Base.{ℕ, true, none, some, List, [], ◌∷◌, ◌≡◌, refl}
use wuflow.Model.{Status, open_, todo, done, archive}
use wuflow.Store.{Ref, Heap, update, post_archive}
use wuflow.Order.{assign, save_issue_order}
use wuflow.View.{rerender, show_save_failure}
use wuflow.Drop.{Zone, get_board_updates, board_drop, section_drop}
use wuflow.Drop.Board.{board_drop-undo, board_drop-places}
use wuflow.Drop.Lists.{list_drop, list_drop-undo}
use wuflow.Drop.Section.{Ended, moved_issue, section_drop-Settled}
use wuflow.Permissions.{user_can}
use wuflow.Backlog.{validate_update}
use wuflow.Tests.Data.{
  page, accepting, refusing, accepting-IsQuiet, refusing-IsQuiet, callbacks, somebody,
}

-- The card of issue 1 dropped on Done.
abbrev columns : List (Status × List ℕ)
columns = (todo, 0 ∷ 2 ∷ []) ∷ (done, 1 ∷ []) ∷ []

abbrev all_issues : List Ref
all_issues = 0 ∷ 1 ∷ 2 ∷ []

board_refused :
    (board_drop refusing callbacks true true columns all_issues page).effects
    ≡ show_save_failure "refused" callbacks
unfolding board_drop show_save_failure save_issue_order get_board_updates
board_refused = refl

board_accepted :
    (board_drop accepting callbacks true true columns all_issues page).effects ≡ rerender ∷ []
unfolding board_drop save_issue_order get_board_updates
board_accepted = refl

board_drop-undo_example :
    (board_drop refusing callbacks true true columns all_issues page).heap 1 ≡ page 1
board_drop-undo_example =
    board_drop-undo refusing callbacks columns all_issues page refusing-IsQuiet
      (refl, (refl, (refl, tt))) "refused" board_refused 1

board_drop-places_example :
    (board_drop accepting callbacks true true columns all_issues page).heap 1
    ≡ assign done 0 (page 1)
board_drop-places_example =
    board_drop-places accepting callbacks columns all_issues page accepting-IsQuiet
      (refl, (refl, (refl, tt))) board_accepted 1 refl

-- The archive zone of the board, with a drop handler and no validation.
abbrev archive_zone : Zone
archive_zone = record {
  visible = true;
  target = archive;
  card = some 1;
  validate = none;
  while_validating = λ (h : Heap). h;
  has_on_drop = true;
  callbacks = callbacks;
}

section_drop-Settled_example :
    Ended refusing archive_zone page
      (section_drop refusing archive_zone all_issues page)
      (moved_issue archive_zone all_issues page)
section_drop-Settled_example = section_drop-Settled refusing archive_zone all_issues page

archived_by_request :
    (section_drop refusing archive_zone all_issues page).requests ≡ post_archive 7 1 ∷ []
unfolding section_drop update
archived_by_request = refl

-- The card of issue 1 dropped between those of Todo, in the backlog view.
abbrev backlog_list : Zone
backlog_list = record {
  visible = true;
  target = todo;
  card = some 1;
  validate = some (validate_update (some somebody));
  while_validating = λ (h : Heap). h;
  has_on_drop = true;
  callbacks = callbacks;
}

abbrev backlog_lists : List (Status × List ℕ)
backlog_lists = (open_, 0 ∷ []) ∷ (todo, 2 ∷ 1 ∷ []) ∷ []

list_refused :
    (list_drop refusing backlog_list backlog_lists all_issues page).effects
    ≡ show_save_failure "refused" callbacks
unfolding list_drop show_save_failure save_issue_order get_board_updates user_can
list_refused = refl

list_drop-undo_example :
    (list_drop refusing backlog_list backlog_lists all_issues page).heap 0 ≡ page 0
list_drop-undo_example =
    list_drop-undo refusing backlog_list backlog_lists all_issues page refusing-IsQuiet
      (refl, (refl, (refl, tt))) (refl, (refl, tt)) "refused" refl list_refused 0
