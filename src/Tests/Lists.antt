-- ===== src/Tests/Lists.antt =====
-- Reordering a list of three issues.
use wuflow.Base.{none, some, List, [], ◌∷◌, ◌≡◌, refl, ◌⊎◌, sort_by, arith}
use wuflow.Model.{todo, done}
use wuflow.Store.{Ref, Heap, put_positions}
use wuflow.Order.{
  Change, update_positions, save_issue_order, handle_move_top, handle_move_bottom, assign,
}
use wuflow.Order.Rollback.{undo, failed_heap, save_issue_order-undo}
use wuflow.Order.Positions.{numbered}
use wuflow.Order.Outcome.{update_positions-Ended}
use wuflow.Order.Moves.{handle_move_top-sorts}
use wuflow.Tests.Data.{page, callbacks, accepting, refusing, accepting-IsQuiet}

-- The third issue to the front.
abbrev new_order : List Ref
new_order = 2 ∷ 0 ∷ 1 ∷ []

-- The one request has all three, for all have moved.
update_positions_example :
    ((update_positions accepting new_order page).requests
      ≡ put_positions 7 ((2, 0) ∷ (0, 1) ∷ (1, 2) ∷ []) ∷ [])
    × (((update_positions accepting new_order page).failure ≡ none)
        × ((j : Ref)
            → (update_positions accepting new_order page).heap j ≡ numbered 0 new_order j (page j)))
update_positions_example =
    update_positions-Ended accepting new_order page accepting-IsQuiet (refl, (refl, (refl, tt)))

-- Issue 1 was dragged from Todo to Done, and issue 0 has moved down.
abbrev changes : List Change
changes =
    record { issue = 1; previous_status = todo; previous_position = 1 }
    ∷ record { issue = 0; previous_status = todo; previous_position = 0 }
    ∷ []

abbrev edited : Heap
edited r = assign done 1 (page r)

edited_failure : (save_issue_order refusing changes edited).failure ≡ some "refused"
unfolding save_issue_order
edited_failure = refl

save_issue_order-undo_example :
    ((failed_heap refusing changes edited ≡ edited)
      ⊎ (failed_heap refusing changes edited ≡ edited))
    × ((j : Ref)
        → (save_issue_order refusing changes edited).heap j
          ≡ undo changes j (failed_heap refusing changes edited j))
save_issue_order-undo_example =
    save_issue_order-undo refusing changes edited (refl, (refl, tt)) edited_failure

abbrev shown : List Ref
shown = 0 ∷ 1 ∷ 2 ∷ []

top_saved : (handle_move_top accepting callbacks 2 shown page).saved.failure ≡ none
unfolding handle_move_top update_positions
top_saved = refl

bottom_saved : (handle_move_bottom accepting callbacks 0 shown page).saved.failure ≡ none
unfolding handle_move_bottom update_positions
bottom_saved = refl

handle_move_top-sorts_example :
    sort_by (λ j. ((handle_move_top accepting callbacks 2 shown page).saved.heap j).position) shown
    ≡ 2 ∷ 0 ∷ 1 ∷ []
handle_move_top-sorts_example =
    handle_move_top-sorts accepting callbacks 2 shown page accepting-IsQuiet
      (refl, (refl, (refl, tt))) refl (refl, (refl, (refl, tt))) (omega arith) refl top_saved
