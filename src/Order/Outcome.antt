-- ===== src/Order/Outcome.antt =====
-- The save of a new order, on success and on failure (`updatePositions`).
use wuflow.Base.{String, Option, none, some, List, ◌≡◌, Distinct}
use wuflow.Store.{Ref, Heap}
use wuflow.Order.{Surroundings, Saved, first_failure, update_positions}
use wuflow.Order.Rollback.{IsQuiet, update_positions-undo}
use wuflow.Order.Positions.{numbered, moved, order_request, update_positions-numbered}

-- What is left of a reorder, by the answer to its request: the new order, or the old one.
abbrev pub Ended : List Ref → Heap → Option String → Saved → Type 0
Ended rs h none v = (v.failure ≡ none) × ((j : Ref) → v.heap j ≡ numbered 0 rs j (h j))
Ended rs h (some m) v = (v.failure ≡ some m) × ((j : Ref) → v.heap j ≡ h j)

-- A new order of a list that names no issue twice, saved while no other handler runs: one request
-- holds exactly the issues whose position is not their place in the list, and there is none if
-- there are none. If the server takes it, every listed issue has its place as its position, and
-- nothing else has changed; if not, the save fails with the server's message, and every issue is
-- exactly as it was.
pub update_positions-Ended :
    (s : Surroundings) (rs : List Ref) (h : Heap)
    → IsQuiet s
    → Distinct rs
    → let q = order_request h (moved 0 rs h) in
      ((update_positions s rs h).requests ≡ q)
      × Ended rs h (first_failure s.answer q) (update_positions s rs h)
update_positions-Ended s rs h quiet d =
    (sent, ended (first_failure s.answer (order_request h (moved 0 rs h))) failed)
  where
    open (update_positions-numbered s rs h quiet d) use {«0» as sent, «1» as failed, «2» as placed}

    ended :
        (o : Option String)
        → (update_positions s rs h).failure ≡ o
        → Ended rs h o (update_positions s rs h)
    ended none f = (f, placed f)
    ended (some m) f = (f, update_positions-undo s rs h quiet d f)
