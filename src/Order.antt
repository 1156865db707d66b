-- ===== src/Order.antt =====
-- static/js/list-utils.js: how a new order of a list reaches the issues and the server.
-- While a request is on its way other handlers may run: `while_saving` and `while_ordering` are
-- what they do to the heap during the first and the second wait.
pub mod Rollback
pub mod Positions
pub mod Moves
pub mod Outcome
use wuflow.Base.{
  ℕ, suc, ◌+◌, ◌-◌, String, Bool, true, false, not, ◌&&◌, ◌||◌, Option, none, some, List, [], ◌∷◌,
  ◌++◌, map, ◌==◌, leb, if◌then◌else◌, length, filter_by,
}
use wuflow.Model.{Issue, Status, status_eq, Priority, high, normal, is_high, User}
use wuflow.View.{Effect, Callbacks, rerender_if, show_save_failure}
use wuflow.Store.{Ref, Heap, update, Sent, put_issue, put_positions}

-- What a reorder remembers of an issue.
pub record Change : Type 0 where
  pub issue : Ref
  pub previous_status : Status
  pub previous_position : ℕ

abbrev pub assign : Status → ℕ → Issue → Issue
assign status position i = record i { status = status; position = position }

-- `applyOrderChange`
unfoldable pub apply_order_change : Ref → Status → ℕ → Heap → Change × Heap
unfolding update
apply_order_change r status position h = (
  record { issue = r; previous_status = (h r).status; previous_position = (h r).position },
  update r (assign status position (h r)) h,
)

abbrev pub status_changed : Heap → Change → Bool
status_changed h c = not (status_eq (h c.issue).status c.previous_status)

-- The world around a save: the server's answer to each request (`none` if it takes it, else the
-- message of the failure), and what other handlers do during the two waits.
pub record Surroundings : Type 0 where
  pub answer : Sent → Option String
  pub while_saving : Heap → Heap
  pub while_ordering : Heap → Heap

pub record Saved : Type 0 where
  pub heap : Heap
  pub requests : List Sent
  pub failure : Option String

-- `Promise.all` of requests that all start at once: of several failures, which is the first in time
-- is taken to be the first in the list.
abbrev pub first_failure : (Sent → Option String) → List Sent → Option String
first_failure answer [] = none
first_failure answer (q ∷ qs) = elim (answer q) [ some m ↦ some m | none ↦ first_failure answer qs ]

abbrev pub put_change : Heap → Change → Sent
put_change h c = put_issue (h c.issue).project_id (h c.issue)

abbrev pub entry : Heap → Change → ℕ × ℕ
entry h c = ((h c.issue).id, (h c.issue).position)

-- `if (positions.length > 0) await updateIssuePositions(changes[0].issue.project_id, positions)`
abbrev pub order_requests : Heap → List Change → List (ℕ × ℕ) → List Sent
order_requests h _ [] = []
order_requests h [] (p ∷ ps) = []
order_requests h (c ∷ _) (p ∷ ps) = put_positions (h c.issue).project_id (p ∷ ps) ∷ []

-- The `catch` of `saveIssueOrder`, in the order of `changes`.
unfoldable pub restore : List Change → Heap → Heap
restore [] h = h
restore (c ∷ cs) h =
    restore cs (update c.issue (assign c.previous_status c.previous_position (h c.issue)) h)

-- The end of `saveIssueOrder`: a failure takes the changes back before it is rethrown.
abbrev pub finish : Option String → List Change → List Sent → Heap → Saved
finish none changes sent h = record { heap = h; requests = sent; failure = none }
finish (some m) changes sent h = record {
  heap = restore changes h;
  requests = sent;
  failure = some m;
}

-- `positions`: the changes that are only moves, as their issues are when the edits are saved.
abbrev pub positions : Heap → List Change → List (ℕ × ℕ)
positions h changes = map (entry h) (filter_by (λ c. not (status_changed h c)) changes)

-- There is a second wait only if there is a positions request.
abbrev pub wait : (Heap → Heap) → List Sent → Heap → Heap
wait meanwhile [] h = h
wait meanwhile (_ ∷ _) h = meanwhile h

abbrev pub send_order : Surroundings → List Change → List Sent → Heap → Saved
send_order s changes edits h =
    let order = order_requests h changes (positions h changes) in
    finish (first_failure s.answer order) changes (edits ++ order) (wait s.while_ordering order h)

-- What follows the first wait.
abbrev pub after_edits : Option String → Surroundings → List Change → List Sent → Heap → Saved
after_edits (some m) s changes edits h = finish (some m) changes edits h
after_edits none s changes edits h = send_order s changes edits h

-- `saveIssueOrder`
unfoldable pub save_issue_order : Surroundings → List Change → Heap → Saved
save_issue_order s changes h =
    let edits = map (put_change h) (filter_by (status_changed h) changes) in
    after_edits (first_failure s.answer edits) s changes edits (s.while_saving h)

-- The loop of `updatePositions`. A position that is right stays untouched.
unfoldable pub renumber : ℕ → List Ref → Heap → List Change × Heap
unfolding apply_order_change
renumber index [] h = ([], h)
renumber index (r ∷ rs) h =
    let kept = (h r).position == index in
    let (c, h') = apply_order_change r (h r).status index h in
    let (cs, h'') = renumber (suc index) rs (if kept then h else h') in
    (if kept then cs else c ∷ cs, h'')

-- `updatePositions` behind its loop.
unfoldable pub save_changes : Surroundings → List Change → Heap → Saved
unfolding save_issue_order
save_changes s [] h = record { heap = h; requests = []; failure = none }
save_changes s (c ∷ cs) h = save_issue_order s (c ∷ cs) h

unfoldable pub update_positions : Surroundings → List Ref → Heap → Saved
unfolding renumber save_changes
update_positions s ordered h = let (changes, h') = renumber 0 ordered h in save_changes s changes h'

abbrev others : Heap → Ref → List Ref → List Ref
others h r = filter_by (λ j. not ((h j).id == (h r).id))

abbrev head_is : Heap → Ref → List Ref → Bool
head_is h r [] = false
head_is h r (j ∷ _) = (h j).id == (h r).id

abbrev last_is : Heap → Ref → List Ref → Bool
last_is h r [] = false
last_is h r (j ∷ []) = (h j).id == (h r).id
last_is h r (j ∷ k ∷ rs) = last_is h r (k ∷ rs)

abbrev untouched : Heap → Saved
untouched h = record { heap = h; requests = []; failure = none }

-- `handleMoveTop`, `handleMoveBottom`: the order that is saved, and the save.
abbrev pub top_order : Heap → Ref → List Ref → List Ref
top_order h r all = r ∷ others h r all

abbrev pub bottom_order : Heap → Ref → List Ref → List Ref
bottom_order h r all = others h r all ++ r ∷ []

-- What a handler has saved, and what it does to the page.
pub record Moved : Type 0 where
  pub saved : Saved
  pub effects : List Effect

-- `updatePositions` renders the view again if there was something to save.
abbrev if_changed : List Change → List Effect → List Effect
if_changed [] effects = []
if_changed (_ ∷ _) effects = effects

abbrev save_effects : Callbacks → List Change → Option String → List Effect
save_effects cb changes none = if_changed changes (rerender_if cb)
save_effects cb changes (some m) = show_save_failure m cb

-- The save with its `try` and `catch`.
abbrev save_order : Surroundings → Callbacks → List Ref → Heap → Moved
save_order s cb ordered h =
    let v = update_positions s ordered h in
    record { saved = v; effects = save_effects cb (renumber 0 ordered h).0 v.failure }

unfoldable pub handle_move_top : Surroundings → Callbacks → Ref → List Ref → Heap → Moved
handle_move_top s cb r all h =
    if leb (length all) 1 || head_is h r all
    then record { saved = untouched h; effects = [] }
    else save_order s cb (top_order h r all) h

unfoldable pub handle_move_bottom : Surroundings → Callbacks → Ref → List Ref → Heap → Moved
handle_move_bottom s cb r all h =
    if leb (length all) 1 || last_is h r all
    then record { saved = untouched h; effects = [] }
    else save_order s cb (bottom_order h r all) h
