-- ===== src/Edit.antt =====
-- static/js/list-utils.js: the two buttons of a card that edit one field in place,
-- `handleTogglePriority` and `handleAssignToMe`.
pub mod Laws
use wuflow.Base.{
  ℕ, String, Bool, true, false, Option, none, some, List, [], ◌∷◌, ◌++◌, if◌then◌else◌,
}
use wuflow.Model.{Issue, Priority, high, normal, is_high, User}
use wuflow.Store.{Ref, Heap, update, Sent, put_issue}
use wuflow.Order.{Surroundings}
use wuflow.View.{Effect, toast, Callbacks, rerender_if}

pub record Edited : Type 0 where
  pub heap : Heap
  pub requests : List Sent
  pub effects : List Effect

-- How both end: with `reverted` the error path puts the old values back on the issue as it is then.
abbrev pub settle : Option String → (Issue → Issue) → Callbacks → Ref → List Sent → Heap → Edited
settle none reverted cb r sent h = record { heap = h; requests = sent; effects = rerender_if cb }
settle (some m) reverted cb r sent h = record {
  heap = update r (reverted (h r)) h;
  requests = sent;
  effects = toast m ∷ rerender_if cb;
}

abbrev pub toggled : Priority → Priority
toggled p = if is_high p then normal else high

abbrev pub with_priority : Priority → Issue → Issue
with_priority p i = record i { priority = p }

unfoldable pub handle_toggle_priority : Surroundings → Callbacks → Ref → Heap → Edited
handle_toggle_priority s cb r h =
    let h' = update r (with_priority (toggled (h r).priority) (h r)) h in
    let q = put_issue (h' r).project_id (h' r) in
    settle (s.answer q) (with_priority (h r).priority) cb r (q ∷ []) (s.while_saving h')

abbrev pub assigned : Option ℕ → Option User → Issue → Issue
assigned id user i = record i { assignee_id = id; assignee = user }

unfoldable pub handle_assign_to_me : Surroundings → Callbacks → User → Ref → Heap → Edited
handle_assign_to_me s cb me r h =
    let h' = update r (assigned (some me.id) (some me) (h r)) h in
    let q = put_issue (h' r).project_id (h' r) in
    settle (s.answer q) (assigned (h r).assignee_id (h r).assignee) cb r (q ∷ [])
      (s.while_saving h')
