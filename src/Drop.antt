-- ===== src/Drop.antt =====
-- static/js/list-utils.js and static/js/components/board.js: what a drop of a card does.
-- A card carries the id of its issue; a list shows its cards' ids from top to bottom.
pub mod Places
pub mod Board
pub mod Section
pub mod Lists
use wuflow.Base.{
  ℕ, suc, String, Bool, true, false, not, ◌&&◌, ◌||◌, Option, none, some, List, [], ◌∷◌, ◌++◌, ◌==◌,
  if◌then◌else◌, find,
}
use wuflow.Model.{Issue, Status, archive, status_eq}
use wuflow.Store.{Ref, Heap, update, Sent, put_issue, post_archive}
use wuflow.Order.{Change, Surroundings, Saved, apply_order_change, first_failure, save_issue_order}
use wuflow.View.{Effect, rerender, dropped, Callbacks, rerender_or_refresh, show_save_failure}

-- `state.issues.find(i => i.id === id)`
abbrev pub find_issue : Heap → List Ref → ℕ → Option Ref
find_issue h issues id = find (λ r. (h r).id == id) issues

-- The result of `getListUpdates`: the changes to save and the archive requests already started.
pub record Updates : Type 0 where
  pub changes : List Change
  pub archives : List Sent
  pub heap : Heap

abbrev no_updates : Heap → Updates
no_updates h = record { changes = []; archives = []; heap = h }

abbrev pub with_status : Status → Issue → Issue
with_status status i = record i { status = status }

abbrev pub add_change : Change → Updates → Updates
add_change c u = record u { changes = c ∷ u.changes }

abbrev add_archive : Sent → Updates → Updates
add_archive q u = record u { archives = q ∷ u.archives }

-- One card of `getListUpdates`, and the rest of the loop, which goes on from the heap it is given.
abbrev list_card : Status → ℕ → Option Ref → (Heap → Updates) → Heap → Updates
list_card target index none rest h = rest h
list_card target index (some r) rest h =
    if status_eq target archive
    then if not (status_eq (h r).status target)
      then add_archive (post_archive (h r).project_id (h r).id)
          (rest (update r (with_status target (h r)) h))
      else rest h
    else if not (status_eq (h r).status target) || not ((h r).position == index)
    then (let (c, h') = apply_order_change r target index h in add_change c (rest h'))
    else rest h

unfoldable pub list_updates : Status → ℕ → List ℕ → List Ref → Heap → Updates
unfolding apply_order_change update
list_updates target index [] issues h = no_updates h
list_updates target index (id ∷ ids) issues h =
    list_card target index (find_issue h issues id) (list_updates target (suc index) ids issues) h

-- `getListUpdates`; a list that is not in the page gives nothing.
unfoldable pub get_list_updates : Option (List ℕ) → Status → List Ref → Heap → Updates
unfolding list_updates
get_list_updates none target issues h = no_updates h
get_list_updates (some ids) target issues h = list_updates target 0 ids issues h

-- `getBoardUpdates`: the columns from left to right, each with its status and its cards.
abbrev prepend : Change → List Change × Heap → List Change × Heap
prepend c p = (c ∷ p.0, p.1)

abbrev column_card :
    Status → ℕ → Option Ref → (Heap → List Change × Heap) → Heap → List Change × Heap
column_card status index none rest h = rest h
column_card status index (some r) rest h =
    if not (status_eq (h r).status status) || not ((h r).position == index)
    then (let (c, h') = apply_order_change r status index h in prepend c (rest h'))
    else rest h

unfoldable pub column_updates : Status → ℕ → List ℕ → List Ref → Heap → List Change × Heap
unfolding apply_order_change
column_updates status index [] issues h = ([], h)
column_updates status index (id ∷ ids) issues h =
    column_card status index (find_issue h issues id) (column_updates status (suc index) ids issues)
      h

unfoldable pub get_board_updates : List (Status × List ℕ) → List Ref → Heap → List Change × Heap
unfolding column_updates
get_board_updates [] issues h = ([], h)
get_board_updates ((status, ids) ∷ cols) issues h =
    let (cs, h') = column_updates status 0 ids issues h in
    let (ds, h'') = get_board_updates cols issues h' in (cs ++ ds, h'')

pub record Dropped : Type 0 where
  pub heap : Heap
  pub requests : List Sent
  pub effects : List Effect

abbrev pub report : Callbacks → List Effect → Saved → Dropped
report cb done v = record {
  heap = v.heap;
  requests = v.requests;
  effects = elim v.failure [ none ↦ done | some m ↦ show_save_failure m cb ];
}

-- The drop on the board (`attachColumnDragListeners`): `card` says whether a card is dragged, and
-- `allowed` whether the user may edit issues. Rendering the board and the panel is `rerender`.
unfoldable pub board_drop :
    Surroundings → Callbacks → Bool → Bool → List (Status × List ℕ) → List Ref → Heap → Dropped
board_drop s cb card allowed cols issues h =
    if not card
    then record { heap = h; requests = []; effects = [] }
    else if not allowed
    then record { heap = h; requests = []; effects = rerender ∷ [] }
    else (let (changes, h') = get_board_updates cols issues h in
        report cb (rerender ∷ []) (save_issue_order s changes h'))

-- What a drop zone is set up with, and the drop. `validate` is `onValidate`, asked with the issue
-- as it is; `while_validating` is what other handlers do until it answers.
pub record Zone : Type 0 where
  pub visible : Bool
  pub target : Status
  pub card : Option ℕ
  pub validate : Option (Option Issue → Status → Bool)
  pub while_validating : Heap → Heap
  pub has_on_drop : Bool
  pub callbacks : Callbacks

abbrev nothing_done : Heap → Dropped
nothing_done h = record { heap = h; requests = []; effects = [] }

abbrev pub refused : (Option Issue → Status → Bool) → Option Issue → Status → Bool
refused v i target = not (v i target)

-- The drop of `setupSectionDrop` once it is accepted: `previous` is the status from before.
abbrev pub section_request : Status → Issue → Sent
section_request target i =
    if status_eq target archive then post_archive i.project_id i.id else put_issue i.project_id i

abbrev pub section_end : Zone → Option String → Status → Ref → List Sent → Heap → Dropped
section_end z none previous r sent h = record {
  heap = h;
  requests = sent;
  effects = rerender_or_refresh z.callbacks ++ (if z.has_on_drop then dropped ∷ [] else []);
}
section_end z (some m) previous r sent h = record {
  heap = update r (with_status previous (h r)) h;
  requests = sent;
  effects = show_save_failure m z.callbacks;
}

abbrev pub section_save : Surroundings → Zone → Status → Ref → Heap → Dropped
section_save s z previous r h =
    let h' = update r (with_status z.target (h r)) h in
    let q = section_request z.target (h' r) in
    section_end z (s.answer q) previous r (q ∷ []) (s.while_saving h')

abbrev pub validated_by :
    Option (Option Issue → Status → Bool) → Surroundings → Zone → Ref → Heap → Dropped
validated_by none s z r h = section_save s z (h r).status r h
validated_by (some v) s z r h =
    if refused v (some (h r)) z.target
    then record {
      heap = z.while_validating h;
      requests = [];
      effects = rerender_or_refresh z.callbacks;
    }
    else section_save s z (h r).status r (z.while_validating h)

abbrev section_validated : Surroundings → Zone → Ref → Heap → Dropped
section_validated s z r h = validated_by z.validate s z r h

abbrev section_found : Surroundings → Zone → Option Ref → Heap → Dropped
section_found s z none h = nothing_done h
section_found s z (some r) h =
    if status_eq (h r).status z.target then nothing_done h else section_validated s z r h

abbrev card_issue : Zone → List Ref → Heap → Option Ref
card_issue z issues h = elim z.card [ none ↦ none | some id ↦ find_issue h issues id ]

unfoldable pub section_drop : Surroundings → Zone → List Ref → Heap → Dropped
section_drop s z issues h =
    if z.visible then section_found s z (card_issue z issues h) h else nothing_done h
