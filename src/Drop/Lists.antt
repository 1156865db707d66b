-- ===== src/Drop/Lists.antt =====
-- static/js/list-utils.js, `setupListDrag`, and the `onDrop` of the lists of static/js/components/backlog.js
-- and static/js/components/archive.js: the drop of a card on a list.
use wuflow.Base.{
  ℕ, suc, String, Bool, true, false, not, ◌&&◌, ◌||◌, Option, none, some, List, [], ◌∷◌, ◌++◌, ◌==◌,
  if◌then◌else◌, ◌≡◌, refl, sym, ap, subst, All, Distinct, Bool-cases, Option-cases, inl, inr,
  arith,
}
use wuflow.Model.{Issue, Status, archive, status_eq}
use wuflow.Store.{Ref, Heap, update}
use wuflow.Order.{Change, assign, Surroundings, Saved, first_failure, save_issue_order}
use wuflow.Order.Rollback.{IsQuiet}
use wuflow.View.{Effect, rerender, rerender_or_refresh, show_save_failure}
use wuflow.Drop.{
  Updates, add_change, list_updates, get_list_updates, get_board_updates, column_updates,
  find_issue, no_updates, Zone, Dropped, nothing_done, card_issue,
}
use wuflow.Drop.Places.{ids_of, board_slots}
use wuflow.Drop.Board.{save_board-undo}

-- The lists that a drop saves, from the first to the last: the list itself, or, where `onDrop` is set,
-- the two lists of the backlog or of the archive view.
unfoldable pub lists_updates : List (Status × List ℕ) → List Ref → Heap → Updates
unfolding get_list_updates
lists_updates [] issues h = no_updates h
lists_updates ((status, ids) ∷ lists) issues h =
    let u = get_list_updates (some ids) status issues h in
    let v = lists_updates lists issues u.heap in
    record { changes = u.changes ++ v.changes; archives = u.archives ++ v.archives; heap = v.heap }

-- `Promise.all([...archives, saveIssueOrder(changes)])`: a refused archive request does not keep the
-- order from being saved, and takes nothing back.
abbrev all_failure : Option String → Option String → Option String
all_failure (some m) order = some m
all_failure none order = order

abbrev pub save_lists : Surroundings → Updates → Saved
save_lists s u =
    let v = save_issue_order s u.changes u.heap in
    record {
      heap = v.heap;
      requests = u.archives ++ v.requests;
      failure = all_failure (first_failure s.answer u.archives) v.failure;
    }

abbrev pub list_effects : Zone → Option String → List Effect
list_effects z none = if z.has_on_drop then rerender ∷ [] else rerender_or_refresh z.callbacks
list_effects z (some m) = show_save_failure m z.callbacks

abbrev list_saved : Zone → Saved → Dropped
list_saved z v = record { heap = v.heap; requests = v.requests; effects = list_effects z v.failure }

abbrev found_issue : Heap → Option Ref → Option Issue
found_issue h none = none
found_issue h (some r) = some (h r)

abbrev list_validated :
    Option (Option Issue → Status → Bool)
    → Option Issue
    → Surroundings
    → Zone
    → List (Status × List ℕ)
    → List Ref
    → Heap
    → Dropped
list_validated none i s z lists issues h =
    list_saved z (save_lists s (lists_updates lists issues h))
list_validated (some v) i s z lists issues h =
    if v i z.target
    then list_saved z (save_lists s (lists_updates lists issues (z.while_validating h)))
    else record {
      heap = z.while_validating h;
      requests = [];
      effects = rerender_or_refresh z.callbacks;
    }

abbrev has_card : Option ℕ → Bool
has_card none = false
has_card (some _) = true

-- The drop of `setupListDrag`. What a view renders on success is `rerender`.
unfoldable pub list_drop : Surroundings → Zone → List (Status × List ℕ) → List Ref → Heap → Dropped
unfolding lists_updates
list_drop s z lists issues h =
    if z.visible && has_card z.card
    then list_validated z.validate (found_issue h (card_issue z issues h)) s z lists issues h
    else nothing_done h

-- Lists none of which is the archive are saved as the columns of a board are.
list_updates-column :
    (status : Status) (n : ℕ) (ids : List ℕ) (issues : List Ref) (h : Heap)
    → status_eq status archive ≡ false
    → list_updates status n ids issues h ≡ record {
      changes = (column_updates status n ids issues h).0;
      archives = [];
      heap = (column_updates status n ids issues h).1;
    }
unfolding list_updates column_updates
list_updates-column status n [] issues h a = refl
list_updates-column status n (id ∷ ids) issues h a = elim (Option-cases (find_issue h issues id)) [
  | inl e ↦ rw e (list_updates-column status (suc n) ids issues h a)
  | inr (r, e) ↦
      rw (e, a)
        (elim (Bool-cases (not (status_eq (h r).status status) || not ((h r).position == n))) [
          | inl t ↦ rw t (
              ap
                (add_change (record {
                  issue = r;
                  previous_status = (h r).status;
                  previous_position = (h r).position;
                }))
                (list_updates-column status (suc n) ids issues (update r (assign status n (h r)) h)
                  a))
          | inr t ↦ rw t (list_updates-column status (suc n) ids issues h a)
        ])
]

abbrev NoArchive : List (Status × List ℕ) → Type 0
NoArchive = All (λ l. status_eq l.0 archive ≡ false)

abbrev as_updates : List Change × Heap → Updates
as_updates p = record { changes = p.0; archives = []; heap = p.1 }

lists_updates-board :
    (lists : List (Status × List ℕ)) (issues : List Ref) (h : Heap)
    → NoArchive lists
    → lists_updates lists issues h ≡ as_updates (get_board_updates lists issues h)
unfolding lists_updates get_board_updates
lists_updates-board [] issues h a = refl
lists_updates-board ((status, ids) ∷ lists) issues h (a, b) =
    let h' = (column_updates status 0 ids issues h).1 in
    rw (list_updates-column status 0 ids issues h a)
      (rw (lists_updates-board lists issues h' b) refl)

list_failed :
    (z : Zone) (o : Option String) (m : String)
    → list_effects z o ≡ show_save_failure m z.callbacks
    → (n : String) × (o ≡ some n)
unfolding show_save_failure rerender_or_refresh
list_failed z none m e = absurd (ground arith)
list_failed z (some n) m e = (n, refl)

module _ (s : Surroundings) (z : Zone) (lists : List (Status × List ℕ)) (issues : List Ref)
    (h : Heap) (quiet : IsQuiet s) (distinct : Distinct (ids_of (board_slots lists)))
    (no_archive : All (λ l. status_eq l.0 archive ≡ false) lists) where
  save_lists-undo :
      (m : String)
      → (save_lists s (lists_updates lists issues h)).failure ≡ some m
      → (j : Ref) → (save_lists s (lists_updates lists issues h)).heap j ≡ h j
  save_lists-undo m f j =
      let same = lists_updates-board lists issues h no_archive in
      subst (λ (u : Updates). (save_lists s u).heap j ≡ h j) (sym same)
        (save_board-undo s z.callbacks lists issues h quiet distinct
          (subst (λ (u : Updates). (save_lists s u).failure ≡ some m) same f) j)

  list_saved-undo :
      (m : String)
      → (list_saved z (save_lists s (lists_updates lists issues h))).effects
        ≡ show_save_failure m z.callbacks
      → (j : Ref) → (save_lists s (lists_updates lists issues h)).heap j ≡ h j
  list_saved-undo m e j =
      let (n, failed) = list_failed z (save_lists s (lists_updates lists issues h)).failure m e in
      save_lists-undo n failed j

  list_validated-undo :
      (o : Option (Option Issue → Status → Bool)) (i : Option Issue) (m : String)
      → z.while_validating h ≡ h
      → (list_validated o i s z lists issues h).effects ≡ show_save_failure m z.callbacks
      → (j : Ref) → (list_validated o i s z lists issues h).heap j ≡ h j
  list_validated-undo none i m calm = list_saved-undo m
  list_validated-undo (some v) i m calm = elim (Bool-cases (v i z.target)) [
    | inl t ↦ rw (t, calm) (λ e j. list_saved-undo m e j)
    | inr t ↦ rw t (λ _ j. ap (λ (k : Heap). k j) calm)
  ]

  -- A card is dropped on a list of a view. None of the lists that the view saves is the archive, as is so
  -- in the backlog; no issue has two cards in them, and no other handler runs while the drop is
  -- validated and saved. If the failure of a save is shown, every issue is again exactly as before the
  -- drop, whatever the validation says.
  pub list_drop-undo :
      (m : String)
      → z.while_validating h ≡ h
      → (list_drop s z lists issues h).effects ≡ show_save_failure m z.callbacks
      → (j : Ref) → (list_drop s z lists issues h).heap j ≡ h j
  unfolding list_drop
  list_drop-undo m calm = elim (Bool-cases (z.visible && has_card z.card)) [
    | inl t ↦ rw t (list_validated-undo z.validate (found_issue h (card_issue z issues h)) m calm)
    | inr t ↦ rw t (λ _ _. refl)
  ]
